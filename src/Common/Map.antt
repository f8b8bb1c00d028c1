-- ===== src/Common/Map.antt =====
-- Maps from texts, as lists of entries: `Map.get`, `Map.set`, `Map.delete`.
use mathlib.Core.Path.{◌≡◌, refl, ap, sym, ◌∙◌}
use mathlib.Core.Logic.{◌≢◌, inl, inr}
use mathlib.Core.Bool.{true, false}
use mathlib.Core.List.{List, [], ◌∷◌}
use mathlib.Core.Option.{Option, none, some}
use Prim.Native.String.{String}
use text.Mathlib.TextEquality.{eq_iff}
use reverse_auction.Common.Tests.{if◌then◌else◌, Bool-cases}
use reverse_auction.Common.Text.{str_eq}

module _ {ℓ} {A : Type ℓ} where
  abbrev pub lookup : String → List (String × A) → Option A
  lookup k [] = none
  lookup k ((j, v) ∷ m) = if str_eq j k then some v else lookup k m

  abbrev pub put : String → A → List (String × A) → List (String × A)
  put k v [] = (k, v) ∷ []
  put k v ((j, w) ∷ m) = if str_eq j k then (k, v) ∷ m else (j, w) ∷ put k v m

  abbrev pub remove : String → List (String × A) → List (String × A)
  remove k [] = []
  remove k ((j, w) ∷ m) = if str_eq j k then remove k m else (j, w) ∷ remove k m

str_eq_refl : (k : String) → str_eq k k ≡ true
str_eq_refl k = (eq_iff k k).1 refl

distinct : (j k : String) → j ≢ k → str_eq j k ≡ false
distinct j k n = elim (Bool-cases (str_eq j k)) [
  | inl same ↦ absurd (n ((eq_iff j k).0 same))
  | inr other ↦ other
]

module _ {ℓ} {A : Type ℓ} where
  pub lookup-put : (k : String) (v : A) (m : List (String × A)) → lookup k (put k v m) ≡ some v
  lookup-put k v [] = rw (str_eq_refl k)
  lookup-put k v ((j, w) ∷ m) = elim (Bool-cases (str_eq j k)) [
    | inl same ↦ rw (same, str_eq_refl k)
    | inr other ↦ rw (other, other) (lookup-put k v m)
  ]

  pub lookup-put_other :
      (i k : String) (v : A) (m : List (String × A)) → i ≢ k → lookup i (put k v m) ≡ lookup i m
  lookup-put_other i k v [] n = rw (distinct k i (λ e. n (sym e)))
  lookup-put_other i k v ((j, w) ∷ m) n = elim (Bool-cases (str_eq j k)) [
    | inl same ↦
        let apart : str_eq j i ≡ false = distinct j i (λ e. n (sym e ∙ (eq_iff j k).0 same)) in
        rw (same, distinct k i (λ e. n (sym e)), apart)
    | inr other ↦ rw other (ap (λ r. if str_eq j i then some w else r) (lookup-put_other i k v m n))
  ]

  pub lookup-remove : (k : String) (m : List (String × A)) → lookup k (remove k m) ≡ none
  lookup-remove k [] = refl
  lookup-remove k ((j, w) ∷ m) = elim (Bool-cases (str_eq j k)) [
    | inl same ↦ rw same (lookup-remove k m)
    | inr other ↦ rw (other, other) (lookup-remove k m)
  ]

  pub lookup-remove_other :
      (i k : String) (m : List (String × A)) → i ≢ k → lookup i (remove k m) ≡ lookup i m
  lookup-remove_other i k [] n = refl
  lookup-remove_other i k ((j, w) ∷ m) n = elim (Bool-cases (str_eq j k)) [
    | inl same ↦
        let apart : str_eq j i ≡ false = distinct j i (λ e. n (sym e ∙ (eq_iff j k).0 same)) in
        rw (same, apart) (lookup-remove_other i k m n)
    | inr other ↦
        rw other (ap (λ r. if str_eq j i then some w else r) (lookup-remove_other i k m n))
  ]
