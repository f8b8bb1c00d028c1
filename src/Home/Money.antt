-- ===== src/Home/Money.antt =====
-- The amounts that the market shows (apps/web/app/page.tsx, `money`).
use Prim.Native.Char.{code}
use Prim.Native.String.{[], ◌∷◌}
use Prim.Native.Nat.{◌<◌}
use reverse_auction.Common.{
  ℕ, zero, suc, ◌+◌, ◌*◌, ◌/◌, ◌%◌, ◌≤◌, ltb, ◌==◌, ◌≡◌, refl, ap, ◌∙◌, inl, inr, some, String,
  ◌+s◌, pos, show_ℕ, IsDigits, IsDigits-append, show_ℕ-IsDigits, value_from, value_from-append,
  value_from-show_ℕ, value_from-show_ℕ_one, value_from-show_ℕ_two, value_from-show_ℕ_three, arith,
  Bool-cases, if◌then◌else◌,
}
use text.Mathlib.TextLemmas.{nil-append, cons-append}
use reverse_auction.Home.{pad_three, group_from, group_digits, money}

-- A text without its commas.
unfoldable pub without_commas : String → String
without_commas [] = []
without_commas (c ∷ s) = if code c == b',' then without_commas s else c ∷ without_commas s

without_commas-append :
    (s t : String) → without_commas (s +s t) ≡ without_commas s +s without_commas t
unfolding without_commas
without_commas-append [] t = rw (nil-append, nil-append)
without_commas-append (c ∷ s) t = elim (Bool-cases (code c == b',')) [
  | inl e ↦ rw (cons-append, e) (without_commas-append s t)
  | inr e ↦ rw (cons-append, e, cons-append) (ap (λ u. c ∷ u) (without_commas-append s t))
]

without_commas_digits : (s : String) → IsDigits s → without_commas s ≡ s
unfolding without_commas
without_commas_digits [] h = refl
without_commas_digits (c ∷ s) (lo, hi, h) = elim (Bool-cases (code c == b',')) [
  | inl e ↦ absurd (ground arith)
  | inr e ↦ rw e (ap (λ u. c ∷ u) (without_commas_digits s h))
]

pad_three-IsDigits : (n : ℕ) → IsDigits (pad_three n)
pad_three-IsDigits n = elim (Bool-cases (ltb n 10)) [
  | inl e ↦ rw e (IsDigits-append "00" (show_ℕ n) (omega arith) (show_ℕ-IsDigits n))
  | inr e ↦ rw e (elim (Bool-cases (ltb n 100)) [
    | inl h ↦ rw h (IsDigits-append "0" (show_ℕ n) (omega arith) (show_ℕ-IsDigits n))
    | inr h ↦ rw h (show_ℕ-IsDigits n)
  ])
]

value_from-pad_three : (acc n : ℕ) → n < 1000 → value_from acc (pad_three n) ≡ acc * 1000 + n
unfolding value_from
value_from-pad_three acc n k = elim (Bool-cases (ltb n 10)) [
  | inl e ↦ rw e (
      value_from-append acc "00" (show_ℕ n)
      ∙ value_from-show_ℕ_one (value_from acc "00") n (ground arith)
      ∙ omega arith)
  | inr e ↦ rw e (elim (Bool-cases (ltb n 100)) [
    | inl h ↦ rw h (
        value_from-append acc "0" (show_ℕ n)
        ∙ value_from-show_ℕ_two (value_from acc "0") n (ground arith) (ground arith)
        ∙ omega arith)
    | inr h ↦ rw h (value_from-show_ℕ_three acc n (ground arith) k)
  ])
]

without_commas-comma : (s : String) → without_commas ("," +s s) ≡ without_commas s
unfolding without_commas
without_commas-comma s = rw (cons-append, nil-append)

value_from-group_from : (f n : ℕ) → n < f → value_from 0 (without_commas (group_from f n)) ≡ n
unfolding group_from
value_from-group_from zero n h = elim h [ ]
value_from-group_from (suc f) n h = elim (Bool-cases (ltb n 1000)) [
  | inl small ↦
      rw (small, group_from)
        (ap (value_from 0) (without_commas_digits (show_ℕ n) (show_ℕ-IsDigits n))
          ∙ value_from-show_ℕ n)
  | inr large ↦
      let front : String = group_from f (n / 1000) in
      let back : String = pad_three (n % 1000) in
      rw (large, group_from)
        (ap (value_from 0) (
            without_commas-append front ("," +s back)
            ∙ ap (λ t. without_commas front +s t)
                (without_commas-comma back
                  ∙ without_commas_digits back (pad_three-IsDigits (n % 1000))))
          ∙ value_from-append 0 (without_commas front) back
          ∙ ap (λ (a : ℕ). value_from a back) (value_from-group_from f (n / 1000) (ground arith))
          ∙ value_from-pad_three (n / 1000) (n % 1000) (omega arith)
          ∙ omega arith)
]

-- The price of an auction, in cents, is shown in whole dollars with commas: after the sign and
-- without its commas the text reads as a number of dollars within half a dollar of the price.
pub money-reads :
    (cents : ℕ)
    → (text : String) × (dollars : ℕ) × (money (some (pos cents)) ≡ "$" +s text)
      × (value_from 0 (without_commas text) ≡ dollars)
      × (dollars * 100 ≤ cents + 50)
      × (cents < dollars * 100 + 50)
unfolding money
money-reads cents = (
  group_digits ((cents + 50) / 100),
  (cents + 50) / 100,
  refl,
  value_from-group_from (suc ((cents + 50) / 100)) ((cents + 50) / 100) (omega arith),
  omega arith,
  omega arith,
)
