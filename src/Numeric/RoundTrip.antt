-- ===== src/Numeric/RoundTrip.antt =====
-- `Number(text)` of the texts that `toFixed(2)` prints.
use Prim.Native.Char.{Char, code}
use Prim.Native.String.{String, [], ◌∷◌, count}
use mathlib.Core.Logic.{◌≢◌}
use text.Mathlib.TextEquality.{eq_iff}
use native.Mathlib.Nat.{add-zero}
use text.Mathlib.TextLemmas.{append-nil, length-cons, nil-append, cons-append, head-eq_of_cons-eq}
use reverse_auction.Common.{
  ℕ, suc, ◌+◌, ◌-◌, ◌*◌, ◌/◌, ◌%◌, ◌<◌, ◌≤◌, ◌≡◌, refl, sym, ap, ◌∙◌, false, ℤ, pos, negsuc, arith,
  str_eq, show_ℕ, digit, ◌+s◌, IsDigits, digit-IsDigits, value_from, value_from-digit, count-digit,
  show_ℕ-IsDigits, value_from-show_ℕ, show_ℕ-ne-nil, Bool-cases, inl, inr,
}
use reverse_auction.Numeric.{
  nan, fin, digits, fraction, exponent, magnitude, literal, trim_end, trim_start, trim, to_number,
  fixed, to_fixed, negate, after_whole, after_fraction,
}

numbers_test :
    (to_number " 12.5 " ≡ fin (pos 1250))
    × (to_number "" ≡ fin (pos 0))
    × (to_number "-0.07" ≡ fin (negsuc 6))
    × (to_number "1e3" ≡ fin (pos 100000))
    × (to_number "1x" ≡ nan)
    × (to_fixed (fin (pos 123405)) ≡ "1234.05")
unfolding to_number to_fixed
numbers_test = (refl, refl, refl, refl, refl, refl)

-- Digits in front of a text are taken whole.
pub digits-append :
    (v n : ℕ) (s t : String)
    → IsDigits s
    → digits v n (s +s t) ≡ digits (value_from v s) (n + count s) t
unfolding digits value_from
digits-append v n [] t h = rw (nil-append, add-zero)
digits-append v n (c ∷ s) t h = rw cons-append (
    ground (
      arith,
      length-cons c s,
      digits-append (v * 10 + (code c - 48)) (suc n) s t h.2,
      h.0,
      h.1,
      ap (λ (k : ℕ). digits (value_from (v * 10 + (code c - 48)) s) k t) (shift n s),
    ))
  where
    shift : (n : ℕ) (s : String) → suc n + count s ≡ n + suc (count s)
    shift n s = omega arith

pub digits_all :
    (v n : ℕ) (s : String) → IsDigits s → digits v n s ≡ (value_from v s, n + count s, "")
unfolding digits
digits_all v n s h = ap (digits v n) (sym (append-nil s)) ∙ digits-append v n s "" h

digits-digit : (v n d : ℕ) → d < 10 → digits v n (digit d) ≡ (v * 10 + d, suc n, "")
digits-digit v n d h =
    digits_all v n (digit d) (digit-IsDigits d h)
    ∙ rw (value_from-digit v d h, count-digit d h)
        (ap (λ (k : ℕ). (v * 10 + d, k, "")) (omega arith))

fraction_point : (v : ℕ) (t : String) → fraction v ("." +s t) ≡ digits v 0 t
unfolding fraction
fraction_point v t = rw (cons-append, nil-append)

digits_point : (v n : ℕ) (t : String) → digits v n ("." +s t) ≡ (v, n, "." +s t)
unfolding digits
digits_point v n t = rw (cons-append, nil-append)

cents : ℕ → String
cents n = digit (n % 100 / 10) +s digit (n % 10)

digits-cents : (v n : ℕ) → digits v 0 (cents n) ≡ (v * 10 * 10 + n % 100, 2, "")
unfolding cents
digits-cents v n =
    digits-append v 0 (digit (n % 100 / 10)) (digit (n % 10)) (digit-IsDigits _ (omega arith))
    ∙ rw (value_from-digit v (n % 100 / 10) (omega arith), count-digit (n % 100 / 10) (omega arith))
        (digits-digit (v * 10 + n % 100 / 10) (0 + 1) (n % 10) (omega arith)
          ∙ ap (λ (m : ℕ). (m, 2, "")) (omega arith))

fixed_lem : (n : ℕ) → fixed n ≡ show_ℕ (n / 100) +s ("." +s cents n)
unfolding fixed cents
fixed_lem n = refl

scaled : (k m n : ℕ) → m ≡ n → after_fraction k (m, 2, "") ≡ fin (pos n)
unfolding exponent
scaled k m n e = ground arith

after_whole_fixed :
    (n : ℕ) → after_whole (digits 0 0 (show_ℕ (n / 100) +s ("." +s cents n))) ≡ fin (pos n)
after_whole_fixed n =
    let q = n / 100 in
    let k = 0 + count (show_ℕ q) in
    let whole : digits 0 0 (show_ℕ q +s ("." +s cents n)) ≡ (q, k, "." +s cents n) =
      digits-append 0 0 (show_ℕ q) ("." +s cents n) (show_ℕ-IsDigits q)
      ∙ rw (value_from-show_ℕ q) (digits_point q k (cents n)) in
    ap after_whole whole
    ∙ ap (after_fraction k) (fraction_point q (cents n) ∙ digits-cents q n)
    ∙ scaled k (q * 10 * 10 + n % 100) n (omega arith)

-- The first character of a printed number.
pub record Front (s : String) : Type 0 where
  pub first : Char
  pub rest : String
  pub split : s ≡ first ∷ rest
  pub least : 48 ≤ code first
  pub most : code first ≤ 57

pub front : (s : String) → IsDigits s → s ≢ "" → Front s
front [] h n = absurd (n refl)
front (c ∷ s) h n = record { first = c; rest = s; split = refl; least = h.0; most = h.1 }

-- Every character of the text is visible.
unfoldable pub IsInk : String → Type 0
IsInk [] = Unit
IsInk (c ∷ s) = (33 ≤ code c) × IsInk s

IsInk-append : (s t : String) → IsInk s → IsInk t → IsInk (s +s t)
unfolding IsInk
IsInk-append [] t h k = rw nil-append k
IsInk-append (c ∷ s) t h k = rw cons-append (h.0, IsInk-append s t h.1 k)

pub IsDigits-IsInk : (s : String) → IsDigits s → IsInk s
unfolding IsInk
IsDigits-IsInk [] h = tt
IsDigits-IsInk (c ∷ s) h = (omega (arith, h.0), IsDigits-IsInk s h.2)

trim_end_ink : (s : String) → IsInk s → trim_end s ≡ s
unfolding trim_end IsInk
trim_end_ink [] h = refl
trim_end_ink (c ∷ s) h = rw (trim_end_ink s h.1) (ground (arith, h.0))

trim_ink : (s : String) → IsInk s → trim s ≡ s
unfolding trim IsInk
trim_ink [] h = refl
trim_ink (c ∷ s) h = ap trim_end (starts c s h.0) ∙ trim_end_ink (c ∷ s) h
  where
    starts : (c : Char) (s : String) → 33 ≤ code c → trim_start (c ∷ s) ≡ c ∷ s
    starts c s k = ground arith

cents-IsInk : (n : ℕ) → IsInk ("." +s cents n)
unfolding cents IsInk
cents-IsInk n =
    IsInk-append "." (digit (n % 100 / 10) +s digit (n % 10)) (omega arith, tt)
      (IsInk-append _ _ (IsDigits-IsInk _ (digit-IsDigits _ (omega arith)))
        (IsDigits-IsInk _ (digit-IsDigits _ (omega arith))))

printed-IsInk : (n : ℕ) → IsInk (show_ℕ (n / 100) +s ("." +s cents n))
printed-IsInk n = IsInk-append _ _ (IsDigits-IsInk _ (show_ℕ-IsDigits (n / 100))) (cents-IsInk n)

not_infinity : (c : Char) (s : String) → code c ≤ 57 → str_eq (c ∷ s) "Infinity" ≡ false
not_infinity c s h = elim (Bool-cases (str_eq (c ∷ s) "Infinity")) [
  | inr e ↦ e
  | inl e ↦ absurd (too_large (ap code (head-eq_of_cons-eq ((eq_iff (c ∷ s) "Infinity").0 e))))
]
  where
    too_large : code c ≡ 73 → ⊥
    too_large e = omega arith

magnitude_front :
    (c : Char) (s : String) → code c ≤ 57 → magnitude (c ∷ s) ≡ after_whole (digits 0 0 (c ∷ s))
unfolding magnitude
magnitude_front c s h = rw (not_infinity c s h)

pub literal_front :
    (c : Char) (s : String)
    → 48 ≤ code c
    → code c ≤ 57
    → literal (c ∷ s) ≡ after_whole (digits 0 0 (c ∷ s))
unfolding literal
literal_front c s h k = signs ∙ magnitude_front c s k
  where
    signs : literal (c ∷ s) ≡ magnitude (c ∷ s)
    signs = ground arith

literal_minus : (s : String) → literal ("-" +s s) ≡ negate (magnitude s)
unfolding literal
literal_minus s = rw (cons-append, nil-append)

module _ (n : ℕ) where
  printed : String
  printed = show_ℕ (n / 100) +s ("." +s cents n)

  start : Front (show_ℕ (n / 100))
  start = front (show_ℕ (n / 100)) (show_ℕ-IsDigits (n / 100)) (show_ℕ-ne-nil (n / 100))

  printed_split : printed ≡ start.first ∷ (start.rest +s ("." +s cents n))
  unfolding printed
  printed_split = ap (λ (s : String). s +s ("." +s cents n)) start.split ∙ cons-append _ _ _

  magnitude-printed : magnitude printed ≡ fin (pos n)
  magnitude-printed =
      ap magnitude printed_split
      ∙ magnitude_front start.first _ start.most
      ∙ ap (λ (s : String). after_whole (digits 0 0 s)) (sym printed_split)
      ∙ unfold printed in after_whole_fixed n

  literal-printed : literal printed ≡ fin (pos n)
  literal-printed =
      ap literal printed_split
      ∙ literal_front start.first _ start.least start.most
      ∙ ap (λ (s : String). after_whole (digits 0 0 s)) (sym printed_split)
      ∙ unfold printed in after_whole_fixed n

pub to_number_ink : (s : String) → IsInk s → to_number s ≡ literal s
unfolding to_number
to_number_ink s h = ap literal (trim_ink s h)

to_fixed_pos : (n : ℕ) → to_fixed (fin (pos n)) ≡ printed n
unfolding to_fixed printed cents
to_fixed_pos n = refl

to_fixed_negsuc : (n : ℕ) → to_fixed (fin (negsuc n)) ≡ "-" +s printed (suc n)
unfolding to_fixed printed cents
to_fixed_negsuc n = refl

ink : (n : ℕ) → IsInk (printed n)
unfolding printed
ink n = printed-IsInk n

minus-IsInk : (s : String) → IsInk s → IsInk ("-" +s s)
unfolding IsInk
minus-IsInk s h = IsInk-append "-" s (omega arith, tt) h

-- `Number(n.toFixed(2))` is `n`, for every whole number of cents, also below zero.
pub to_number-to_fixed : (a : ℤ) → to_number (to_fixed (fin a)) ≡ fin a
to_number-to_fixed (pos n) =
    ap to_number (to_fixed_pos n) ∙ to_number_ink (printed n) (ink n) ∙ literal-printed n
to_number-to_fixed (negsuc n) =
    ap to_number (to_fixed_negsuc n)
    ∙ to_number_ink _ (minus-IsInk (printed (suc n)) (ink (suc n)))
    ∙ literal_minus (printed (suc n))
    ∙ ap negate (magnitude-printed (suc n))
    ∙ negated n
  where
    negated : (n : ℕ) → negate (fin (pos (suc n))) ≡ fin (negsuc n)
    negated n = ground arith
