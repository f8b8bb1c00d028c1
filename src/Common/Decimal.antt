-- ===== src/Common/Decimal.antt =====
-- The decimal form that `String(n)` and `+` give a whole number, and the number that a text of digits writes.
use Prim.Native.Nat.{ℕ, zero, suc, ◌+◌, ◌-◌, ◌*◌, ◌/◌, ◌%◌, ◌≤◌, ◌<◌}
use Prim.Native.Char.{code}
use Prim.Native.String.{String, [], ◌∷◌, count}
use mathlib.Core.Path.{◌≡◌, refl, sym, ap, ◌∙◌}
use mathlib.Core.Bool.{true, false}
use mathlib.Core.Logic.{◌≢◌, inl, inr}
use native.Mathlib.Omega.{arith}
use text.Mathlib.TextEquality.{eq_iff}
use text.Mathlib.TextLemmas.{append-ne-nil_of_right_ne-nil, nil-append, cons-append}
use reverse_auction.Common.Tests.{Bool-cases, ltb, leb, ◌==◌, if◌then◌else◌}
use reverse_auction.Common.Int.{ℤ, pos, negsuc, sub_ℕ}
use reverse_auction.Common.Text.{◌+s◌}

unfoldable pub digit : ℕ → String
digit d =
    if d == 0
    then "0"
    else if d == 1
    then "1"
    else if d == 2
    then "2"
    else if d == 3
    then "3"
    else if d == 4
    then "4"
    else if d == 5
    then "5"
    else if d == 6
    then "6"
    else if d == 7
    then "7"
    else if d == 8
    then "8"
    else "9"

show_from : ℕ → ℕ → String
show_from zero n = ""
show_from (suc f) n = elim (ltb n 10) [
  | true ↦ digit n
  | false ↦ show_from f (n / 10) +s digit (n % 10)
]

-- The number of digits is below `n + 1`, so the fuel is enough.
unfoldable pub show_ℕ : ℕ → String
unfolding digit show_from
show_ℕ n = show_from (suc n) n

unfoldable pub show_ℤ : ℤ → String
unfolding show_ℕ
show_ℤ (pos n) = show_ℕ n
show_ℤ (negsuc n) = "-" +s show_ℕ (suc n)

show_tests : (show_ℤ (pos 1723) ≡ "1723") × (show_ℤ (negsuc 9) ≡ "-10") × (show_ℤ (pos 0) ≡ "0")
unfolding show_ℤ
show_tests = (refl, refl, refl)

digit-ne-nil : (d : ℕ) → digit d ≢ ""
unfolding digit
digit-ne-nil d = ground (
  arith,
  eq_iff "0" "",
  eq_iff "1" "",
  eq_iff "2" "",
  eq_iff "3" "",
  eq_iff "4" "",
  eq_iff "5" "",
  eq_iff "6" "",
  eq_iff "7" "",
  eq_iff "8" "",
  eq_iff "9" "",
)

show_from-ne-nil : (f n : ℕ) → show_from (suc f) n ≢ ""
unfolding show_from
show_from-ne-nil f n = elim (Bool-cases (ltb n 10)) [
  | inl small ↦ rw (small, show_from) (digit-ne-nil n)
  | inr large ↦
      rw (large, show_from)
        (append-ne-nil_of_right_ne-nil (show_from f (n / 10)) (digit-ne-nil (n % 10)))
]

-- A printed number is not empty.
pub show_ℤ-ne-nil : (n : ℤ) → show_ℤ n ≢ ""
unfolding show_ℤ
show_ℤ-ne-nil (pos n) = show_from-ne-nil n n
show_ℤ-ne-nil (negsuc n) = append-ne-nil_of_right_ne-nil "-" (show_from-ne-nil (suc n) (suc n))

-- The number that a text of digits stands for, after a number `acc`.
unfoldable pub value_from : ℕ → String → ℕ
value_from acc [] = acc
value_from acc (c ∷ s) = value_from (acc * 10 + (code c - 48)) s

pub value_from-append :
    (acc : ℕ) (s t : String) → value_from acc (s +s t) ≡ value_from (value_from acc s) t
unfolding value_from
value_from-append acc [] t = rw nil-append
value_from-append acc (c ∷ s) t = rw cons-append (value_from-append (acc * 10 + (code c - 48)) s t)

-- What holds of the ten digits, one by one.
below_ten :
    (P : ℕ → Type 0)
    → P 0
    → P 1
    → P 2
    → P 3
    → P 4
    → P 5
    → P 6
    → P 7
    → P 8
    → P 9
    → (d : ℕ) → d < 10
    → P d
below_ten P p0 p1 p2 p3 p4 p5 p6 p7 p8 p9 zero h = p0
below_ten P p0 p1 p2 p3 p4 p5 p6 p7 p8 p9 (suc zero) h = p1
below_ten P p0 p1 p2 p3 p4 p5 p6 p7 p8 p9 (suc (suc zero)) h = p2
below_ten P p0 p1 p2 p3 p4 p5 p6 p7 p8 p9 (suc (suc (suc zero))) h = p3
below_ten P p0 p1 p2 p3 p4 p5 p6 p7 p8 p9 (suc (suc (suc (suc zero)))) h = p4
below_ten P p0 p1 p2 p3 p4 p5 p6 p7 p8 p9 (suc (suc (suc (suc (suc zero))))) h = p5
below_ten P p0 p1 p2 p3 p4 p5 p6 p7 p8 p9 (suc (suc (suc (suc (suc (suc zero)))))) h = p6
below_ten P p0 p1 p2 p3 p4 p5 p6 p7 p8 p9 (suc (suc (suc (suc (suc (suc (suc zero))))))) h = p7
below_ten P p0 p1 p2 p3 p4 p5 p6 p7 p8 p9 (suc (suc (suc (suc (suc (suc (suc (suc zero)))))))) h =
    p8
below_ten P p0 p1 p2 p3 p4 p5 p6 p7 p8 p9 (suc (suc (suc (suc (suc (suc (suc (suc (suc zero)))))))))
      h =
    p9
below_ten P p0 p1 p2 p3 p4 p5 p6 p7 p8 p9
      (suc (suc (suc (suc (suc (suc (suc (suc (suc (suc d)))))))))) h =
    absurd (omega arith)

pub value_from-digit : (acc d : ℕ) → d < 10 → value_from acc (digit d) ≡ acc * 10 + d
unfolding value_from digit
value_from-digit acc =
    below_ten (λ d. value_from acc (digit d) ≡ acc * 10 + d) refl' (omega arith) (omega arith)
      (omega arith) (omega arith) (omega arith) (omega arith) (omega arith) (omega arith)
      (omega arith)
  where
    refl' : acc * 10 + (48 - 48) ≡ acc * 10 + 0
    refl' = omega arith

value_from-show_from : (f n : ℕ) → n < f → value_from 0 (show_from f n) ≡ n
unfolding show_from
value_from-show_from zero n h = elim h [ ]
value_from-show_from (suc f) n h = elim (Bool-cases (ltb n 10)) [
  | inl small ↦ rw (small, show_from) (value_from-digit 0 n (ground arith) ∙ omega arith)
  | inr large ↦
      rw (large, show_from)
        (value_from-append 0 (show_from f (n / 10)) (digit (n % 10))
          ∙ ap (λ (a : ℕ). value_from a (digit (n % 10)))
              (value_from-show_from f (n / 10) (ground arith))
          ∙ value_from-digit (n / 10) (n % 10) (omega arith)
          ∙ omega arith)
]

abbrev pub IsDigits : String → Type 0
IsDigits [] = Unit
IsDigits (c ∷ s) = (48 ≤ code c) × (code c ≤ 57) × IsDigits s

pub IsDigits-append : (s t : String) → IsDigits s → IsDigits t → IsDigits (s +s t)
IsDigits-append [] t h k = rw nil-append k
IsDigits-append (c ∷ s) t h k = rw cons-append (h.0, h.1, IsDigits-append s t h.2 k)

pub digit-IsDigits : (d : ℕ) → d < 10 → IsDigits (digit d)
unfolding digit
digit-IsDigits =
    below_ten (λ d. IsDigits (digit d)) (omega arith) (omega arith) (omega arith) (omega arith)
      (omega arith) (omega arith) (omega arith) (omega arith) (omega arith) (omega arith)

show_from-IsDigits : (f n : ℕ) → IsDigits (show_from f n)
unfolding show_from
show_from-IsDigits zero n = tt
show_from-IsDigits (suc f) n = elim (Bool-cases (ltb n 10)) [
  | inl small ↦ rw (small, show_from) (digit-IsDigits n (ground arith))
  | inr large ↦
      rw (large, show_from)
        (IsDigits-append _ _ (show_from-IsDigits f (n / 10))
          (digit-IsDigits (n % 10) (omega arith)))
]

pub show_ℕ-IsDigits : (n : ℕ) → IsDigits (show_ℕ n)
unfolding show_ℕ
show_ℕ-IsDigits n = show_from-IsDigits (suc n) n

pub value_from-show_ℕ : (n : ℕ) → value_from 0 (show_ℕ n) ≡ n
unfolding show_ℕ
value_from-show_ℕ n = value_from-show_from (suc n) n (omega arith)

pub show_ℕ-ne-nil : (n : ℕ) → show_ℕ n ≢ ""
unfolding show_ℕ
show_ℕ-ne-nil n = show_from-ne-nil n n

pub count-digit : (d : ℕ) → d < 10 → count (digit d) ≡ 1
unfolding digit
count-digit = below_ten (λ d. count (digit d) ≡ 1) refl refl refl refl refl refl refl refl refl refl

-- The whole number that a text stands for: a sign and digits.
pub read_ℤ : String → ℤ
read_ℤ [] = pos 0
read_ℤ (c ∷ s) = if code c == b'-' then sub_ℕ 0 (value_from 0 s) else pos (value_from 0 (c ∷ s))

read_ℤ_digits : (s : String) → IsDigits s → read_ℤ s ≡ pos (value_from 0 s)
unfolding read_ℤ value_from
read_ℤ_digits [] h = refl
read_ℤ_digits (c ∷ s) h = ground arith

read_ℤ_signed : (n : ℕ) → read_ℤ ("-" +s show_ℕ n) ≡ sub_ℕ 0 n
unfolding read_ℤ show_ℕ
read_ℤ_signed n =
    rw (cons-append, nil-append) (ap (sub_ℕ 0) (value_from-show_from (suc n) n (omega arith)))

sub_ℕ_zero : (n : ℕ) → sub_ℕ 0 (suc n) ≡ negsuc n
sub_ℕ_zero n = ground arith

-- Reading what was printed gives the number back.
pub read_ℤ-show_ℤ : (n : ℤ) → read_ℤ (show_ℤ n) ≡ n
unfolding show_ℤ
read_ℤ-show_ℤ (pos n) =
    read_ℤ_digits _ (show_from-IsDigits (suc n) n)
    ∙ ap pos (value_from-show_from (suc n) n (omega arith))
read_ℤ-show_ℤ (negsuc n) = read_ℤ_signed (suc n) ∙ sub_ℕ_zero n

-- So different numbers have different decimal forms.
pub show_ℤ-injective : (m n : ℤ) → show_ℤ m ≡ show_ℤ n → m ≡ n
show_ℤ-injective m n e = sym (read_ℤ-show_ℤ m) ∙ ap read_ℤ e ∙ read_ℤ-show_ℤ n

-- A number of one, two or three digits, read after a number `acc`.
value_from-show_one : (f acc n : ℕ) → n < 10 → value_from acc (show_from (suc f) n) ≡ acc * 10 + n
unfolding show_from
value_from-show_one f acc n h =
    let small : ltb n 10 ≡ true = ground arith in rw (small, show_from) (value_from-digit acc n h)

value_from-show_more :
    (f acc n : ℕ)
    → 10 ≤ n
    → value_from acc (show_from (suc f) n) ≡ value_from acc (show_from f (n / 10)) * 10 + n % 10
unfolding show_from
value_from-show_more f acc n h =
    let large : ltb n 10 ≡ false = ground arith in
    rw (large, show_from)
      (value_from-append acc (show_from f (n / 10)) (digit (n % 10))
        ∙ value_from-digit (value_from acc (show_from f (n / 10))) (n % 10) (omega arith))

pub value_from-show_ℕ_one : (acc n : ℕ) → n < 10 → value_from acc (show_ℕ n) ≡ acc * 10 + n
unfolding show_ℕ
value_from-show_ℕ_one acc n h = value_from-show_one n acc n h

value_from-show_two :
    (f acc n : ℕ) → 10 ≤ n → n < 100 → value_from acc (show_from (suc (suc f)) n) ≡ acc * 100 + n
value_from-show_two f acc n h k =
    omega (
      arith,
      value_from-show_more (suc f) acc n h,
      value_from-show_one f acc (n / 10) (omega arith),
    )

pub value_from-show_ℕ_two :
    (acc n : ℕ) → 10 ≤ n → n < 100 → value_from acc (show_ℕ n) ≡ acc * 100 + n
unfolding show_ℕ
value_from-show_ℕ_two acc zero h k = absurd (omega arith)
value_from-show_ℕ_two acc (suc n) h k = value_from-show_two n acc (suc n) h k

value_from-show_three :
    (f acc n : ℕ)
    → 100 ≤ n
    → n < 1000
    → value_from acc (show_from (suc (suc (suc f))) n) ≡ acc * 1000 + n
value_from-show_three f acc n h k = omega (
  arith,
  value_from-show_more (suc (suc f)) acc n (omega arith),
  value_from-show_two f acc (n / 10) (omega arith) (omega arith),
)

pub value_from-show_ℕ_three :
    (acc n : ℕ) → 100 ≤ n → n < 1000 → value_from acc (show_ℕ n) ≡ acc * 1000 + n
unfolding show_ℕ
value_from-show_ℕ_three acc zero h k = absurd (omega arith)
value_from-show_ℕ_three acc (suc zero) h k = absurd (omega arith)
value_from-show_ℕ_three acc (suc (suc n)) h k = value_from-show_three n acc (suc (suc n)) h k

-- `n.toString().padStart(2, "0")`
abbrev pub pad : ℕ → String
pad n = if leb 2 (count (show_ℕ n)) then show_ℕ n else "0" +s show_ℕ n
