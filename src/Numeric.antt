-- ===== src/Numeric.antt =====
-- What apps/web takes from the language for the text of a number field: `Number(text)` and
-- `toFixed(2)`. A number is NaN, infinite, or a whole number of cents; decimal digits below a cent
-- are cut off, and the hexadecimal, octal and binary forms of `Number` are read as NaN.
pub mod RoundTrip
pub mod Whole
use Prim.Native.Char.{Char, code}
use Prim.Native.String.{String, [], ◌∷◌}
use reverse_auction.Common.{
  ℕ, zero, suc, ◌+◌, ◌-◌, ◌*◌, ◌/◌, ◌%◌, Bool, true, false, ◌&&◌, ◌||◌, Option, none, some, ℤ, pos,
  negsuc, pos_part, neg_part, leb, ◌==◌, str_eq, if◌then◌else◌, show_ℕ, digit, ◌+s◌, sub_ℕ,
}
use Prim.Native.Nat.{◌^◌}

pub data Number : Type 0 where
  nan : Number
  infinite : (negative : Bool) → Number
  fin : ℤ → Number

abbrev pub is_digit : Char → Bool
is_digit c = leb 48 (code c) && leb (code c) 57

abbrev pub is_space : Char → Bool
is_space c = code c == 32 || leb 9 (code c) && leb (code c) 13

-- The digits at the front: their value after `v`, how many there are after `n`, and the rest.
unfoldable pub digits : ℕ → ℕ → String → ℕ × ℕ × String
digits v n [] = (v, n, [])
digits v n (c ∷ s) = if is_digit c then digits (v * 10 + (code c - 48)) (suc n) s else (v, n, c ∷ s)

-- Digits that end the text, as an exponent with the given sign.
abbrev pub ending : (ℕ → ℤ) → ℕ × ℕ × String → Option ℤ
ending f (v, n, rest) = if n == 0 then none else if str_eq rest "" then some (f v) else none

unfoldable pub signed_exponent : String → Option ℤ
signed_exponent [] = none
signed_exponent (c ∷ s) =
    if code c == b'-'
    then ending (sub_ℕ 0) (digits 0 0 s)
    else if code c == b'+'
    then ending pos (digits 0 0 s)
    else ending pos (digits 0 0 (c ∷ s))

unfoldable pub exponent : String → Option ℤ
exponent [] = some (pos 0)
exponent (c ∷ s) = if code c == b'e' || code c == b'E' then signed_exponent s else none

unfoldable pub fraction : ℕ → String → ℕ × ℕ × String
fraction i [] = (i, 0, [])
fraction i (c ∷ s) = if code c == b'.' then digits i 0 s else (i, 0, c ∷ s)

-- `m` with its last `k` digits behind the point, times ten to the exponent, in cents.
abbrev pub scale : ℕ → ℕ → Option ℤ → Number
scale m k none = nan
scale m k (some x) = fin (pos (m * 10 ^ (2 + pos_part x) / 10 ^ (k + neg_part x)))

abbrev pub after_fraction : ℕ → ℕ × ℕ × String → Number
after_fraction whole (m, k, rest) = if whole + k == 0 then nan else scale m k (exponent rest)

abbrev pub after_whole : ℕ × ℕ × String → Number
after_whole (i, n, rest) = after_fraction n (fraction i rest)

unfoldable pub magnitude : String → Number
magnitude s = if str_eq s "Infinity" then infinite false else after_whole (digits 0 0 s)

abbrev pub negate : Number → Number
negate nan = nan
negate (infinite true) = infinite false
negate (infinite false) = infinite true
negate (fin a) = fin (sub_ℕ (neg_part a) (pos_part a))

unfoldable pub literal : String → Number
literal [] = fin (pos 0)
literal (c ∷ s) =
    if code c == b'-'
    then negate (magnitude s)
    else if code c == b'+'
    then magnitude s
    else magnitude (c ∷ s)

abbrev pub prepend : Char → String → String
prepend c t = if is_space c && str_eq t "" then "" else c ∷ t

unfoldable pub trim_end : String → String
trim_end [] = []
trim_end (c ∷ s) = prepend c (trim_end s)

unfoldable pub trim_start : String → String
trim_start [] = []
trim_start (c ∷ s) = if is_space c then trim_start s else c ∷ s

-- `text.trim()`
unfoldable pub trim : String → String
unfolding trim_end trim_start
trim s = trim_end (trim_start s)

-- `Number(text)`
unfoldable pub to_number : String → Number
unfolding literal magnitude exponent signed_exponent fraction digits trim
to_number s = literal (trim s)

unfoldable pub fixed : ℕ → String
unfolding show_ℕ digit
fixed n = show_ℕ (n / 100) +s "." +s digit (n % 100 / 10) +s digit (n % 10)

-- `n.toFixed(2)`
unfoldable pub to_fixed : Number → String
unfolding fixed
to_fixed nan = "NaN"
to_fixed (infinite true) = "-Infinity"
to_fixed (infinite false) = "Infinity"
to_fixed (fin (pos n)) = fixed n
to_fixed (fin (negsuc n)) = "-" +s fixed (suc n)

abbrev pub is_finite : Number → Bool
is_finite (fin a) = true
is_finite _ = false
