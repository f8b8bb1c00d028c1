-- ===== src/Numeric/Whole.antt =====
-- `Number(text)` of a text of digits.
use Prim.Native.String.{String, count, [], ◌∷◌}
use text.Mathlib.TextLemmas.{length-cons}
use reverse_auction.Common.{
  ℕ, ◌+◌, ◌*◌, ◌≡◌, ◌≢◌, refl, sym, ap, ◌∙◌, pos, arith, IsDigits, value_from, ◌<◌,
}
use reverse_auction.Numeric.{fin, to_number, literal, after_whole, digits, fraction, exponent}
use reverse_auction.Numeric.RoundTrip.{
  IsDigits-IsInk, to_number_ink, literal_front, digits_all, front,
}

after_digits : (v n : ℕ) → 0 < n → after_whole (v, n, "") ≡ fin (pos (v * 100))
unfolding fraction exponent
after_digits v n h = ground arith

literal-digits : (s : String) → IsDigits s → s ≢ "" → literal s ≡ after_whole (digits 0 0 s)
literal-digits s h n =
    let f = front s h n in
    ap literal f.split
    ∙ literal_front f.first f.rest f.least f.most
    ∙ ap (λ (t : String). after_whole (digits 0 0 t)) (sym f.split)

count_pos : (s : String) → s ≢ "" → 0 < count s
count_pos [] n = absurd (n refl)
count_pos (c ∷ s) n = omega (arith, length-cons c s)

-- A text of digits, leading zeros allowed, is read as the number that it writes.
pub to_number-digits :
    (s : String) → IsDigits s → s ≢ "" → to_number s ≡ fin (pos (value_from 0 s * 100))
to_number-digits s h n =
    to_number_ink s (IsDigits-IsInk s h)
    ∙ literal-digits s h n
    ∙ ap after_whole (digits_all 0 0 s h)
    ∙ after_digits (value_from 0 s) (0 + count s) (omega (arith, count_pos s n))
