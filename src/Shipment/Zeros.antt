-- ===== src/Shipment/Zeros.antt =====
-- The leading zeros of the number fields of NewShipmentForm.tsx.
use Prim.Native.Char.{Char, code}
use Prim.Native.String.{String, [], ◌∷◌}
use reverse_auction.Common.{
  ℕ, suc, ◌+◌, ◌*◌, ◌-◌, ◌≡◌, refl, sym, ap, ◌∙◌, inl, inr, Bool, true, false, arith, ◌==◌, ◌&&◌,
  Bool-cases,
}
use reverse_auction.Numeric.{
  to_number, literal, trim, trim_start, trim_end, digits, after_whole, after_fraction, fraction,
  is_digit, is_space,
}
use reverse_auction.Numeric.RoundTrip.{literal_front}
use reverse_auction.Shipment.{strip_zeros, starts_digit}

after_fraction-suc :
    (n : ℕ) (r : ℕ × ℕ × String) → after_fraction (suc n) r ≡ after_fraction (suc (suc n)) r
after_fraction-suc n (m, k, rest) = ground arith

-- How many digits there are does not matter once there is one.
count_free :
    (s : String) (v n : ℕ)
    → after_whole (digits v (suc n) s) ≡ after_whole (digits v (suc (suc n)) s)
unfolding digits
count_free [] v n = after_fraction-suc n (fraction v [])
count_free (c ∷ s) v n = elim (Bool-cases (is_digit c)) [
  | inl digit ↦ rw digit (count_free s (v * 10 + (code c - 48)) (suc n))
  | inr other ↦ rw other (after_fraction-suc n (fraction v (c ∷ s)))
]

digits_digit :
    (v n : ℕ) (c : Char) (s : String)
    → is_digit c ≡ true
    → digits v n (c ∷ s) ≡ digits (v * 10 + (code c - 48)) (suc n) s
unfolding digits
digits_digit v n c s h = rw h

-- One zero in front of a digit.
literal_zero :
    (c d : Char) (s : String)
    → (code c == b'0') ≡ true
    → is_digit d ≡ true
    → literal (c ∷ d ∷ s) ≡ literal (d ∷ s)
literal_zero c d s z g =
    literal_front c (d ∷ s) (ground (arith, z)) (ground (arith, z))
    ∙ dropped
    ∙ sym (literal_front d s (ground (arith, g)) (ground (arith, g)))
  where
    zero_value : 0 * 10 + (code c - 48) ≡ 0
    zero_value = ground (arith, z)

    zero_digit : is_digit c ≡ true
    zero_digit = ground (arith, z)

    dropped : after_whole (digits 0 0 (c ∷ d ∷ s)) ≡ after_whole (digits 0 0 (d ∷ s))
    dropped =
        ap after_whole (
          digits_digit 0 0 c (d ∷ s) zero_digit
          ∙ ap (λ (v : ℕ). digits v 1 (d ∷ s)) zero_value
          ∙ digits_digit 0 1 d s g)
        ∙ sym (count_free s (0 * 10 + (code d - 48)) 0)
        ∙ ap after_whole (sym (digits_digit 0 0 d s g))

trim_digit : (c : Char) (s : String) → is_space c ≡ false → trim (c ∷ s) ≡ c ∷ trim_end s
unfolding trim trim_start trim_end
trim_digit c s h = ap trim_end (starts c s h) ∙ kept c s h
  where
    starts : (c : Char) (s : String) → is_space c ≡ false → trim_start (c ∷ s) ≡ c ∷ s
    starts c s h = rw h refl

    kept : (c : Char) (s : String) → is_space c ≡ false → trim_end (c ∷ s) ≡ c ∷ trim_end s
    kept c s h = rw h refl

trim_end_digit : (c : Char) (s : String) → is_space c ≡ false → trim_end (c ∷ s) ≡ c ∷ trim_end s
unfolding trim_end
trim_end_digit c s h = rw h

to_number_zero :
    (c : Char) (s : String)
    → (code c == b'0') ≡ true
    → starts_digit s ≡ true
    → to_number (c ∷ s) ≡ to_number s
unfolding to_number
to_number_zero c [] z g = cc
to_number_zero c (d ∷ s) z g =
    let ink_c : is_space c ≡ false = ground (arith, z) in
    let ink_d : is_space d ≡ false = ground (arith, g) in
    ap literal (trim_digit c (d ∷ s) ink_c ∙ ap (λ t. c ∷ t) (trim_end_digit d s ink_d))
    ∙ literal_zero c d (trim_end s) z g
    ∙ ap literal (sym (trim_digit d s ink_d))

-- Cutting the leading zeros off a number field leaves the number that the field reads, for every
-- text, and the text then has no zero in front of a digit.
pub to_number-strip_zeros :
    (s : String)
    → (to_number (strip_zeros s) ≡ to_number s) × (strip_zeros (strip_zeros s) ≡ strip_zeros s)
unfolding strip_zeros
to_number-strip_zeros [] = (refl, refl)
to_number-strip_zeros (c ∷ s) = elim (Bool-cases (code c == b'0' && starts_digit s)) [
  | inl cut ↦
      let (z, g) = both (code c == b'0') (starts_digit s) cut in
      let (number, done) = to_number-strip_zeros s in
      rw cut (number ∙ sym (to_number_zero c s z g), done)
  | inr kept ↦ rw kept (refl, rw kept refl)
]
  where
    both : (a b : Bool) → (a && b) ≡ true → (a ≡ true) × (b ≡ true)
    both a b e = ground arith
