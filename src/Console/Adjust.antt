-- ===== src/Console/Adjust.antt =====
-- The plus and minus buttons of BiddingConsole.tsx.
use reverse_auction.Common.{
  ◌≡◌, ap, ◌∙◌, String, ℤ, pos, ◌≤ℤ◌, ◌<ℤ◌, ◌+ℤ◌, ◌-ℤ◌, arith, max_ℤ, eq_of_parts, +ℤ_parts,
  -ℤ_parts,
}
use reverse_auction.Numeric.{fin, to_number, to_fixed}
use reverse_auction.Numeric.RoundTrip.{to_number-to_fixed}
use reverse_auction.Slice.{AuctionState}
use reverse_auction.Console.{Console, Direction, up, down, adjust, adjusted, base_amount, move}

module _ (s : AuctionState) where
  adjust-reads :
      (d : Direction) (c : Console) (base : ℤ)
      → base_amount c.bid_amount s ≡ fin base
      → to_number (adjust d s c).bid_amount ≡ fin (max_ℤ (pos 1) (move d base s.minimum_bid_step))
  unfolding adjust
  adjust-reads d c base e =
      ap (λ n. to_number (to_fixed (adjusted d s.minimum_bid_step n))) e ∙ to_number-to_fixed _

  base_amount_fin :
      (text : String) (a : ℤ) → to_number text ≡ fin a → pos 1 ≤ℤ a → base_amount text s ≡ fin a
  base_amount_fin text a e h = rw e (ground (arith, h))

  -- Where the field reads one cent or more, plus adds the step to what it reads, and minus then
  -- gives back the number that was there, for a step that is positive.
  pub adjust_up_down :
      (c : Console) (a : ℤ)
      → to_number c.bid_amount ≡ fin a
      → pos 1 ≤ℤ a
      → pos 0 <ℤ s.minimum_bid_step
      → (to_number (adjust up s c).bid_amount ≡ fin (a +ℤ s.minimum_bid_step))
        × (to_number (adjust down s (adjust up s c)).bid_amount ≡ fin a)
  adjust_up_down c a e h step =
      let more : max_ℤ (pos 1) (a +ℤ s.minimum_bid_step) ≡ a +ℤ s.minimum_bid_step =
        ground (arith, h, step, +ℤ_parts a s.minimum_bid_step) in
      let reads = adjust-reads up c a (base_amount_fin c.bid_amount a e h) ∙ ap fin more in
      let base =
        base_amount_fin (adjust up s c).bid_amount (a +ℤ s.minimum_bid_step) reads
          (omega (arith, h, step, +ℤ_parts a s.minimum_bid_step)) in
      let back : (a +ℤ s.minimum_bid_step) -ℤ s.minimum_bid_step ≡ a = eq_of_parts _ _ (
        omega (
          arith,
          +ℤ_parts a s.minimum_bid_step,
          -ℤ_parts (a +ℤ s.minimum_bid_step) s.minimum_bid_step,
        )) in
      let least : max_ℤ (pos 1) a ≡ a = ground (arith, h) in
      (
        reads,
        adjust-reads down (adjust up s c) (a +ℤ s.minimum_bid_step) base
            ∙ ap (λ n. fin (max_ℤ (pos 1) n)) back
            ∙ ap fin least,
      )
