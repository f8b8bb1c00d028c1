-- ===== src/Engine.antt =====
-- apps/auction-engine/src/types.rs: the rule by which the engine accepts a bid. Its amounts are
-- finite here, so of `is_finite` only the checks of sign are left.
use reverse_auction.Common.{Bool, ◌&&◌, ℤ, pos, ltb_ℤ, leb_ℤ, ◌+ℤ◌, ◌-ℤ◌}
use reverse_auction.Slice.{AuctionType, reverse, forward}

abbrev by_step : AuctionType → ℤ → ℤ → ℤ → Bool
by_step reverse amount price step = leb_ℤ amount (price -ℤ step)
by_step forward amount price step = leb_ℤ (price +ℤ step) amount

unfoldable pub is_better_bid : AuctionType → ℤ → ℤ → ℤ → Bool
is_better_bid t price amount step =
    ltb_ℤ (pos 0) amount && ltb_ℤ (pos 0) step && by_step t amount price step
