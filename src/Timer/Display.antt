-- ===== src/Timer/Display.antt =====
-- The parts into which CountdownTimer.tsx takes the time left.
use reverse_auction.Common.{◌≡◌, ◌↔◌, ◌≤◌, ◌<◌, ◌+◌, ◌*◌, ℤ, true, arith, pos_part}
use reverse_auction.Slice.{AuctionStatus, active}
use reverse_auction.Timer.{countdown}

-- The four parts add up to the time left (0 if it is negative), minutes and seconds stay below 60
-- and milliseconds below 1000, and the display is urgent exactly when the auction is active and the
-- last twenty seconds run.
pub countdown_parts :
    (status : AuctionStatus) (left : ℤ)
    → let c = countdown status left in
      (c.hours * 3600000 + c.minutes * 60000 + c.seconds * 1000 + c.milliseconds ≡ pos_part left)
      × (c.minutes < 60)
      × (c.seconds < 60)
      × (c.milliseconds < 1000)
      × ((c.is_urgent ≡ true) ↔ ((status ≡ active) × (0 < pos_part left) × (pos_part left ≤ 20000)))
unfolding countdown
countdown_parts status left = (omega arith, omega arith, omega arith, omega arith, ground arith)
