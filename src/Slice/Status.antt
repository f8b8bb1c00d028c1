-- ===== src/Slice/Status.antt =====
-- The phase of the auction that auctionSlice.ts derives from the clock.
use reverse_auction.Common.{ℕ, ◌≡◌, ◌↔◌, ◌⊎◌, ◌≤◌, none, some, ℤ, ◌≤ℤ◌, ◌<ℤ◌, ◌+ℤ◌, arith, +ℤ_parts}
use reverse_auction.Slice.{
  AuctionState, AuctionStatus, waiting, active, ended, InitPayload, status_at, init_auction,
  update_auction_status, truthy,
}

-- What a phase says of the corrected time.
abbrev pub InPhase : AuctionStatus → ℤ → ℤ → ℤ → Type 0
InPhase waiting now start end = (now <ℤ start) × (now ≤ℤ end)
InPhase active now start end = (start ≤ℤ now) × (now ≤ℤ end)
InPhase ended now start end = end <ℤ now

status_at-InPhase : (now start end : ℤ) → InPhase (status_at now start end) now start end
status_at-InPhase now start end = ground arith

InPhase-status_at :
    (a : AuctionStatus) (now start end : ℤ) → InPhase a now start end → status_at now start end ≡ a
InPhase-status_at waiting now start end h = ground arith
InPhase-status_at active now start end h = ground arith
InPhase-status_at ended now start end h = ground arith

status_at_iff :
    (a : AuctionStatus) (now start end : ℤ)
    → (status_at now start end ≡ a) ↔ InPhase a now start end
status_at_iff a now start end =
    (λ e. rw e at (status_at-InPhase now start end), InPhase-status_at a now start end)

-- `initAuction` leaves the room in phase `a` exactly when the corrected time lies in that phase of
-- the announced window.
pub init_auction-InPhase :
    (now : ℤ) (p : InitPayload) (s : AuctionState) (a : AuctionStatus)
    → ((init_auction now p s).auction_status ≡ a)
      ↔ InPhase a (now +ℤ s.time_skew) p.start_time p.end_time
unfolding init_auction
init_auction-InPhase now p s a = status_at_iff a (now +ℤ s.time_skew) p.start_time p.end_time

-- With both times set and not zero, `updateAuctionStatus` leaves the room in phase `a` exactly when
-- the corrected time lies in that phase.
pub update_auction_status-InPhase :
    (now : ℤ) (s : AuctionState) (a : AuctionStatus) (start end : ℤ)
    → truthy s.start_time ≡ some start
    → truthy s.end_time ≡ some end
    → ((update_auction_status now s).auction_status ≡ a) ↔ InPhase a (now +ℤ s.time_skew) start end
unfolding update_auction_status
update_auction_status-InPhase now s a start end p q =
    rw (p, q) (status_at_iff a (now +ℤ s.time_skew) start end)

-- With a time that is missing or zero `updateAuctionStatus` changes nothing.
pub update_auction_status_unset :
    (now : ℤ) (s : AuctionState)
    → (truthy s.start_time ≡ none) ⊎ (truthy s.end_time ≡ none)
    → update_auction_status now s ≡ s
unfolding update_auction_status
update_auction_status_unset now s h = ground arith

abbrev pub rank : AuctionStatus → ℕ
rank waiting = 0
rank active = 1
rank ended = 2

status_at_mono :
    (t u start end : ℤ)
    → start ≤ℤ end
    → t ≤ℤ u
    → rank (status_at t start end) ≤ rank (status_at u start end)
status_at_mono t u start end h k = ground arith

-- As the clock moves on, the phase that `updateAuctionStatus` computes never goes back from active
-- to waiting or from ended to either, if the window starts before it ends.
pub update_auction_status_mono :
    (now later : ℤ) (s : AuctionState) (start end : ℤ)
    → s.start_time ≡ some start
    → s.end_time ≡ some end
    → start ≤ℤ end
    → now ≤ℤ later
    → rank (update_auction_status now s).auction_status
      ≤ rank (update_auction_status later s).auction_status
unfolding update_auction_status
update_auction_status_mono now later s start end p q h k =
    rw (p, q)
      (ground (
        arith,
        status_at_mono (now +ℤ s.time_skew) (later +ℤ s.time_skew) start end h,
        +ℤ_parts now s.time_skew,
        +ℤ_parts later s.time_skew,
      ))
