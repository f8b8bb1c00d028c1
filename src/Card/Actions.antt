-- ===== src/Card/Actions.antt =====
-- What the button of ShippingAuctionCard.tsx offers, against the page of the auction.
use reverse_auction.Common.{
  ◌*◌, ◌≡◌, ◌≢◌, ◌↔◌, Bool, true, false, some, ℤ, pos, ◌<ℤ◌, arith, -ℤ_parts, eq_of_parts,
}
use reverse_auction.RoomPage
use reverse_auction.RoomPage.{can_register}
use reverse_auction.Card.{
  Times, start_of, join_live, register, schedule, Phase, completed, live, upcoming, phase_of,
}

-- Registration closes before the start, so the button never offers to join a live auction.
pub schedule-ne-join_live :
    (t : Times) (is_registered : Bool) (now : ℤ)
    → (schedule t is_registered now).action_text ≢ join_live
unfolding schedule
schedule-ne-join_live t is_registered now =
    ground (arith, -ℤ_parts (start_of t now) (pos (5 * 60000)))

abbrev pub times : ℤ → ℤ → Times
times start end = record { start = some start; end = some end }

-- A phase of the card as one of the page.
abbrev pub of_card : Phase → RoomPage.Phase
of_card completed = RoomPage.completed
of_card live = RoomPage.live
of_card upcoming = RoomPage.upcoming

module _ (start end now : ℤ) (window : start <ℤ end) where
  -- The card offers to register exactly to those who are not registered, while the page of the
  -- auction lets them register, for an auction that starts before it ends and once the clock runs.
  pub schedule-register_iff :
      (is_registered : Bool)
      → now ≢ pos 0
      → ((schedule (times start end) is_registered now).action_text ≡ register)
        ↔ ((is_registered ≡ false) × (can_register now start end ≡ true))
  unfolding schedule can_register RoomPage.phase_of
  schedule-register_iff is_registered running =
      ground (arith, window, running, -ℤ_parts start (pos (5 * 60000)), eq_of_parts now (pos 0))

  -- The card and the page of the auction agree on its phase at every moment but the very end, which
  -- the card still calls live and the page completed.
  pub phase_of_iff :
      (of_card (phase_of (times start end) now) ≡ RoomPage.phase_of now start end) ↔ (now ≢ end)
  unfolding phase_of RoomPage.phase_of
  phase_of_iff = ground (arith, window, eq_of_parts now end)
