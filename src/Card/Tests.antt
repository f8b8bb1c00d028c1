-- ===== src/Card/Tests.antt =====
-- Runs of the auction card, and the theorems at concrete schedules.
use reverse_auction.Common.{◌≡◌, ◌≢◌, ◌↔◌, refl, true, false, some, pos, ◌-ℤ◌, ◌+ℤ◌, show_ℕ, arith}
use reverse_auction.RoomPage
use reverse_auction.RoomPage.{can_register}
use reverse_auction.Card.{
  Times, join_live, register, unregister, registration_closed, schedule, phase_of, display_time,
  format_countdown,
}
use reverse_auction.Card.Actions.{
  schedule-ne-join_live, schedule-register_iff, of_card, phase_of_iff,
}

abbrev soon : Times
soon = record { start = some (pos 400000); end = some (pos 900000) }

schedule_test :
    ((schedule soon false (pos 50000)).action_text ≡ register)
    × ((schedule soon true (pos 50000)).action_text ≡ unregister)
    × ((schedule soon false (pos 150000)).action_text ≡ registration_closed)
unfolding schedule ◌-ℤ◌ ◌+ℤ◌
schedule_test = (refl, refl, refl)

texts_test :
    (format_countdown (pos 93784000) ≡ "1d 02:03:04")
    × (display_time (pos 93784000) ≡ "1d 2h 3m")
    × (display_time (pos 0) ≡ "")
unfolding format_countdown display_time show_ℕ
texts_test = (refl, refl, refl)

schedule-ne-join_live_test : (schedule soon false (pos 450000)).action_text ≢ join_live
schedule-ne-join_live_test = schedule-ne-join_live soon false (pos 450000)

nonzero : pos 50000 ≢ pos 0
nonzero e = cc

schedule-register_iff_example :
    ((schedule soon false (pos 50000)).action_text ≡ register)
    ↔ ((false ≡ false) × (can_register (pos 50000) (pos 400000) (pos 900000) ≡ true))
schedule-register_iff_example =
    schedule-register_iff (pos 400000) (pos 900000) (pos 50000) (omega arith) false nonzero

phase_of_iff_test :
    (of_card (phase_of soon (pos 900000))
      ≡ RoomPage.phase_of (pos 900000) (pos 400000) (pos 900000))
    ↔ (pos 900000 ≢ pos 900000)
phase_of_iff_test = phase_of_iff (pos 400000) (pos 900000) (pos 900000) (omega arith)
