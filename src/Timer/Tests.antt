-- ===== src/Timer/Tests.antt =====
-- Runs of the worker and the display, and the theorems at concrete rooms.
use reverse_auction.Common.{
  ◌≡◌, ◌↔◌, refl, true, none, some, [], ◌∷◌, pos, pos_part, ◌+ℤ◌, ◌-ℤ◌, arith, ◌≤◌, ◌<◌, ◌+◌, ◌*◌,
  show_ℕ,
}
use reverse_auction.Slice.{
  AuctionState, waiting, active, ended, initial_state, update_auction_status,
}
use reverse_auction.Slice.Status.{InPhase}
use reverse_auction.Timer.{Room, countdown, tick, interval, run, run_effect}
use reverse_auction.Timer.Phases.{
  IsSynced, counting, interval-IsSynced, interval_counts, interval-InPhase,
}
use reverse_auction.Timer.Stuck.{run_stuck}
use reverse_auction.Timer.Display.{countdown_parts}

timers : Unit {0}
unfolding interval tick run run_effect initial_state update_auction_status ◌+ℤ◌ ◌-ℤ◌ countdown
    show_ℕ
timers = tt

abbrev live : AuctionState
live = record initial_state {
  start_time = some (pos 100);
  end_time = some (pos 900);
  auction_status = active;
}

abbrev room : Room
room = record { store = live; timer = record { time_left = pos 0; worker = some (counting live) } }

abbrev soon : AuctionState
soon = record live { auction_status = waiting }

abbrev lobby : Room
lobby = record { store = soon; timer = record { time_left = pos 0; worker = some (counting soon) } }

-- From waiting to active to ended, one millisecond past the end.
run_test :
    ((run ((pos 99, pos 99) ∷ []) lobby).store.auction_status ≡ waiting)
    × ((run ((pos 99, pos 99) ∷ (pos 100, pos 100) ∷ []) lobby).store.auction_status ≡ active)
    × ((run ((pos 100, pos 100) ∷ (pos 901, pos 901) ∷ []) lobby).store.auction_status ≡ ended)
    × ((run ((pos 100, pos 100) ∷ (pos 901, pos 901) ∷ []) lobby).timer.worker ≡ none)
unfolding timers
run_test = (refl, refl, refl, refl)

display_test : (countdown active (pos 3723004)).text ≡ "01:02:03.004"
unfolding timers
display_test = refl

interval-IsSynced_test : IsSynced (interval (pos 500) (pos 500) room)
unfolding timers
interval-IsSynced_test = interval-IsSynced (pos 500) (pos 500) room (refl, λ e. cc)

interval_counts_test :
    ((interval (pos 500) (pos 501) room).store ≡ live)
    × ((interval (pos 500) (pos 501) room).timer.worker ≡ some (counting live))
    × ((interval (pos 500) (pos 501) room).timer.time_left ≡ pos 900 -ℤ (pos 500 +ℤ live.time_skew))
unfolding timers
interval_counts_test = interval_counts (pos 500) (pos 501) (pos 900) room refl refl (omega arith)

interval-InPhase_test :
    ((interval (pos 902) (pos 903) room).store.auction_status ≡ ended)
    ↔ InPhase ended (pos 903 +ℤ live.time_skew) (pos 100) (pos 900)
unfolding timers
interval-InPhase_test =
    interval-InPhase (pos 902) (pos 903) (pos 900) room refl refl (pos 100) (pos 900) ended refl
      refl (omega arith)

run_stuck_example :
    (run ((pos 900, pos 900) ∷ (pos 5000, pos 5000) ∷ []) room).store.auction_status ≡ active
unfolding timers
run_stuck_example =
    run_stuck (pos 900) (pos 100) (pos 900) (pos 0) live ((pos 5000, pos 5000) ∷ []) refl refl refl
      (omega arith) refl

countdown_parts_test :
    let c = countdown active (pos 3723004) in
    (c.hours * 3600000 + c.minutes * 60000 + c.seconds * 1000 + c.milliseconds
      ≡ pos_part (pos 3723004))
    × (c.minutes < 60)
    × (c.seconds < 60)
    × (c.milliseconds < 1000)
    × ((c.is_urgent ≡ true)
        ↔ ((active ≡ active) × (0 < pos_part (pos 3723004)) × (pos_part (pos 3723004) ≤ 20000)))
countdown_parts_test = countdown_parts active (pos 3723004)
