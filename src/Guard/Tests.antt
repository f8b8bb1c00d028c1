-- ===== src/Guard/Tests.antt =====
-- Tests of the guard against duplicate tabs, and the theorems at concrete inputs.
use reverse_auction.Common.{ℕ, zero, suc, ◌*◌, ◌≤◌, true, false, ◌≡◌, refl, [], ◌∷◌, arith, length}
use reverse_auction.Guard.{
  ping, pong, Tabs, no_tabs, mount, change, unmount, deliver_next, step, run, run_effect, deliver,
  post_message, handle_message,
}
use reverse_auction.Guard.Detection.{Reach, start, later, IsNewId, Reach-warns}
use reverse_auction.Guard.Flag.{run-has_conflict}
use reverse_auction.Guard.Alone.{run-alone}
use reverse_auction.Guard.Settling.{IsWithin, mail, Pending, deliveries-le}

abbrev one_tab : Tabs
one_tab = step (mount 0 "a1" "k3x") no_tabs

abbrev two_tabs : Tabs
two_tabs = step (mount 1 "a1" "p9w") one_tab

abbrev settled : Tabs
settled = step (deliver_next 1) (step (deliver_next 0) two_tabs)

second_id : IsNewId 1 "p9w" one_tab
unfolding step run_effect post_message
second_id zero n o = refl
second_id (suc j) n o = ground arith

settled_reach : Reach settled
settled_reach =
    later (deliver_next 1)
      (later (deliver_next 0)
        (later (mount 1 "a1" "p9w") (later (mount 0 "a1" "k3x") start (λ j n o. cc)) second_id) tt)
      tt

-- The first tab answers the second, and only then does the second know.
two_tabs_test :
    ((two_tabs 0).inbox ≡ ping "p9w" ∷ [])
    × ((two_tabs 1).inbox ≡ [])
    × ((step (deliver_next 0) two_tabs 1).inbox ≡ pong "k3x" ∷ [])
    × ((step (deliver_next 0) two_tabs 1).has_conflict ≡ false)
unfolding step run_effect post_message deliver handle_message
two_tabs_test = (refl, refl, refl, refl)

Reach-warns_example : ((settled 0).has_conflict ≡ true) × ((settled 1).has_conflict ≡ true)
unfolding step run_effect post_message deliver handle_message
Reach-warns_example = Reach-warns 0 1 settled_reach (omega arith) (refl, refl, refl) refl refl

-- The second tab closes and the first moves on to an auction of its own: the flag stays.
run-has_conflict_test : (run (unmount 1 ∷ change 0 "a2" "q7z" ∷ []) settled 0).has_conflict ≡ true
unfolding step run_effect post_message deliver handle_message
run-has_conflict_test =
    run-has_conflict (unmount 1 ∷ change 0 "a2" "q7z" ∷ []) settled 0 (refl, (tt, tt)) refl

run-alone_test :
    (run (mount 0 "a1" "k3x" ∷ mount 1 "a2" "p9w" ∷ deliver_next 0 ∷ []) no_tabs 0).has_conflict
    ≡ false
run-alone_test =
    run-alone 0 "a1" (mount 0 "a1" "k3x" ∷ mount 1 "a2" "p9w" ∷ deliver_next 0 ∷ []) refl
      (refl, (refl, (tt, tt)))

two_tabs-IsWithin : IsWithin 2 two_tabs
unfolding step run_effect post_message
two_tabs-IsWithin = record { shut = λ j h. ground arith; empty = λ j h. ground arith }

two_tabs-Pending : Pending (0 ∷ 1 ∷ []) two_tabs
unfolding step run_effect post_message deliver handle_message
two_tabs-Pending = (λ e. cc, (λ e. cc, tt))

deliveries-le_example : length {A = ℕ} (0 ∷ 1 ∷ []) ≤ 2 * mail 2 two_tabs
deliveries-le_example =
    deliveries-le (0 ∷ 1 ∷ []) 2 two_tabs (omega arith) two_tabs-IsWithin two_tabs-Pending
