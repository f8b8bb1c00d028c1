-- ===== src/Guard/Flag.antt =====
-- The flag of an instance, once it is set
-- (apps/web/hooks/useConcurrencyGuard.ts).
use reverse_auction.Common.{ℕ, ◌==◌, true, false, ◌≡◌, List, [], ◌∷◌, String, All, arith, ◌∙◌}
use reverse_auction.Guard.{
  Message, ping, pong, Tabs, unmounted, update, post_message, handle_message, deliver_from, deliver,
  opened, run_effect, Event, mount, change, unmount, deliver_next, step, run,
}

-- An event that does not start the hook of tab `k` anew.
abbrev pub Keeps : ℕ → Event → Type 0
Keeps k (mount j auction id) = (k == j) ≡ false
Keeps k (unmount j) = (k == j) ≡ false
Keeps k _ = Unit

post_message-has_conflict :
    (m : Message) (j : ℕ) (tabs : Tabs) (k : ℕ)
    → (post_message m j tabs k).has_conflict ≡ (tabs k).has_conflict
unfolding post_message
post_message-has_conflict m j tabs k = ground arith

run_effect-has_conflict :
    (j : ℕ) (auction id : String) (tabs : Tabs) (k : ℕ)
    → (run_effect j auction id tabs k).has_conflict ≡ (tabs k).has_conflict
unfolding run_effect
run_effect-has_conflict j auction id tabs k =
    ground
      (arith, post_message-has_conflict (ping id) j (update j (opened (tabs j) auction id) tabs) k)

deliver_from-has_conflict :
    (ms : List Message) (j : ℕ) (tabs : Tabs) (k : ℕ)
    → (tabs k).has_conflict ≡ true
    → (deliver_from ms j tabs k).has_conflict ≡ true
unfolding handle_message
deliver_from-has_conflict [] j tabs k h = h
deliver_from-has_conflict (ping s ∷ rest) j tabs k h = ground (
  arith,
  post_message-has_conflict (pong (tabs j).instance_id) j
      (update j (record (tabs j) { has_conflict = true; inbox = rest }) tabs) k,
)
deliver_from-has_conflict (pong s ∷ rest) j tabs k h = ground arith

step-has_conflict :
    (e : Event) (tabs : Tabs) (k : ℕ)
    → Keeps k e
    → (tabs k).has_conflict ≡ true
    → (step e tabs k).has_conflict ≡ true
unfolding step deliver
step-has_conflict (mount j auction id) tabs k n h =
    run_effect-has_conflict j auction id (update j unmounted tabs) k ∙ rw n h
step-has_conflict (change j auction id) tabs k n h = run_effect-has_conflict j auction id tabs k ∙ h
step-has_conflict (unmount j) tabs k n h = rw n h
step-has_conflict (deliver_next j) tabs k n h = deliver_from-has_conflict (tabs j).inbox j tabs k h

-- Once the hook of a tab shows the conflict, it shows it for as long as the tab does not reload or
-- close, whatever else happens: also when every other tab closes, and when the hook's auction changes.
pub run-has_conflict :
    (events : List Event) (tabs : Tabs) (k : ℕ)
    → All (Keeps k) events
    → (tabs k).has_conflict ≡ true
    → (run events tabs k).has_conflict ≡ true
unfolding run
run-has_conflict [] tabs k n h = h
run-has_conflict (e ∷ events) tabs k n h =
    run-has_conflict events (step e tabs) k n.1 (step-has_conflict e tabs k n.0 h)
