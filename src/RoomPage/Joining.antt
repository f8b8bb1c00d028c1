-- ===== src/RoomPage/Joining.antt =====
-- When page.tsx of an auction posts a request to join.
use reverse_auction.Common.{
  ℕ, zero, suc, ◌≡◌, refl, ap, ◌∙◌, true, false, Option, List, [], ◌∷◌, ◌++◌, String, str_eq,
  or_value,
}
use reverse_auction.Slice.{given_id}
use reverse_auction.RoomPage.{
  Page, Command, post_join, refetch, Event, leave_replied, join_replied, accepted, refused,
  registered, join_failed, already, step, run,
}

-- A page that waits for the answer to a request to join.
pub record IsWaiting (s : Page) : Type 0 where
  pub member : registered s.membership ≡ true
  pub outside : s.has_joined ≡ false
  pub pending : s.join_pending ≡ true

-- Once the server has let a registered user leave, the page asks at once to join again, before it
-- has the new membership, whatever else it shows.
pub leave-post_join :
    (s : Page)
    → registered s.membership ≡ true
    → s.join_pending ≡ false
    → ((step (leave_replied accepted) s).1 ≡ refetch ∷ post_join ∷ [])
      × IsWaiting (step (leave_replied accepted) s).0
unfolding step
leave-post_join s member idle =
    rw (member, idle) (refl, record { member = member; outside = refl; pending = refl })

refusal : Option String → String
refusal m = or_value (given_id m) "Failed to join auction"

join_failed-other :
    (m : String) (s : Page)
    → str_eq m already ≡ false
    → join_failed m s ≡ record s { join_error = m }
join_failed-other m s e = rw e

retry :
    (m : Option String) (s : Page)
    → str_eq (or_value (given_id m) "Failed to join auction") already ≡ false
    → IsWaiting s
    → ((step (join_replied (refused m)) s).1 ≡ post_join ∷ [])
      × IsWaiting (step (join_replied (refused m)) s).0
unfolding step
retry m s other w =
    rw (other, w.member, w.outside)
      (refl, record { member = w.member; outside = refl; pending = refl })

-- The same answer `n` times.
abbrev pub refusals : Option String → ℕ → List Event
refusals m zero = []
refusals m (suc n) = join_replied (refused m) ∷ refusals m n

abbrev pub joins : ℕ → List Command
joins zero = []
joins (suc n) = post_join ∷ joins n

-- While the server refuses to let a registered user join, for a reason other than that the user has
-- joined, every refusal is answered by one more request, without a delay and without an end.
pub run-refusals :
    (n : ℕ) (m : Option String) (s : Page)
    → str_eq (or_value (given_id m) "Failed to join auction") already ≡ false
    → IsWaiting s
    → ((run (refusals m n) s).1 ≡ joins n) × IsWaiting (run (refusals m n) s).0
unfolding run
run-refusals zero m s other w = (refl, w)
run-refusals (suc n) m s other w =
    let (one, waiting) = retry m s other w in
    let (rest, last) = run-refusals n m (step (join_replied (refused m)) s).0 other waiting in
    (
      ap (λ c. c ++ (run (refusals m n) (step (join_replied (refused m)) s).0).1) one
          ∙ ap (λ c. post_join ∷ c) rest,
      last,
    )
