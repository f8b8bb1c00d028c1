-- ===== src/RoomPage/Tests.antt =====
-- Runs of the page of an auction, and the theorems at concrete pages.
use reverse_auction.Common.{◌*◌, ◌≡◌, ◌↔◌, refl, true, false, some, [], ◌∷◌, pos, ◌-ℤ◌, ◌<ℤ◌, arith}
use reverse_auction.RoomPage.{
  Page, Listing, found, initial_page, post_join, refetch, membership_loaded, clock_ticked,
  leave_replied, join_replied, accepted, step, run, view, room, phase_of, can_register, socket_id,
}
use reverse_auction.RoomPage.Joining.{IsWaiting, leave-post_join, refusals, joins, run-refusals}
use reverse_auction.RoomPage.Views.{IsInRoom, view-room_iff, can_register_iff}

abbrev listing : Listing
listing = record { start = pos 400000; end = pos 900000; is_registered = true }

abbrev member : Page
member = record initial_page {
  membership = found (some listing);
  has_joined = true;
  now = pos 500000;
}

abbrev waiting : Page
waiting = record member { has_joined = false; join_pending = true }

enter_test :
    (run
      (membership_loaded (some listing) ∷ join_replied accepted ∷ clock_ticked (pos 500000) ∷ [])
      initial_page).1
    ≡ post_join ∷ refetch ∷ []
unfolding run step initial_page
enter_test = refl

room_test : (view member ≡ room) × (socket_id "a1" member ≡ "a1")
unfolding view phase_of socket_id initial_page
room_test = (refl, refl)

leave-post_join_example :
    ((step (leave_replied accepted) member).1 ≡ refetch ∷ post_join ∷ [])
    × IsWaiting (step (leave_replied accepted) member).0
unfolding initial_page
leave-post_join_example = leave-post_join member refl refl

waits : IsWaiting waiting
unfolding initial_page
waits = record { member = refl; outside = refl; pending = refl }

run-refusals_example :
    ((run (refusals (some "Registration is closed") 3) waiting).1 ≡ joins 3)
    × IsWaiting (run (refusals (some "Registration is closed") 3) waiting).0
run-refusals_example = run-refusals 3 (some "Registration is closed") waiting refl waits

view-room_iff_test : (view member ≡ room) ↔ IsInRoom member
view-room_iff_test = view-room_iff member

can_register_iff_test :
    (can_register (pos 50000) (pos 400000) (pos 900000) ≡ true)
    ↔ (pos 50000 <ℤ (pos 400000 -ℤ pos (5 * 60000)))
can_register_iff_test = can_register_iff (pos 50000) (pos 400000) (pos 900000) (omega arith)
