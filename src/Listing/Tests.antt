-- ===== src/Listing/Tests.antt =====
-- Tests of listings, and the theorems at concrete inputs.
use reverse_auction.Common.{
  true, false, ◌&&◌, ◌≡◌, refl, Option, none, some, List, [], ◌∷◌, String, str_eq, lower, ℤ, pos,
  if◌then◌else◌,
}
use reverse_auction.Slice.{forward}
use reverse_auction.Numeric.{trim}
use reverse_auction.Listing.{
  ListingStatus, submitted, changes_requested, approved, rejected, scheduled, Details, Listing,
  Answer, done, refused, create_listing, Payload, details, details_of, is_short, read_type,
  update_listing, resubmit_listing, lacks_price, is_editable, approve, request_changes, reject,
  is_explained, is_approved, is_reviewable, Call, updated, resubmitted, reviewed, scheduling,
  serve_all, event,
}
use reverse_auction.Listing.Chain.{IsWellKept, serve_all-IsWellKept, serve_all-final}
use reverse_auction.Listing.Pages.{
  Draft, Edit, save, body_of, Delivery, answered, lost_request, and_resubmit, Queue, set_feedback,
  set_start, set_end, review, schedule_auction, shows_review, shows_schedule, feedback_of, dates_of,
  is_empty, pending, operational_status, live, of_listing, view_link,
}
use reverse_auction.Listing.Offers.{is_done, review-shows_review}
use reverse_auction.Listing.Saving.{page, Ending, save-Ending}

abbrev payload_with : String → Payload
payload_with title = record {
  auction_type = "Forward";
  title = title;
  description = "A lathe of 1990";
  item_category = some "Machinery";
  item_condition = none;
  quantity = none;
  quantity_unit = none;
  starting_price = pos 10000;
  minimum_bid_step = pos 100;
  reserve_price = none;
  origin_address = some "Ulm";
  pickup_terms = none;
  availability_start = some "2026-01-02T00:00:00.000Z";
  availability_end = none;
  media_urls = "a.jpg" ∷ [];
}

abbrev lathe : Payload
lathe = payload_with "Lathe"

abbrev read : String → Option ℤ
read t = if str_eq t "2026-01-02T00:00:00.000Z" then some (pos 1767312000000) else none

abbrev to_iso : String → Option String
to_iso t = if str_eq t "2026-01-02" then some "2026-01-02T00:00:00.000Z" else none

abbrev lathe_details : Details
lathe_details = details lathe forward (some (pos 1767312000000)) none

details_of_test :
    (details_of read lathe ≡ done lathe_details)
    × (details_of read (payload_with "La") ≡ refused "Validation failed")
    × (details_of read (record lathe { starting_price = pos 0 })
        ≡ refused "Price and bid step must be greater than zero")
    × (details_of read (record lathe { auction_type = "DUTCH" })
        ≡ refused "auction_type must be FORWARD or REVERSE")
    × (details_of read (record lathe { availability_end = some "soon" })
        ≡ refused "Availability must be a valid ISO date")
unfolding details_of is_short lacks_price read_type lower
details_of_test = (refl, refl, refl, refl, refl)

abbrev draft_of : String → Draft
draft_of start = record {
  auction_type = forward;
  title = "Lathe";
  description = "A lathe of 1990";
  item_category = some "Machinery";
  item_condition = none;
  quantity = none;
  quantity_unit = none;
  starting_price = pos 10000;
  minimum_bid_step = pos 100;
  reserve_price = none;
  origin_address = some "Ulm";
  pickup_terms = none;
  availability_start = some start;
  availability_end = some "";
  media_urls = some "a.jpg" ∷ none ∷ some "" ∷ [];
}

abbrev listing : ListingStatus → Listing
listing s = record {
  seller_id = "s1";
  status = s;
  details = lathe_details;
  admin_feedback = some "More pictures";
  reviewed_by = some "b1";
  auction_id = none;
  history = [];
}

abbrev new_listing : Listing
new_listing = record {
  seller_id = "s1";
  status = submitted;
  details = lathe_details;
  admin_feedback = none;
  reviewed_by = none;
  auction_id = none;
  history = event none submitted "s1" (some "Listing submitted") ∷ [];
}

new_listing_done : create_listing read "s1" lathe ≡ done new_listing
unfolding create_listing details_of is_short lacks_price read_type lower
new_listing_done = refl

abbrev calls : List Call
calls =
    reviewed "b1" request_changes (some "More pictures")
    ∷ updated "s1" lathe
    ∷ resubmitted "s1"
    ∷ reviewed "b1" approve none
    ∷ scheduling "b1" (done "a1")
    ∷ resubmitted "s1"
    ∷ []

calls_test :
    ((serve_all read calls new_listing).status ≡ scheduled)
    × ((serve_all read calls new_listing).auction_id ≡ some "a1")
    × ((serve_all read (reviewed "b1" reject (some " ") ∷ []) new_listing).status ≡ submitted)
unfolding serve_all details_of is_short lacks_price read_type lower is_editable is_explained trim
calls_test = (refl, refl, refl)

abbrev saved : Delivery → List Call → String → Listing × Edit
unfolding save
saved second between start =
    save read to_iso true "s1" answered second between
      (page read to_iso "s1" second between changes_requested (draft_of start) ""
        (listing changes_requested))
      (listing changes_requested)

-- The administrator approves the listing between the two requests: the form is stored only.
abbrev approving : List Call
approving = reviewed "b1" approve none ∷ []

save_test :
    ((saved answered [] "2026-01-02").0.status ≡ submitted)
    × ((saved answered [] "2026-01-02").1.location ≡ some "/seller/dashboard")
    × ((saved answered [] "2026-01-02").0.details ≡ lathe_details)
    × ((saved answered approving "2026-01-02").0.status ≡ approved)
    × ((saved answered approving "2026-01-02").0.details ≡ lathe_details)
    × ((saved answered approving "2026-01-02").1.error
        ≡ "Only drafts or change-requested listings can be resubmitted")
    × ((saved (lost_request "Failed to fetch") [] "2026-01-02").0.status ≡ changes_requested)
    × ((saved answered [] "soon").1.error ≡ "Invalid time value")
unfolding save body_of update_listing and_resubmit serve_all resubmit_listing details_of is_short
    lacks_price read_type lower is_editable is_reviewable is_explained
save_test = (refl, refl, refl, refl, refl, refl, refl, refl)

abbrev queue : Queue
queue = record { feedback = ("l1", "Too dark") ∷ []; schedule = ("l1", ("T1", "T2")) ∷ [] }

queue_test :
    (set_end "l1" "T2" (
        set_start "l1" "T1"
          (set_feedback "l1" "Too dark" (record { feedback = []; schedule = [] })))
      ≡ queue)
    × (schedule_auction (λ t. none) (λ s e. done "a1") "b1" "l2" queue (listing approved)
        ≡ refused "Choose the auction start and end times")
unfolding set_end set_start set_feedback schedule_auction
queue_test = (refl, refl)

row_test :
    (pending (listing submitted ∷ listing approved ∷ []) ≡ 1)
    × (operational_status (pos 20) scheduled (some (pos 10, pos 20)) ≡ live)
    × (operational_status (pos 20) submitted none ≡ of_listing submitted)
    × (view_link (pos 21) scheduled ("a1", (pos 10, pos 20)) ≡ ("/auction/bidinfo/", "a1"))
unfolding pending operational_status view_link
row_test = (refl, refl, refl, refl)

serve_all-IsWellKept_example : IsWellKept (serve_all read calls new_listing)
serve_all-IsWellKept_example =
    serve_all-IsWellKept read "s1" lathe calls new_listing new_listing_done

serve_all-final_test : serve_all read calls (listing rejected) ≡ listing rejected
unfolding is_editable is_reviewable is_approved
serve_all-final_test = serve_all-final read calls (listing rejected) (refl, refl, refl)

review-shows_review_example :
    (is_done (review "b1" "l1" reject queue (listing submitted))
      ≡ (shows_review submitted && is_explained reject (feedback_of "l1" queue)))
    × ((read_time : String → Option ℤ) (create : ℤ → ℤ → Answer String) (start end : ℤ)
          (auction : String)
        → is_empty (dates_of "l1" queue).0 ≡ false
        → is_empty (dates_of "l1" queue).1 ≡ false
        → read_time (dates_of "l1" queue).0 ≡ some start
        → read_time (dates_of "l1" queue).1 ≡ some end
        → create start end ≡ done auction
        → is_done (schedule_auction read_time create "b1" "l1" queue (listing submitted))
          ≡ shows_schedule submitted)
review-shows_review_example = review-shows_review "b1" "l1" reject queue (listing submitted)

save-Ending_example :
    Ending read to_iso "s1" answered approving changes_requested
      (draft_of "2026-01-02")
      ""
      (listing changes_requested)
      true
      answered
      (save read to_iso true "s1" answered answered approving
        (page read to_iso "s1" answered approving changes_requested
          (draft_of "2026-01-02")
          ""
          (listing changes_requested))
        (listing changes_requested))
save-Ending_example =
    save-Ending read to_iso "s1" answered approving changes_requested (draft_of "2026-01-02") ""
      (listing changes_requested) true answered
