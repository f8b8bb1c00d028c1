-- ===== src/Listing.antt =====
-- The life of a seller's listing: the services of apps/http-server/src/services/listing.rs that the
-- pages of sellers and administrators call, and the pages themselves in Listing/Pages. The times of a
-- row and failures of the database are left out.
pub mod Pages
pub mod Chain
pub mod Offers
pub mod Readings
pub mod Accepted
pub mod Saving
pub mod Schedule
pub mod New
pub mod Described
pub mod Submission
mod Tests
use reverse_auction.Common.{
  ltb, map, lower, Bool, true, false, not, ◌&&◌, ◌||◌, Option, none, some, List, [], ◌∷◌, String,
  str_eq, ℤ, pos, leb_ℤ, or_value, if◌then◌else◌,
}
use reverse_auction.Numeric.{trim}
use Prim.Native.String.{count}
use reverse_auction.Slice.{AuctionType, forward, reverse}

-- `ListingStatus`
pub data ListingStatus : Type 0 where
  draft submitted under_review changes_requested approved rejected scheduled cancelled :
      ListingStatus

-- `CreateListingPayload`: the body of a request that makes or changes a listing. Money is in cents.
pub record Payload : Type 0 where
  pub title : String
  pub description : String
  pub auction_type : String
  pub item_category : Option String
  pub item_condition : Option String
  pub quantity : Option ℤ
  pub quantity_unit : Option String
  pub starting_price : ℤ
  pub minimum_bid_step : ℤ
  pub reserve_price : Option ℤ
  pub origin_address : Option String
  pub pickup_terms : Option String
  pub availability_start : Option String
  pub availability_end : Option String
  pub media_urls : List String

-- What a row holds of it; a time is an instant.
pub record Details : Type 0 where
  pub auction_type : AuctionType
  pub title : String
  pub description : String
  pub item_category : Option String
  pub item_condition : Option String
  pub quantity : Option ℤ
  pub quantity_unit : Option String
  pub starting_price : ℤ
  pub minimum_bid_step : ℤ
  pub reserve_price : Option ℤ
  pub origin_address : Option String
  pub pickup_terms : Option String
  pub availability_start : Option ℤ
  pub availability_end : Option ℤ
  pub media_urls : List (Option String)

-- A row of `auction_listing_status_history`, but for its ids and time.
pub record HistoryEvent : Type 0 where
  pub from_status : Option ListingStatus
  pub to_status : ListingStatus
  pub actor_id : Option String
  pub note : Option String

-- A row of `auction_listings` with its history, the latest event first.
pub record Listing : Type 0 where
  pub seller_id : String
  pub status : ListingStatus
  pub details : Details
  pub admin_feedback : Option String
  pub reviewed_by : Option String
  pub auction_id : Option String
  pub history : List HistoryEvent

pub data Answer (A : Type 0) : Type 0 where
  done : A → Answer A
  refused : String → Answer A

-- `insert_history`
abbrev pub event : Option ListingStatus → ListingStatus → String → Option String → HistoryEvent
event from to actor note = record {
  from_status = from;
  to_status = to;
  actor_id = some actor;
  note = note;
}

-- The `garde` rules of the payload, for texts of ASCII; the report of what fails is left out.
unfoldable pub is_short : Payload → Bool
is_short q = ltb (count q.title) 3 || ltb (count q.description) 10

unfoldable pub lacks_price : Payload → Bool
lacks_price q = leb_ℤ q.starting_price (pos 0) || leb_ℤ q.minimum_bid_step (pos 0)

-- The type of the auction, in letters of either case
unfoldable pub read_type : String → Option AuctionType
unfolding lower
read_type t =
    if str_eq (lower t) "forward"
    then some forward
    else if str_eq (lower t) "reverse"
    then some reverse
    else none

-- `parse_time`; `read` is chrono's reading of a time in UTC.
abbrev pub parse_time : (String → Option ℤ) → Option String → Answer (Option ℤ)
parse_time read none = done none
parse_time read (some t) = elim (read t) [
  | none ↦ refused "Availability must be a valid ISO date"
  | some a ↦ done (some a)
]

abbrev pub details : Payload → AuctionType → Option ℤ → Option ℤ → Details
details q t start end = record {
  auction_type = t;
  title = q.title;
  description = q.description;
  item_category = q.item_category;
  item_condition = q.item_condition;
  quantity = q.quantity;
  quantity_unit = q.quantity_unit;
  starting_price = q.starting_price;
  minimum_bid_step = q.minimum_bid_step;
  reserve_price = q.reserve_price;
  origin_address = q.origin_address;
  pickup_terms = q.pickup_terms;
  availability_start = start;
  availability_end = end;
  media_urls = map some q.media_urls;
}

abbrev pub timed : Payload → AuctionType → Answer (Option ℤ) → Answer (Option ℤ) → Answer Details
timed q t (done start) (done end) = done (details q t start end)
timed q t (done start) (refused e) = refused e
timed q t (refused e) end = refused e

abbrev pub typed : (String → Option ℤ) → Payload → Option AuctionType → Answer Details
typed read q none = refused "auction_type must be FORWARD or REVERSE"
typed read q (some t) =
    timed q t (parse_time read q.availability_start) (parse_time read q.availability_end)

-- What both services make of a payload before they write, with the validation of the controller.
unfoldable pub details_of : (String → Option ℤ) → Payload → Answer Details
unfolding is_short lacks_price read_type
details_of read q =
    if is_short q
    then refused "Validation failed"
    else if lacks_price q
    then refused "Price and bid step must be greater than zero"
    else typed read q (read_type q.auction_type)

abbrev pub row : String → Details → Listing
row seller d = record {
  seller_id = seller;
  status = submitted;
  details = d;
  admin_feedback = none;
  reviewed_by = none;
  auction_id = none;
  history = event none submitted seller (some "Listing submitted") ∷ [];
}

abbrev pub inserted : String → Answer Details → Answer Listing
inserted seller (done d) = done (row seller d)
inserted seller (refused e) = refused e

unfoldable pub create_listing : (String → Option ℤ) → String → Payload → Answer Listing
unfolding details_of
create_listing read seller q = inserted seller (details_of read q)

-- `status.eq_any(["DRAFT", "CHANGES_REQUESTED"])`
unfoldable pub is_editable : ListingStatus → Bool
is_editable draft = true
is_editable changes_requested = true
is_editable _ = false

abbrev pub may_edit : String → Listing → Bool
unfolding is_editable
may_edit seller l = str_eq l.seller_id seller && is_editable l.status

abbrev pub store : String → Details → Listing → Listing
store seller d l = record l {
  details = d;
  history = event (some l.status) l.status seller (some "Listing details updated") ∷ l.history;
}

abbrev pub written : String → Listing → Answer Details → (may : Bool) → Answer Listing
written seller l (refused e) may = refused e
written seller l (done d) true = done (store seller d l)
written seller l (done d) false =
    refused "Only your drafts or change-requested listings can be edited"

unfoldable pub update_listing : (String → Option ℤ) → String → Payload → Listing → Answer Listing
unfolding details_of is_editable
update_listing read seller q l =
    written seller l (details_of read q) (str_eq l.seller_id seller && is_editable l.status)

unfoldable pub resubmit_listing : String → Listing → Answer Listing
resubmit_listing seller l =
    if may_edit seller l
    then done (record l {
      status = submitted;
      admin_feedback = none;
      history =
          event (some changes_requested) submitted seller (some "Listing resubmitted") ∷ l.history;
    })
    else refused "Only drafts or change-requested listings can be resubmitted"

pub data Decision : Type 0 where
  approve request_changes reject : Decision

abbrev pub status_of : Decision → ListingStatus
status_of approve = approved
status_of request_changes = changes_requested
status_of reject = rejected

unfoldable pub is_reviewable : ListingStatus → Bool
is_reviewable submitted = true
is_reviewable under_review = true
is_reviewable changes_requested = true
is_reviewable _ = false

-- Whether the server lets the decision stand with this feedback.
unfoldable pub is_explained : Decision → Option String → Bool
unfolding trim
is_explained approve feedback = true
is_explained _ feedback = not (str_eq (trim (or_value feedback "")) "")

-- `review_listing`, where `old` is the status that the call has read before its transaction.
unfoldable pub review_listing :
    String → Decision → Option String → (old : ListingStatus) → Listing → Answer Listing
unfolding is_explained is_reviewable
review_listing admin d feedback old l =
    if is_explained d feedback
    then (if is_reviewable l.status
        then done (record l {
          status = status_of d;
          admin_feedback = feedback;
          reviewed_by = some admin;
          history = event (some old) (status_of d) admin feedback ∷ l.history;
        })
        else refused "Listing is not available for review")
    else refused "Feedback is required for changes or rejection"

unfoldable pub is_approved : ListingStatus → Bool
is_approved approved = true
is_approved _ = false

-- `schedule_listing` reads the listing, waits for the auction to be created, and then writes.
unfoldable pub schedule_check : Listing → Bool
unfolding is_approved
schedule_check l = is_approved l.status

unfoldable pub schedule_write : (admin auction : String) → Listing → Listing
schedule_write admin auction l = record l {
  status = scheduled;
  auction_id = some auction;
  history = event (some approved) scheduled admin (some "Auction scheduled") ∷ l.history;
}

-- The whole call, undisturbed; the creation of the auction answers with its id or an error.
unfoldable pub schedule_listing : String → Answer String → Listing → Answer Listing
unfolding schedule_check schedule_write
schedule_listing admin created l =
    if schedule_check l
    then elim created [
      | done auction ↦ done (schedule_write admin auction l)
      | refused e ↦ refused e
    ]
    else refused "Only approved listings can be scheduled"

-- A call of the interface, and the listing after it; a call that is refused changes nothing.
pub data Call : Type 0 where
  updated : (seller : String) → Payload → Call
  resubmitted : (seller : String) → Call
  reviewed : (admin : String) → Decision → Option String → Call
  scheduling : (admin : String) → Answer String → Call

abbrev pub after : Listing → Answer Listing → Listing
after l (done m) = m
after l (refused e) = l

-- A call that no other one disturbs.
unfoldable pub serve : (String → Option ℤ) → Call → Listing → Listing
unfolding update_listing resubmit_listing review_listing schedule_listing
serve read (updated seller q) l = after l (update_listing read seller q l)
serve read (resubmitted seller) l = after l (resubmit_listing seller l)
serve read (reviewed admin d feedback) l = after l (review_listing admin d feedback l.status l)
serve read (scheduling admin created) l = after l (schedule_listing admin created l)

unfoldable pub serve_all : (String → Option ℤ) → List Call → Listing → Listing
unfolding serve
serve_all read [] l = l
serve_all read (c ∷ cs) l = serve_all read cs (serve read c l)
