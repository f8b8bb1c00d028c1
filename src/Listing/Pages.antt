-- ===== src/Listing/Pages.antt =====
-- The pages around a listing: apps/web/app/sell/[id]/edit/page.tsx, app/seller/dashboard/page.tsx and
-- components/admin/ListingReviewQueue.tsx, each request answered by the services of Listing.
use reverse_auction.Common.{
  ℕ, Bool, true, false, ◌||◌, Option, none, some, List, [], ◌∷◌, String, str_eq, ℤ, leb_ℤ, ltb_ℤ,
  lookup, put, keep, length, or_value, if◌then◌else◌,
}
use reverse_auction.Slice.{AuctionType, forward, reverse, given_id}
use reverse_auction.Listing.{
  ListingStatus, draft, submitted, under_review, changes_requested, approved, rejected, scheduled,
  cancelled, Payload, Call, after, serve_all, Listing, Answer, done, refused, update_listing,
  resubmit_listing, Decision, review_listing, schedule_listing,
}

-- The listing as the browser holds it, `AuctionListing`, but for its status and what no request reads.
pub record Draft : Type 0 where
  pub auction_type : AuctionType
  pub title : String
  pub description : String
  pub item_category : Option String
  pub item_condition : Option String
  pub quantity : Option ℤ
  pub quantity_unit : Option String
  pub starting_price : ℤ
  pub minimum_bid_step : ℤ
  pub reserve_price : Option ℤ
  pub origin_address : Option String
  pub pickup_terms : Option String
  pub availability_start : Option String
  pub availability_end : Option String
  pub media_urls : List (Option String)

-- The edit page: the listing that is edited, once it has loaded, the error, and where it has gone.
pub record Edit : Type 0 where
  pub listing : Option (ListingStatus × Draft)
  pub error : String
  pub location : Option String

-- `['DRAFT','CHANGES_REQUESTED'].includes(listing.status)`
unfoldable pub can_be_edited : ListingStatus → Bool
can_be_edited draft = true
can_be_edited submitted = false
can_be_edited under_review = false
can_be_edited changes_requested = true
can_be_edited approved = false
can_be_edited rejected = false
can_be_edited scheduled = false
can_be_edited cancelled = false

pub data EditView : Type 0 where
  loading not_editable form : EditView

unfoldable pub edit_view : (is_loading : Bool) → Edit → EditView
unfolding can_be_edited
edit_view true p = loading
edit_view false p = elim p.listing [
  | none ↦ loading
  | some (s, d) ↦ if can_be_edited s then form else not_editable
]

-- `media_urls.filter(Boolean)`
abbrev pub urls_of : List (Option String) → List String
urls_of [] = []
urls_of (none ∷ urls) = urls_of urls
urls_of (some u ∷ urls) = if str_eq u "" then urls_of urls else u ∷ urls_of urls

abbrev pub type_text : AuctionType → String
type_text forward = "FORWARD"
type_text reverse = "REVERSE"

-- A date of the body, or none when `toISOString` throws; `to_iso` reads a text and writes it as ISO.
abbrev pub date_of : (String → Option String) → Option String → Option (Option String)
date_of to_iso none = some none
date_of to_iso (some t) =
    if str_eq t "" then some none else elim (to_iso t) [ none ↦ none | some iso ↦ some (some iso) ]

abbrev pub payload : Draft → (start end : Option String) → Payload
payload d start end = record {
  title = d.title;
  description = d.description;
  auction_type = type_text d.auction_type;
  item_category = d.item_category;
  item_condition = d.item_condition;
  quantity = d.quantity;
  quantity_unit = d.quantity_unit;
  starting_price = d.starting_price;
  minimum_bid_step = d.minimum_bid_step;
  reserve_price = d.reserve_price;
  origin_address = d.origin_address;
  pickup_terms = d.pickup_terms;
  availability_start = start;
  availability_end = end;
  media_urls = urls_of d.media_urls;
}

abbrev pub with_dates : Draft → Option (Option String) → Option (Option String) → Option Payload
with_dates d none end = none
with_dates d (some start) none = none
with_dates d (some start) (some end) = some (payload d start end)

-- The body of the request that saves.
unfoldable pub body_of : (String → Option String) → Draft → Option Payload
body_of to_iso d =
    with_dates d (date_of to_iso d.availability_start) (date_of to_iso d.availability_end)

-- What becomes of a request: it is served and answered, or the page has an error instead, of a
-- request that never came or of an answer that was lost or could not be read.
pub data Delivery : Type 0 where
  answered : Delivery
  lost_request lost_answer : (error : String) → Delivery

abbrev pub or_fallback : (fallback error : String) → String
or_fallback fallback error = if str_eq error "" then fallback else error

-- A request to the listing: the listing after it, and the error that the page throws.
abbrev pub send :
    Delivery → (fallback : String) → Listing → Answer Listing → Listing × Option String
send answered fallback l (done m) = (m, none)
send answered fallback l (refused e) = (l, some (or_fallback fallback e))
send (lost_request error) fallback l a = (l, some error)
send (lost_answer error) fallback l a = (after l a, some error)

-- `onSuccess` and `onError`
abbrev pub go : Edit → Edit
go p = record p { location = some "/seller/dashboard" }

abbrev pub fail : String → Edit → Edit
fail e p = record p { error = e }

abbrev pub ends : Edit → Listing × Option String → Listing × Edit
ends p (l, none) = (l, go p)
ends p (l, some e) = (l, fail e p)

-- What follows the request that saves, which leaves the listing and perhaps an error; the calls of
-- others are served before the second request comes.
unfoldable pub and_resubmit :
    (String → Option ℤ)
    → (resubmit : Bool) → (seller : String) → Delivery
    → (between : List Call) → Edit
    → Listing × Option String
    → Listing × Edit
unfolding serve_all resubmit_listing
and_resubmit read resubmit seller second between p (m, some e) = (m, fail e p)
and_resubmit read true seller second between p (m, none) =
    let l : Listing = serve_all read between m in
    ends p (send second "Could not resubmit listing" l (resubmit_listing seller l))
and_resubmit read false seller second between p (m, none) = (m, go p)

-- `save`: the listing of the server and the page after it; `read` is the server's reading of a date.
unfoldable pub save :
    (read : String → Option ℤ)
    → (to_iso : String → Option String) → (resubmit : Bool) → (seller : String)
    → (first second : Delivery) → (between : List Call) → Edit
    → Listing
    → Listing × Edit
unfolding body_of update_listing and_resubmit
save read to_iso resubmit seller first second between p l = elim p.listing [
  | none ↦ (l, go p)
  | some (s, d) ↦ elim (body_of to_iso d) [
    | none ↦ (l, fail "Invalid time value" p)
    | some q ↦
        and_resubmit read resubmit seller second between p
          (send first "Could not update listing" l (update_listing read seller q l))
  ]
]

-- The review queue: the texts of the administrator, by the id of the listing.
pub record Queue : Type 0 where
  pub feedback : List (String × String)
  pub schedule : List (String × (String × String))

unfoldable pub set_feedback : (id text : String) → Queue → Queue
set_feedback id text q = record q { feedback = put id text q.feedback }

abbrev pub dates_of : String → Queue → String × String
dates_of id q = or_value (lookup id q.schedule) ("", "")

unfoldable pub set_start : (id start : String) → Queue → Queue
set_start id start q = record q { schedule = put id (start, (dates_of id q).1) q.schedule }

unfoldable pub set_end : (id end : String) → Queue → Queue
set_end id end q = record q { schedule = put id ((dates_of id q).0, end) q.schedule }

-- `['SUBMITTED','UNDER_REVIEW','CHANGES_REQUESTED'].includes(item.status)`
unfoldable pub shows_review : ListingStatus → Bool
shows_review draft = false
shows_review submitted = true
shows_review under_review = true
shows_review changes_requested = true
shows_review approved = false
shows_review rejected = false
shows_review scheduled = false
shows_review cancelled = false

-- `item.status === 'APPROVED'`
unfoldable pub shows_schedule : ListingStatus → Bool
shows_schedule draft = false
shows_schedule submitted = false
shows_schedule under_review = false
shows_schedule changes_requested = false
shows_schedule approved = true
shows_schedule rejected = false
shows_schedule scheduled = false
shows_schedule cancelled = false

-- `feedback[id] || null`
abbrev pub feedback_of : String → Queue → Option String
feedback_of id q = given_id (lookup id q.feedback)

-- `review` and the answer, when no other call disturbs it
unfoldable pub review : String → String → Decision → Queue → Listing → Answer Listing
unfolding review_listing
review admin id d q l = review_listing admin d (feedback_of id q) l.status l

-- `scheduleAuction`, where `read_time` is what a date text gives and `create` the answer of the
-- creation of the auction
abbrev pub schedule_at :
    (ℤ → ℤ → Answer String) → String → Listing → Option ℤ → Option ℤ → Answer Listing
unfolding schedule_listing
schedule_at create admin l (some start) (some end) = schedule_listing admin (create start end) l
schedule_at create admin l _ _ = refused "Invalid time value"

abbrev pub is_empty : String → Bool
is_empty t = str_eq t ""

unfoldable pub schedule_auction :
    (String → Option ℤ)
    → (ℤ → ℤ → Answer String)
    → (admin id : String) → Queue
    → Listing
    → Answer Listing
schedule_auction read_time create admin id q l =
    let dates : String × String = dates_of id q in
    if is_empty dates.0 || is_empty dates.1
    then refused "Choose the auction start and end times"
    else schedule_at create admin l (read_time dates.0) (read_time dates.1)

-- The seller's dashboard: the number of listings in review, and the status and the links of a row.
abbrev in_review : ListingStatus → Bool
in_review submitted = true
in_review under_review = true
in_review _ = false

unfoldable pub pending : List Listing → ℕ
pending items = length (keep (λ (l : Listing). in_review l.status) items)

pub data RowStatus : Type 0 where
  upcoming live completed : RowStatus
  of_listing : ListingStatus → RowStatus

unfoldable pub operational_status : (now : ℤ) → ListingStatus → Option (ℤ × ℤ) → RowStatus
operational_status now s none = of_listing s
operational_status now s (some (start, end)) =
    if ltb_ℤ now start then upcoming else if leb_ℤ now end then live else completed

abbrev report_or_shipment : RowStatus → String
report_or_shipment completed = "/auction/bidinfo/"
report_or_shipment _ = "/shipment/"

-- The link "View" of a listing with an auction, as a path and an id.
unfoldable pub view_link : (now : ℤ) → ListingStatus → String × (ℤ × ℤ) → String × String
unfolding operational_status
view_link now s (id, times) = (report_or_shipment (operational_status now s (some times)), id)
