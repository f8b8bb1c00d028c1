-- ===== src/ForwardForm.antt =====
-- apps/web/components/auction/NewForwardAuctionForm.tsx: the form for a forward auction that starts
-- at once. The upload of its files, the answers of the server and the zeros that a number field
-- loses are those of the shipment form, whose code it repeats.
pub mod Checks
mod Tests
use reverse_auction.Common.{
  ℕ, ◌*◌, Bool, true, false, Option, none, some, List, [], ◌∷◌, String, ℤ, pos, ◌-ℤ◌, ltb_ℤ,
  or_value, str_eq, if◌then◌else◌,
}
use reverse_auction.Numeric.{Number}
use reverse_auction.Slice.{given_id}
use reverse_auction.LocalTime.{parse_local_time}
use reverse_auction.Media.{File, Preview, Gallery, clear_media}
use reverse_auction.Shipment.{strip_zeros, first_or, shipment_categories}
use reverse_auction.Shipment.Sending.{
  Answer, Result, sent, failed, upload_all, result_of, number_or_null, or_default, some_urls, Check,
  complain, mutate,
}

-- `ForwardAuctionFormData`
pub record ForwardAuctionFormData : Type 0 where
  pub title : String
  pub description : String
  pub length : String
  pub width : String
  pub height : String
  pub weight : String
  pub location : String
  pub starting_price : String
  pub detailed_information : String
  pub category : String
  pub auction_end_date : String

unfoldable pub empty_form : ForwardAuctionFormData
empty_form = record {
  title = "";
  description = "";
  length = "";
  width = "";
  height = "";
  weight = "";
  location = "";
  starting_price = "";
  detailed_information = "";
  category = first_or shipment_categories "Electronics";
  auction_end_date = "";
}

pub data Field : Type 0 where
  title description length width height weight location starting_price detailed_information category
        auction_end_date :
      Field

-- `handleChange`
unfoldable pub handle_change : Field → String → ForwardAuctionFormData → ForwardAuctionFormData
handle_change title v f = record f { title = v }
handle_change description v f = record f { description = v }
handle_change length v f = record f { length = strip_zeros v }
handle_change width v f = record f { width = strip_zeros v }
handle_change height v f = record f { height = strip_zeros v }
handle_change weight v f = record f { weight = strip_zeros v }
handle_change location v f = record f { location = v }
handle_change starting_price v f = record f { starting_price = strip_zeros v }
handle_change detailed_information v f = record f { detailed_information = v }
handle_change category v f = record f { category = v }
handle_change auction_end_date v f = record f { auction_end_date = v }

-- The payload, but for the fields that are always null; the coordinates are 0.
pub record Payload : Type 0 where
  pub title : String
  pub description : String
  pub item_category : Option String
  pub pickup_terms : Option String
  pub origin_address : String
  pub origin_lat : ℤ
  pub origin_lng : ℤ
  pub auction_start_time : ℤ
  pub auction_end_time : ℤ
  pub weight : Option Number
  pub length : Option Number
  pub width : Option Number
  pub height : Option Number
  pub starting_price : Option Number
  pub minimum_bid_step : ℤ
  pub media_urls : Option (List String)

unfoldable pub payload_of : ForwardAuctionFormData → List String → (start end : ℤ) → Payload
payload_of f urls start end = record {
  title = or_default f.title "Untitled";
  description = or_default f.description "No description";
  item_category = given_id (some f.category);
  pickup_terms = given_id (some f.detailed_information);
  origin_address = or_default f.location "Unknown";
  origin_lat = pos 0;
  origin_lng = pos 0;
  auction_start_time = start;
  auction_end_time = end;
  weight = number_or_null f.weight;
  length = number_or_null f.length;
  width = number_or_null f.width;
  height = number_or_null f.height;
  starting_price = number_or_null f.starting_price;
  minimum_bid_step = pos 100;
  media_urls = some_urls urls;
}

pub record FormState : Type 0 where
  pub form : ForwardAuctionFormData
  pub gallery : Gallery
  pub form_error : String
  pub form_success : String

abbrev pub dated : (Payload → Answer) → ℤ → ForwardAuctionFormData → List String → Option ℤ → Result
dated create now f urls (some end) = result_of (create (payload_of f urls now end))
dated create now f urls none = failed "Invalid time value"

abbrev pub uploaded :
    (Payload → Answer) → (offset now : ℤ) → ForwardAuctionFormData → Option (List String) → Result
uploaded create offset now f none = failed "Failed to upload media"
uploaded create offset now f (some urls) =
    dated create now f urls (parse_local_time offset f.auction_end_date)

-- `mutationFn`; `now` is the clock once the files are uploaded.
unfoldable pub publish :
    (File → Option String) → (Payload → Answer) → (offset now : ℤ) → FormState → Result
publish upload create offset now s =
    uploaded create offset now s.form (upload_all upload s.gallery.media)

-- `onSuccess` and `onError`
abbrev pub settle : Result → FormState → FormState
settle sent s = record s {
  form = empty_form;
  gallery = clear_media s.gallery;
  form_error = "";
  form_success = "Forward Auction Posted Successfully with media!";
}
settle (failed message) s = record s {
  form_error = or_default message "Error publishing auction.";
  form_success = "";
}

abbrev pub check_end : ℤ → Option ℤ → Check
check_end now none = complain "Please provide a valid auction end date."
check_end now (some end) =
    if ltb_ℤ (end -ℤ now) (pos (5 * 60 * 1000))
    then complain "Auction duration must be at least 5 minutes."
    else mutate

unfoldable pub check : (offset now : ℤ) → ForwardAuctionFormData → Check
check offset now f =
    if str_eq f.auction_end_date ""
    then complain "Please provide an auction end date."
    else check_end now (parse_local_time offset f.auction_end_date)

abbrev pub after_check :
    (File → Option String)
    → (Payload → Answer)
    → (offset sent_at : ℤ) → FormState
    → Check
    → FormState
after_check upload create offset sent_at s (complain message) = record s { form_error = message }
after_check upload create offset sent_at s mutate =
    settle (publish upload create offset sent_at s) s

-- `handleSubmit` at the clock `now`, with the mutation that it may start, whose payload is made at
-- the clock `sent_at`. Unlike the shipment form it leaves the old messages in place.
unfoldable pub handle_submit :
    (File → Option String) → (Payload → Answer) → (offset now sent_at : ℤ) → FormState → FormState
handle_submit upload create offset now sent_at s =
    after_check upload create offset sent_at s (check offset now s.form)
