-- ===== src/Shipment/Sending.antt =====
-- How NewShipmentForm.tsx checks and sends a shipment. `upload` is the answer of `/api/upload` to a
-- file, `create` that of `/api/auction/create` to a payload, and `read_date` is `new Date(text)`.
use reverse_auction.Common.{
  ◌*◌, Option, none, some, List, [], ◌∷◌, String, ℤ, pos, ◌-ℤ◌, ltb_ℤ, leb_ℤ, eqb_ℤ, or_value,
  str_eq, if◌then◌else◌,
}
use reverse_auction.Numeric.{Number, nan, infinite, fin, to_number}
use reverse_auction.Slice.{given_id}
use reverse_auction.LocalTime.{parse_local_time}
use reverse_auction.Media.{File, Preview, Gallery, clear_media}
use reverse_auction.Shipment.{ShipmentFormData, empty_form}

-- The payload, with instants in place of their ISO texts; `none` is null.
pub record Payload : Type 0 where
  pub title : String
  pub description : String
  pub item_category : Option String
  pub pickup_terms : Option String
  pub origin_address : String
  pub origin_lat : ℤ
  pub origin_lng : ℤ
  pub dest_address : String
  pub dest_lat : ℤ
  pub dest_lng : ℤ
  pub pickup_date_start : ℤ
  pub pickup_date_end : ℤ
  pub auction_start_time : ℤ
  pub auction_end_time : ℤ
  pub weight : Option Number
  pub length : Option Number
  pub width : Option Number
  pub height : Option Number
  pub starting_price : Option Number
  pub minimum_bid_step : ℤ
  pub media_urls : Option (List String)

pub data Result : Type 0 where
  sent : Result
  failed : (message : String) → Result

-- What the server answers to a payload: an identifier, or an error that its body may name.
pub data Answer : Type 0 where
  created : Answer
  refused : Option String → Answer

-- The loop over the media: the first file that is refused ends it.
abbrev and_url : Option (List String) → String → Option (List String)
and_url none url = none
and_url (some urls) url = some (url ∷ urls)

abbrev next_url : Option String → Option (List String) → Option (List String)
next_url none urls = none
next_url (some url) urls = and_url urls url

unfoldable pub upload_all : (File → Option String) → List Preview → Option (List String)
upload_all upload [] = some []
upload_all upload (m ∷ media) = next_url (upload m.file) (upload_all upload media)

-- `Number(text) || null`
abbrev pub number_or_null : String → Option Number
number_or_null s = elim (to_number s) [
  | nan ↦ none
  | infinite b ↦ some (infinite b)
  | fin a ↦ if eqb_ℤ a (pos 0) then none else some (fin a)
]

abbrev pub or_default : String → String → String
or_default s d = or_value (given_id (some s)) d

abbrev pub some_urls : List String → Option (List String)
some_urls [] = none
some_urls (u ∷ urls) = some (u ∷ urls)

unfoldable pub payload_of : ShipmentFormData → List String → (pickup start end : ℤ) → Payload
payload_of f urls pickup start end = record {
  title = or_default f.title "Untitled";
  description = or_default f.description "No description";
  item_category = given_id (some f.category);
  pickup_terms = given_id (some f.detailed_information);
  origin_address = or_default f.origin "Unknown";
  origin_lat = f.origin_lat;
  origin_lng = f.origin_lng;
  dest_address = or_default f.destination "Unknown";
  dest_lat = f.dest_lat;
  dest_lng = f.dest_lng;
  pickup_date_start = pickup;
  pickup_date_end = pickup;
  auction_start_time = start;
  auction_end_time = end;
  weight = number_or_null f.weight;
  length = number_or_null f.length;
  width = number_or_null f.width;
  height = number_or_null f.height;
  starting_price = number_or_null f.initial_amount;
  minimum_bid_step = pos 100;
  media_urls = some_urls urls;
}

abbrev pub result_of : Answer → Result
result_of created = sent
result_of (refused e) = failed (or_value (given_id e) "Failed to publish auction")

-- `toISOString` of an invalid date throws a RangeError.
abbrev pub dated :
    (Payload → Answer) → ShipmentFormData → List String → Option ℤ → Option ℤ → Option ℤ → Result
dated create f urls (some pickup) (some start) (some end) =
    result_of (create (payload_of f urls pickup start end))
dated create f urls _ _ _ = failed "Invalid time value"

abbrev pub uploaded :
    (Payload → Answer) → (String → Option ℤ) → ℤ → ShipmentFormData → Option (List String) → Result
uploaded create read_date offset f none = failed "Failed to upload media"
uploaded create read_date offset f (some urls) =
    dated create f urls (read_date f.pickup_date) (parse_local_time offset f.auction_start_time)
      (parse_local_time offset f.auction_end_time)

-- The component's state, but for the map's.
pub record FormState : Type 0 where
  pub form : ShipmentFormData
  pub gallery : Gallery
  pub form_error : String
  pub form_success : String

-- `mutationFn`
unfoldable pub publish :
    (File → Option String) → (Payload → Answer) → (String → Option ℤ) → ℤ → FormState → Result
publish upload create read_date offset s =
    uploaded create read_date offset s.form (upload_all upload s.gallery.media)

-- `onSuccess` and `onError`
abbrev pub settle : Result → FormState → FormState
settle sent s = record s {
  form = empty_form;
  gallery = clear_media s.gallery;
  form_error = "";
  form_success = "Shipment Posted Successfully with media!";
}
settle (failed message) s = record s {
  form_error = or_default message "Error publishing shipment.";
  form_success = "";
}

-- What the checks of a submit say: an error, or that the mutation runs.
pub data Check : Type 0 where
  complain : (message : String) → Check
  mutate : Check

abbrev pub check_window : (now start end : ℤ) → Check
check_window now start end =
    if ltb_ℤ (start -ℤ now) (pos (3 * 60 * 1000))
    then complain
        "Auction start time must be at least 3 minutes from now. (Cannot modify within 3 minutes of start)"
    else if ltb_ℤ (end -ℤ start) (pos (5 * 60 * 1000))
    then complain "Auction duration must be at least 5 minutes."
    else if leb_ℤ end start
    then complain "Auction end time must be after the start time."
    else mutate

abbrev pub check_times : ℤ → Option ℤ → Option ℤ → Check
check_times now (some start) (some end) = check_window now start end
check_times now _ _ = complain "Please provide valid auction start and end times."

unfoldable pub check : ℤ → ℤ → ShipmentFormData → Check
check offset now f =
    if str_eq f.pickup_date ""
    then complain "Please provide a pickup date."
    else check_times now (parse_local_time offset f.auction_start_time)
        (parse_local_time offset f.auction_end_time)

abbrev pub after_check :
    (File → Option String)
    → (Payload → Answer)
    → (String → Option ℤ)
    → ℤ
    → FormState
    → Check
    → FormState
after_check upload create read_date offset s (complain message) = record s { form_error = message }
after_check upload create read_date offset s mutate =
    settle (publish upload create read_date offset s) s

-- `handleSubmit`, with the mutation that it may start run to its end; `now` is the clock.
unfoldable pub handle_submit :
    (File → Option String)
    → (Payload → Answer)
    → (String → Option ℤ)
    → (offset now : ℤ) → FormState
    → FormState
handle_submit upload create read_date offset now s =
    after_check upload create read_date offset (record s { form_error = ""; form_success = "" })
      (check offset now s.form)
