-- ===== src/Shipment.antt =====
-- apps/web/components/shipment/NewShipmentForm.tsx: the data of the form and its handlers. The
-- browser's time zone is an argument; coordinates are whole millionths of a degree.
pub mod Sending
pub mod Duration
pub mod Described
pub mod Submission
pub mod Zeros
mod Tests
use Prim.Native.Char.{Char, code}
use Prim.Native.String.{String, [], ◌∷◌}
use reverse_auction.Common.{
  ℕ, ◌*◌, ◌==◌, Bool, true, false, not, ◌&&◌, Option, none, some, List, [], ◌∷◌, ◌++◌, ℤ, pos, ◌+ℤ◌,
  ◌-ℤ◌, ltb_ℤ, leb_ℤ, eqb_ℤ, or_value, str_eq, if◌then◌else◌,
}
use reverse_auction.Numeric.{Number, nan, infinite, fin, to_number, is_digit}
use reverse_auction.Slice.{given_id}
use reverse_auction.LocalTime.{parse_local_time, format_local_time}
use reverse_auction.Media.{File, Preview, Gallery, clear_media}

-- `ShipmentFormData`; the fields for numbers only ever hold texts.
pub record ShipmentFormData : Type 0 where
  pub title : String
  pub description : String
  pub length : String
  pub width : String
  pub height : String
  pub weight : String
  pub origin : String
  pub origin_lat : ℤ
  pub origin_lng : ℤ
  pub destination : String
  pub dest_lat : ℤ
  pub dest_lng : ℤ
  pub initial_amount : String
  pub detailed_information : String
  pub category : String
  pub time_to_deliver : String
  pub pickup_date : String
  pub auction_start_time : String
  pub auction_end_time : String

abbrev pub shipment_categories : List String
shipment_categories =
    "General Freight" ∷ "Heavy Machinery" ∷ "Vehicles / Auto" ∷ "Temperature Controlled"
    ∷ "Hazardous Materials" ∷ "Flatbed" ∷ "Oversized" ∷ "Other" ∷ []

abbrev pub time_to_deliver_options : List String
time_to_deliver_options =
    "1-2 Days (Expedited)" ∷ "3-5 Days (Standard)" ∷ "1 Week" ∷ "2 Weeks" ∷ "Flexible" ∷ []

-- `list[0] || d`
abbrev pub first_or : List String → String → String
first_or [] d = d
first_or (s ∷ rest) d = if str_eq s "" then d else s

unfoldable pub empty_form : ShipmentFormData
empty_form = record {
  title = "";
  description = "";
  length = "";
  width = "";
  height = "";
  weight = "";
  origin = "";
  origin_lat = pos 0;
  origin_lng = pos 0;
  destination = "";
  dest_lat = pos 0;
  dest_lng = pos 0;
  initial_amount = "";
  detailed_information = "";
  category = first_or shipment_categories "Electronics";
  time_to_deliver = first_or time_to_deliver_options "Same Day";
  pickup_date = "";
  auction_start_time = "";
  auction_end_time = "";
}

-- The sections that are folded.
pub record Collapsed : Type 0 where
  pub freight : Bool
  pub route : Bool
  pub details : Bool
  pub media : Bool

pub data Section : Type 0 where
  freight route details media : Section

unfoldable pub toggle_collapse : Section → Collapsed → Collapsed
toggle_collapse freight c = record c { freight = not c.freight }
toggle_collapse route c = record c { route = not c.route }
toggle_collapse details c = record c { details = not c.details }
toggle_collapse media c = record c { media = not c.media }

-- A place that the search box of the map found.
pub record Place : Type 0 where
  pub formatted_address : Option String
  pub name : Option String
  pub location : Option (ℤ × ℤ)

abbrev address : Place → String
address p = or_value (given_id p.formatted_address) (or_value (given_id p.name) "")

abbrev position : Option (ℤ × ℤ) → ℤ × ℤ
position none = (pos 0, pos 0)
position (some l) = l

-- `onOriginPlacesChanged` and `onDestPlacesChanged`, for the places that the box gives.
unfoldable pub on_origin_places_changed : List Place → ShipmentFormData → ShipmentFormData
on_origin_places_changed [] f = f
on_origin_places_changed (p ∷ places) f = record f {
  origin = address p;
  origin_lat = (position p.location).0;
  origin_lng = (position p.location).1;
}

unfoldable pub on_dest_places_changed : List Place → ShipmentFormData → ShipmentFormData
on_dest_places_changed [] f = f
on_dest_places_changed (p ∷ places) f = record f {
  destination = address p;
  dest_lat = (position p.location).0;
  dest_lng = (position p.location).1;
}

-- `setAuctionDuration`: the end of the auction from its start.
abbrev pub ends_after : ℤ → ℕ → Option ℤ → ShipmentFormData → ShipmentFormData
ends_after offset minutes none f = f
ends_after offset minutes (some start) f = record f {
  auction_end_time = format_local_time offset (start +ℤ pos (minutes * 60 * 1000));
}

unfoldable pub set_auction_duration : ℤ → ℕ → ShipmentFormData → ShipmentFormData
set_auction_duration offset minutes f =
    if str_eq f.auction_start_time ""
    then f
    else ends_after offset minutes (parse_local_time offset f.auction_start_time) f

-- `value.replace(/^0+(?=\d)/, '')`
abbrev pub starts_digit : String → Bool
starts_digit [] = false
starts_digit (c ∷ s) = is_digit c

unfoldable pub strip_zeros : String → String
strip_zeros [] = []
strip_zeros (c ∷ s) = if code c == b'0' && starts_digit s then strip_zeros s else c ∷ s

-- The names of the fields that an input can change.
pub data Field : Type 0 where
  title description length width height weight origin destination initial_amount
        detailed_information category time_to_deliver pickup_date auction_start_time
        auction_end_time :
      Field

-- `handleChange`
unfoldable pub handle_change : Field → String → ShipmentFormData → ShipmentFormData
unfolding strip_zeros
handle_change title v f = record f { title = v }
handle_change description v f = record f { description = v }
handle_change length v f = record f { length = strip_zeros v }
handle_change width v f = record f { width = strip_zeros v }
handle_change height v f = record f { height = strip_zeros v }
handle_change weight v f = record f { weight = strip_zeros v }
handle_change origin v f = record f { origin = v }
handle_change destination v f = record f { destination = v }
handle_change initial_amount v f = record f { initial_amount = strip_zeros v }
handle_change detailed_information v f = record f { detailed_information = v }
handle_change category v f = record f { category = v }
handle_change time_to_deliver v f = record f { time_to_deliver = v }
handle_change pickup_date v f = record f { pickup_date = v }
handle_change auction_start_time v f = record f { auction_start_time = v }
handle_change auction_end_time v f = record f { auction_end_time = v }
