-- ===== src/AuctionForm.antt =====
-- apps/web/components/auction/NewAuctionForm.tsx with schemas/auction.ts and constants/auction.ts:
-- the form for an auction of either direction, its checks and its payload. `read_time` is
-- `new Date(text).getTime()`, `upload` and `create` are the answers of the server. A field that may
-- be a number or a text is the text of that number.
pub mod Sending
pub mod Checks
mod Tests
use reverse_auction.Common.{
  ℕ, ◌*◌, Bool, true, false, not, ◌&&◌, Option, none, some, List, [], ◌∷◌, String, ℤ, pos, ◌-ℤ◌,
  ltb_ℤ, leb_ℤ, or_value, str_eq, ◌+s◌, if◌then◌else◌,
}
use reverse_auction.Numeric.{Number, nan, infinite, fin, to_number, trim}
use reverse_auction.Slice.{AuctionType, reverse, forward, given_id}
use reverse_auction.Media.{File, Preview, Gallery, clear_media}

-- `AuctionFormData`
pub record AuctionFormData : Type 0 where
  pub title : String
  pub description : String
  pub auction_type : AuctionType
  pub category : String
  pub item_condition : String
  pub quantity : String
  pub quantity_unit : String
  pub starting_price : String
  pub minimum_bid_step : String
  pub reserve_price : String
  pub auction_start_time : String
  pub auction_end_time : String
  pub detailed_information : String
  pub location : String
  pub destination : String
  pub length : String
  pub width : String
  pub height : String
  pub weight : String

abbrev pub auction_categories : List String
auction_categories =
    "Art and collectibles" ∷ "Business supplies" ∷ "Commodities" ∷ "Electronics" ∷ "Event services"
    ∷ "Freight and logistics" ∷ "Furniture" ∷ "Healthcare" ∷ "Industrial equipment"
    ∷ "Professional services" ∷ "Real estate" ∷ "Vehicles" ∷ "Other" ∷ []

abbrev pub item_conditions : List String
item_conditions =
    "New" ∷ "Used - like new" ∷ "Used - inspected" ∷ "Refurbished" ∷ "Not applicable" ∷ []

abbrev first_of : List String → String
first_of [] = ""
first_of (s ∷ rest) = s

unfoldable pub initial_form : AuctionFormData
initial_form = record {
  title = "";
  description = "";
  auction_type = reverse;
  category = first_of auction_categories;
  item_condition = first_of item_conditions;
  quantity = "1";
  quantity_unit = "item";
  starting_price = "";
  minimum_bid_step = "1";
  reserve_price = "";
  auction_start_time = "";
  auction_end_time = "";
  detailed_information = "";
  location = "";
  destination = "";
  length = "";
  width = "";
  height = "";
  weight = "";
}

abbrev pub finite : Number → Option ℤ
finite (fin a) = some a
finite _ = none

-- `optionalNumber`
unfoldable pub optional_number : String → Option ℤ
optional_number s = if str_eq s "" then none else finite (to_number s)

-- `text.trim() || null`
abbrev pub trimmed : String → Option String
trimmed s = given_id (some (trim s))

pub record Payload : Type 0 where
  pub title : String
  pub description : String
  pub auction_type : AuctionType
  pub item_category : String
  pub item_condition : String
  pub quantity : Option ℤ
  pub quantity_unit : Option String
  pub starting_price : Option ℤ
  pub minimum_bid_step : Option ℤ
  pub reserve_price : Option ℤ
  pub auction_start_time : ℤ
  pub auction_end_time : ℤ
  pub pickup_terms : Option String
  pub origin_address : Option String
  pub dest_address : Option String
  pub weight : Option ℤ
  pub length : Option ℤ
  pub width : Option ℤ
  pub height : Option ℤ
  pub media_urls : Option (List String)

abbrev pub reserve_of : AuctionType → String → Option ℤ
reserve_of forward s = optional_number s
reserve_of reverse s = none

abbrev some_urls : List String → Option (List String)
some_urls [] = none
some_urls (u ∷ urls) = some (u ∷ urls)

unfoldable pub payload_of : AuctionFormData → List String → (start end : ℤ) → Payload
payload_of f urls start end = record {
  title = trim f.title;
  description = trim f.description;
  auction_type = f.auction_type;
  item_category = f.category;
  item_condition = f.item_condition;
  quantity = optional_number f.quantity;
  quantity_unit = trimmed f.quantity_unit;
  starting_price = optional_number f.starting_price;
  minimum_bid_step = optional_number f.minimum_bid_step;
  reserve_price = reserve_of f.auction_type f.reserve_price;
  auction_start_time = start;
  auction_end_time = end;
  pickup_terms = trimmed f.detailed_information;
  origin_address = trimmed f.location;
  dest_address = trimmed f.destination;
  weight = optional_number f.weight;
  length = optional_number f.length;
  width = optional_number f.width;
  height = optional_number f.height;
  media_urls = some_urls urls;
}

-- The checks of a submit, in the order of the code.
pub data Check : Type 0 where
  complain : (message : String) → Check
  mutate : Check

-- `type === 'FORWARD' && reserve !== '' && Number(reserve) < price`
abbrev pub below : Number → ℤ → Bool
below nan price = false
below (infinite negative) price = negative
below (fin a) price = ltb_ℤ a price

abbrev pub reserve_below : AuctionType → String → ℤ → Bool
reserve_below reverse s price = false
reserve_below forward s price = if str_eq s "" then false else below (to_number s) price

abbrev pub check_reserve : AuctionFormData → ℤ → Check
check_reserve f price =
    if reserve_below f.auction_type f.reserve_price price
    then complain "A forward-auction reserve cannot be below the starting price."
    else mutate

abbrev pub check_step : AuctionFormData → ℤ → Option ℤ → Check
check_step f price none = complain "Minimum bid step must be greater than zero."
check_step f price (some step) =
    if leb_ℤ step (pos 0)
    then complain "Minimum bid step must be greater than zero."
    else check_reserve f price

abbrev pub check_price : AuctionFormData → Option ℤ → Check
check_price f none = complain "Starting price must be greater than zero."
check_price f (some price) =
    if leb_ℤ price (pos 0)
    then complain "Starting price must be greater than zero."
    else check_step f price (finite (to_number f.minimum_bid_step))

abbrev pub check_times : AuctionFormData → Option ℤ → Option ℤ → Check
check_times f (some start) (some end) =
    if leb_ℤ end start
    then complain "Auction end time must be after its start time."
    else if ltb_ℤ (end -ℤ start) (pos (5 * 60000))
    then complain "Live bidding must run for at least 5 minutes."
    else check_price f (finite (to_number f.starting_price))
check_times f _ _ = complain "Choose valid start and end times."

unfoldable pub check : (String → Option ℤ) → AuctionFormData → Check
check read_time f = check_times f (read_time f.auction_start_time) (read_time f.auction_end_time)
