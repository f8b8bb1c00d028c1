-- ===== src/Listing/New.antt =====
-- apps/web/app/sell/new/page.tsx: the form of a new listing. The answers of the upload, of the service
-- for listings, and what a date text gives are arguments.
use reverse_auction.Common.{
  ℕ, zero, suc, Option, none, some, List, [], ◌∷◌, ◌++◌, map, String, str_eq, ◌+s◌, ℤ, or_value,
  if◌then◌else◌,
}
use text.Mathlib.Text.{starts_with}
use reverse_auction.Numeric.{Number, to_number}
use reverse_auction.Slice.{AuctionType, forward, reverse, given_id}
use reverse_auction.Media.{MediaType, image, video, File, Chosen}

-- `Media`
pub record Media : Type 0 where
  pub file : File
  pub url : String
  pub kind : MediaType

-- The texts of the form's fields.
pub record Values : Type 0 where
  pub title : String
  pub description : String
  pub category : String
  pub condition : String
  pub quantity : String
  pub quantity_unit : String
  pub starting_price : String
  pub minimum_bid_step : String
  pub reserve_price : String
  pub location : String
  pub details : String
  pub availability_start : String
  pub availability_end : String

pub record NewListing : Type 0 where
  pub media : List Media
  pub error : String
  pub direction : AuctionType
  pub page : Option String

unfoldable pub set_direction : AuctionType → NewListing → NewListing
set_direction d p = record p { direction = d }

abbrev media_of : Chosen → Media
media_of c = record {
  file = c.file;
  url = c.url;
  kind = if starts_with c.file.type "video/" then video else image;
}

unfoldable pub add_media : List Chosen → NewListing → NewListing
add_media files p = record p { media = p.media ++ map media_of files }

abbrev without : ℕ → List Media → List Media
without i [] = []
without zero (m ∷ ms) = ms
without (suc i) (m ∷ ms) = m ∷ without i ms

unfoldable pub remove_media : ℕ → NewListing → NewListing
remove_media i p = record p { media = without i p.media }

-- An answer of the upload: `secure_url`, if it is a text, or the error of a refusal.
pub data Upload : Type 0 where
  stored : Option String → Upload
  rejected : Option String → Upload

pub data Sent (A : Type 0) : Type 0 where
  sent : A → Sent A
  failed : String → Sent A

abbrev pub upload_error : File → Option String → String
upload_error f e = or_value (given_id e) ("Could not upload " +s f.name)

abbrev pub and_url : String → Sent (List String) → Sent (List String)
and_url u (sent urls) = sent (u ∷ urls)
and_url u (failed e) = failed e

abbrev pub stored_at : File → Option String → Sent (List String) → Sent (List String)
stored_at f none rest = failed ("Upload did not return a media URL for " +s f.name)
stored_at f (some u) rest = and_url u rest

abbrev pub next_media : File → Upload → Sent (List String) → Sent (List String)
next_media f (stored u) rest = stored_at f (given_id u) rest
next_media f (rejected e) rest = failed (upload_error f e)

-- The loop over the media: the first file that fails ends it.
unfoldable pub upload_all : (File → Upload) → List Media → Sent (List String)
upload_all upload [] = sent []
upload_all upload (m ∷ ms) = next_media m.file (upload m.file) (upload_all upload ms)

pub record Payload : Type 0 where
  pub auction_type : AuctionType
  pub title : String
  pub description : String
  pub item_category : String
  pub item_condition : String
  pub quantity : Option Number
  pub quantity_unit : Option String
  pub starting_price : Number
  pub minimum_bid_step : Number
  pub reserve_price : Option Number
  pub origin_address : Option String
  pub pickup_terms : Option String
  pub availability_start : Option ℤ
  pub availability_end : Option ℤ
  pub media_urls : List String

unfoldable pub optional_number : String → Option Number
unfolding to_number
optional_number t = if str_eq t "" then none else some (to_number t)

-- The field for the reserve price is there for a forward auction only.
abbrev pub reserve_of : AuctionType → String → Option Number
unfolding optional_number
reserve_of forward t = optional_number t
reserve_of reverse t = none

unfoldable pub payload_of : AuctionType → Values → Option ℤ → Option ℤ → List String → Payload
unfolding optional_number to_number
payload_of d v start end urls = record {
  auction_type = d;
  title = v.title;
  description = v.description;
  item_category = v.category;
  item_condition = v.condition;
  quantity = optional_number v.quantity;
  quantity_unit = given_id (some v.quantity_unit);
  starting_price = to_number v.starting_price;
  minimum_bid_step = to_number v.minimum_bid_step;
  reserve_price = reserve_of d v.reserve_price;
  origin_address = given_id (some v.location);
  pickup_terms = given_id (some v.details);
  availability_start = start;
  availability_end = end;
  media_urls = urls;
}

-- `iso`: an empty text is null, and one that is no date throws.
abbrev pub iso : (String → Option ℤ) → String → Sent (Option ℤ)
iso read_time t =
    if str_eq t ""
    then sent none
    else elim (read_time t) [ none ↦ failed "Invalid time value" | some a ↦ sent (some a) ]

-- The answer of the service: nothing, or the error of a refusal.
pub data Reply : Type 0 where
  accepted : Reply
  not_ok : Option String → Reply

abbrev pub result_of : Reply → Sent Unit
result_of accepted = sent tt
result_of (not_ok e) = failed (or_value (given_id e) "Could not submit listing")

module _ (upload : File → Upload) (read_time : String → Option ℤ) (create : Payload → Reply) where
  abbrev pub dated :
      AuctionType → Values → List String → Sent (Option ℤ) → Sent (Option ℤ) → Sent Unit
  dated d v urls (sent start) (sent end) = result_of (create (payload_of d v start end urls))
  dated d v urls (sent start) (failed e) = failed e
  dated d v urls (failed e) end = failed e

  abbrev pub after_upload : NewListing → Values → Sent (List String) → Sent Unit
  after_upload p v (failed e) = failed e
  after_upload p v (sent urls) =
      dated p.direction v urls (iso read_time v.availability_start)
        (iso read_time v.availability_end)

  -- `mutationFn`
  unfoldable pub publish : NewListing → Values → Sent Unit
  unfolding upload_all
  publish p v = after_upload p v (upload_all upload p.media)

  -- `onSuccess` and `onError`
  abbrev pub settle : Sent Unit → NewListing → NewListing
  settle (sent u) p = record p { page = some "/seller/dashboard?submitted=1" }
  settle (failed e) p = record p { error = e }

  -- `onSubmit`
  unfoldable pub submit : Values → NewListing → NewListing
  unfolding publish
  submit v p = settle (publish p v) (record p { error = "" })
