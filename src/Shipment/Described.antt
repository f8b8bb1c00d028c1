-- ===== src/Shipment/Described.antt =====
-- What NewShipmentForm.tsx sends for a form: the files that are stored, and the payload field by field.
use text.Mathlib.TextEquality.{eq_iff}
use mathlib.Core.Path.{subst}
use reverse_auction.Common.{
  ◌≡◌, ◌≢◌, refl, inl, inr, ◌⊎◌, Option, none, some, List, [], ◌∷◌, String, ℤ, pos, eqb_ℤ, arith,
  str_eq, ne_of_str_eq, Bool-cases, Option-cases, if◌then◌else◌,
}
use reverse_auction.Numeric.{Number, nan, infinite, fin, to_number}
use reverse_auction.Slice.{given_id}
use reverse_auction.Media.{File, Preview}
use reverse_auction.Shipment.{ShipmentFormData}
use reverse_auction.Shipment.Sending.{
  Payload, payload_of, upload_all, or_default, number_or_null, some_urls,
}

-- Each file is stored by the server, in order, at the URL beside it.
abbrev pub Stored : (File → Option String) → List Preview → List String → Type 0
Stored upload [] [] = Unit
Stored upload [] (u ∷ urls) = ⊥
Stored upload (m ∷ media) [] = ⊥
Stored upload (m ∷ media) (u ∷ urls) = (upload m.file ≡ some u) × Stored upload media urls

-- A text, or what stands for an empty one.
abbrev pub TextOr : (text default value : String) → Type 0
TextOr text default value = ((text ≡ "") × (value ≡ default)) ⊎ ((text ≢ "") × (value ≡ text))

-- A text, or null for an empty one.
abbrev pub TextOrNull : String → Option String → Type 0
TextOrNull text value = ((text ≡ "") × (value ≡ none)) ⊎ ((text ≢ "") × (value ≡ some text))

-- A number, or null for zero and for what is no number.
abbrev pub NumberOrNull : Number → Option Number → Type 0
NumberOrNull nan value = value ≡ none
NumberOrNull (infinite b) value = value ≡ some (infinite b)
NumberOrNull (fin a) value = ((a ≡ pos 0) × (value ≡ none)) ⊎ ((a ≢ pos 0) × (value ≡ some (fin a)))

-- The URLs, or null if there are none.
abbrev pub UrlsOrNull : List String → Option (List String) → Type 0
UrlsOrNull [] value = value ≡ none
UrlsOrNull (u ∷ urls) value = value ≡ some (u ∷ urls)

-- What the payload says of the form, field by field.
pub record Describes (f : ShipmentFormData) (urls : List String) (pickup start end : ℤ)
    (q : Payload) : Type 0 where
  pub title : TextOr f.title "Untitled" q.title
  pub description : TextOr f.description "No description" q.description
  pub item_category : TextOrNull f.category q.item_category
  pub pickup_terms : TextOrNull f.detailed_information q.pickup_terms
  pub origin : TextOr f.origin "Unknown" q.origin_address
  pub origin_place : (q.origin_lat ≡ f.origin_lat) × (q.origin_lng ≡ f.origin_lng)
  pub destination : TextOr f.destination "Unknown" q.dest_address
  pub destination_place : (q.dest_lat ≡ f.dest_lat) × (q.dest_lng ≡ f.dest_lng)
  pub pickup_dates : (q.pickup_date_start ≡ pickup) × (q.pickup_date_end ≡ pickup)
  pub auction_start_time : q.auction_start_time ≡ start
  pub auction_end_time : q.auction_end_time ≡ end
  pub weight : NumberOrNull (to_number f.weight) q.weight
  pub length : NumberOrNull (to_number f.length) q.length
  pub width : NumberOrNull (to_number f.width) q.width
  pub height : NumberOrNull (to_number f.height) q.height
  pub starting_price : NumberOrNull (to_number f.initial_amount) q.starting_price
  pub minimum_bid_step : q.minimum_bid_step ≡ pos 100
  pub media_urls : UrlsOrNull urls q.media_urls

or_default-TextOr : (text default : String) → TextOr text default (or_default text default)
or_default-TextOr text default = elim (Bool-cases (str_eq text "")) [
  | inl e ↦ inl ((eq_iff text "").0 e, rw e refl)
  | inr e ↦ inr (ne_of_str_eq text "" e, rw e refl)
]

given_id-TextOrNull : (text : String) → TextOrNull text (given_id (some text))
given_id-TextOrNull text = elim (Bool-cases (str_eq text "")) [
  | inl e ↦ inl ((eq_iff text "").0 e, rw e refl)
  | inr e ↦ inr (ne_of_str_eq text "" e, rw e refl)
]

number_or_null-NumberOrNull : (text : String) → NumberOrNull (to_number text) (number_or_null text)
number_or_null-NumberOrNull text = kept (to_number text)
  where
    kept :
        (n : Number)
        → NumberOrNull n (elim n [
          | nan ↦ none
          | infinite b ↦ some (infinite b)
          | fin a ↦ if eqb_ℤ a (pos 0) then none else some (fin a)
        ])
    kept nan = refl
    kept (infinite b) = refl
    kept (fin a) = elim (Bool-cases (eqb_ℤ a (pos 0))) [
      | inl e ↦ inl (ground (arith, e), rw e refl)
      | inr e ↦ inr (λ z. ground (arith, e, z), rw e refl)
    ]

pub payload_of-Describes :
    (f : ShipmentFormData) (urls : List String) (pickup start end : ℤ)
    → Describes f urls pickup start end (payload_of f urls pickup start end)
unfolding payload_of
payload_of-Describes f urls pickup start end = record {
  title = or_default-TextOr f.title "Untitled";
  description = or_default-TextOr f.description "No description";
  item_category = given_id-TextOrNull f.category;
  pickup_terms = given_id-TextOrNull f.detailed_information;
  origin = or_default-TextOr f.origin "Unknown";
  origin_place = (refl, refl);
  destination = or_default-TextOr f.destination "Unknown";
  destination_place = (refl, refl);
  pickup_dates = (refl, refl);
  auction_start_time = refl;
  auction_end_time = refl;
  weight = number_or_null-NumberOrNull f.weight;
  length = number_or_null-NumberOrNull f.length;
  width = number_or_null-NumberOrNull f.width;
  height = number_or_null-NumberOrNull f.height;
  starting_price = number_or_null-NumberOrNull f.initial_amount;
  minimum_bid_step = refl;
  media_urls = some_urls-UrlsOrNull urls;
}
  where
    some_urls-UrlsOrNull : (us : List String) → UrlsOrNull us (some_urls us)
    some_urls-UrlsOrNull [] = refl
    some_urls-UrlsOrNull (u ∷ us) = refl

pub upload_all-Stored :
    (upload : File → Option String) (media : List Preview) (urls : List String)
    → upload_all upload media ≡ some urls
    → Stored upload media urls
unfolding upload_all
upload_all-Stored upload [] [] e = tt
upload_all-Stored upload [] (u ∷ urls) e = absurd (cc)
upload_all-Stored upload (m ∷ media) urls e = elim (Option-cases (upload m.file)) [
  | inl bad ↦ absurd (never urls (rw bad at e))
  | inr (url, good) ↦ elim (Option-cases (upload_all upload media)) [
    | inl bad ↦ absurd (never urls (rw (good, bad) at e))
    | inr (others, rest) ↦
        subst (Stored upload (m ∷ media)) (list_eq url others urls (rw (good, rest) at e))
          (good, upload_all-Stored upload media others rest)
  ]
]
  where
    never : (us : List String) → none ≡ some us → ⊥
    never us e = cc

    list_eq : (u : String) (us vs : List String) → some (u ∷ us) ≡ some vs → u ∷ us ≡ vs
    list_eq u us vs e = cc
