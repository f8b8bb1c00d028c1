-- ===== src/Listing/Described.antt =====
-- What the form of a new listing sends, field by field (apps/web/app/sell/new/page.tsx).
use text.Mathlib.TextEquality.{eq_iff}
use reverse_auction.Common.{
  ◌≡◌, ◌≢◌, ◌⊎◌, refl, sym, ◌∙◌, inl, inr, Option, none, some, List, String, str_eq, ne_of_str_eq,
  ℤ, Bool-cases, Option-cases, if◌then◌else◌,
}
use reverse_auction.Numeric.{Number, to_number}
use reverse_auction.Slice.{AuctionType, forward, reverse}
use reverse_auction.Listing.New.{
  Values, sent, failed, Payload, payload_of, optional_number, reserve_of, iso,
}

-- What a text gives, or null for an empty one.
abbrev pub OrNull : {A : Type 0} → (text : String) → A → Option A → Type 0
OrNull text a value = ((text ≡ "") × (value ≡ none)) ⊎ ((text ≢ "") × (value ≡ some a))

-- The instant that a date text gives, or null for an empty one.
abbrev pub Dated : (String → Option ℤ) → (text : String) → Option ℤ → Type 0
Dated read_time text value =
    ((text ≡ "") × (value ≡ none))
    ⊎ ((instant : ℤ) × (text ≢ "") × (read_time text ≡ some instant) × (value ≡ some instant))

-- A reserve price is sent for a forward auction only.
abbrev pub Reserved : AuctionType → String → Option Number → Type 0
Reserved forward text value = OrNull text (to_number text) value
Reserved reverse text value = value ≡ none

pub record Describes (read_time : String → Option ℤ) (d : AuctionType) (v : Values)
    (urls : List String) (q : Payload) : Type 0 where
  pub auction_type : q.auction_type ≡ d
  pub title : q.title ≡ v.title
  pub description : q.description ≡ v.description
  pub item_category : q.item_category ≡ v.category
  pub item_condition : q.item_condition ≡ v.condition
  pub quantity : OrNull v.quantity (to_number v.quantity) q.quantity
  pub quantity_unit : OrNull v.quantity_unit v.quantity_unit q.quantity_unit
  pub starting_price : q.starting_price ≡ to_number v.starting_price
  pub minimum_bid_step : q.minimum_bid_step ≡ to_number v.minimum_bid_step
  pub reserve_price : Reserved d v.reserve_price q.reserve_price
  pub origin_address : OrNull v.location v.location q.origin_address
  pub pickup_terms : OrNull v.details v.details q.pickup_terms
  pub availability_start : Dated read_time v.availability_start q.availability_start
  pub availability_end : Dated read_time v.availability_end q.availability_end
  pub media_urls : q.media_urls ≡ urls

abbrev or_null : {A : Type 0} → (text : String) → A → Option A
or_null text a = if str_eq text "" then none else some a

or_null-OrNull : {A : Type 0} (text : String) (a : A) → OrNull text a (or_null text a)
or_null-OrNull text a = elim (Bool-cases (str_eq text "")) [
  | inl e ↦ inl ((eq_iff text "").0 e, rw e refl)
  | inr e ↦ inr (ne_of_str_eq text "" e, rw e refl)
]

OrNull-or_null :
    {A : Type 0} (text : String) (a : A) (value : Option A)
    → OrNull text a value
    → value ≡ or_null text a
OrNull-or_null text a value (inl (e, h)) = h ∙ rw ((eq_iff text "").1 e) refl
OrNull-or_null text a value (inr (n, h)) = elim (Bool-cases (str_eq text "")) [
  | inl e ↦ absurd (n ((eq_iff text "").0 e))
  | inr e ↦ h ∙ rw e refl
]

pub iso-Dated :
    (read_time : String → Option ℤ) (text : String) (value : Option ℤ)
    → iso read_time text ≡ sent value
    → Dated read_time text value
iso-Dated read_time text value h = elim (Bool-cases (str_eq text "")) [
  | inl e ↦ inl ((eq_iff text "").0 e, sym (same (rw e at h)))
  | inr e ↦ elim (Option-cases (read_time text)) [
    | inl bad ↦ absurd (threw (rw (e, bad) at h))
    | inr (a, good) ↦ inr (a, ne_of_str_eq text "" e, good, sym (same (rw (e, good) at h)))
  ]
]
  where
    same : {o : Option ℤ} → sent o ≡ sent value → o ≡ value
    same h = cc

    threw : failed "Invalid time value" ≡ sent value → ⊥
    threw h = cc

pub Dated-iso :
    (read_time : String → Option ℤ) (text : String) (value : Option ℤ)
    → Dated read_time text value
    → iso read_time text ≡ sent value
Dated-iso read_time text value (inl (e, h)) = rw ((eq_iff text "").1 e, h) refl
Dated-iso read_time text value (inr (a, n, r, h)) = elim (Bool-cases (str_eq text "")) [
  | inl e ↦ absurd (n ((eq_iff text "").0 e))
  | inr e ↦ rw (e, r, h) refl
]

reserve_of-Reserved : (d : AuctionType) (text : String) → Reserved d text (reserve_of d text)
unfolding optional_number
reserve_of-Reserved forward text = or_null-OrNull text (to_number text)
reserve_of-Reserved reverse text = refl

Reserved-reserve_of :
    (d : AuctionType) (text : String) (value : Option Number)
    → Reserved d text value
    → value ≡ reserve_of d text
unfolding optional_number
Reserved-reserve_of forward text value h = OrNull-or_null text (to_number text) value h
Reserved-reserve_of reverse text value h = h

pub payload_of-Describes :
    (read_time : String → Option ℤ) (d : AuctionType) (v : Values) (start end : Option ℤ)
    (urls : List String)
    → Dated read_time v.availability_start start
    → Dated read_time v.availability_end end
    → Describes read_time d v urls (payload_of d v start end urls)
unfolding payload_of optional_number
payload_of-Describes read_time d v start end urls s t = record {
  auction_type = refl;
  title = refl;
  description = refl;
  item_category = refl;
  item_condition = refl;
  quantity = or_null-OrNull v.quantity (to_number v.quantity);
  quantity_unit = or_null-OrNull v.quantity_unit v.quantity_unit;
  starting_price = refl;
  minimum_bid_step = refl;
  reserve_price = reserve_of-Reserved d v.reserve_price;
  origin_address = or_null-OrNull v.location v.location;
  pickup_terms = or_null-OrNull v.details v.details;
  availability_start = s;
  availability_end = t;
  media_urls = refl;
}

-- A payload that describes the form is the one that the code builds.
pub Describes-payload_of :
    (read_time : String → Option ℤ) (d : AuctionType) (v : Values) (urls : List String)
    (q : Payload)
    → Describes read_time d v urls q
    → q ≡ payload_of d v q.availability_start q.availability_end urls
unfolding payload_of optional_number
Describes-payload_of read_time d v urls q h = λ i. record {
  auction_type = h.auction_type i;
  title = h.title i;
  description = h.description i;
  item_category = h.item_category i;
  item_condition = h.item_condition i;
  quantity = OrNull-or_null v.quantity (to_number v.quantity) q.quantity h.quantity i;
  quantity_unit = OrNull-or_null v.quantity_unit v.quantity_unit q.quantity_unit h.quantity_unit i;
  starting_price = h.starting_price i;
  minimum_bid_step = h.minimum_bid_step i;
  reserve_price = Reserved-reserve_of d v.reserve_price q.reserve_price h.reserve_price i;
  origin_address = OrNull-or_null v.location v.location q.origin_address h.origin_address i;
  pickup_terms = OrNull-or_null v.details v.details q.pickup_terms h.pickup_terms i;
  availability_start = q.availability_start;
  availability_end = q.availability_end;
  media_urls = h.media_urls i;
}
