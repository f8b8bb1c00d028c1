-- ===== src/Listing/Accepted.antt =====
-- What update_listing of apps/http-server/src/services/listing.rs takes of the form of
-- apps/web/app/sell/[id]/edit/page.tsx, and what it stores.
use text.Mathlib.TextEquality.{eq_iff}
use mathlib.Core.Path.{subst}
use Prim.Native.String.{count}
use reverse_auction.Common.{
  Bool, true, false, not, ◌&&◌, ◌≡◌, ◌≤◌, refl, sym, ap, ◌∙◌, inl, inr, Option, none, some, List,
  [], ◌∷◌, map, keep, String, str_eq, ℤ, pos, ltb_ℤ, Bool-cases,
}
use reverse_auction.Listing.{
  Payload, Listing, done, is_short, lacks_price, details_of, details, is_editable, store,
  update_listing,
}
use reverse_auction.Listing.Pages.{Draft, urls_of, date_of, payload, body_of}
use reverse_auction.Listing.Readings.{
  Dated, Editable, read_type-type_text, with_dates-some, written-done, own_editable,
  is_editable-Editable, Editable-is_editable, short_iff, long, positive, priced, Dated-Comes,
  Comes-Dated, details_of-Comes,
}

-- What the server accepts of the form for its listing, with the instants of the two dates.
pub record Acceptable (read : String → Option ℤ) (to_iso : String → Option String) (seller : String)
    (d : Draft) (l : Listing) (start end : Option ℤ) : Type 0 where
  pub title : 3 ≤ count d.title
  pub description : 10 ≤ count d.description
  pub starting_price : ltb_ℤ (pos 0) d.starting_price ≡ true
  pub minimum_bid_step : ltb_ℤ (pos 0) d.minimum_bid_step ≡ true
  pub availability_start : Dated read to_iso d.availability_start start
  pub availability_end : Dated read to_iso d.availability_end end
  pub own : l.seller_id ≡ seller
  pub status : Editable l.status

-- `media_urls` without what is null or empty
abbrev pub is_url : Option String → Bool
is_url none = false
is_url (some u) = not (str_eq u "")

-- The listing has the form's details, and all else that it had.
pub record Stored (d : Draft) (l : Listing) (start end : Option ℤ) (m : Listing) : Type 0 where
  pub auction_type : m.details.auction_type ≡ d.auction_type
  pub title : m.details.title ≡ d.title
  pub description : m.details.description ≡ d.description
  pub item_category : m.details.item_category ≡ d.item_category
  pub item_condition : m.details.item_condition ≡ d.item_condition
  pub quantity : m.details.quantity ≡ d.quantity
  pub quantity_unit : m.details.quantity_unit ≡ d.quantity_unit
  pub starting_price : m.details.starting_price ≡ d.starting_price
  pub minimum_bid_step : m.details.minimum_bid_step ≡ d.minimum_bid_step
  pub reserve_price : m.details.reserve_price ≡ d.reserve_price
  pub origin_address : m.details.origin_address ≡ d.origin_address
  pub pickup_terms : m.details.pickup_terms ≡ d.pickup_terms
  pub availability_start : m.details.availability_start ≡ start
  pub availability_end : m.details.availability_end ≡ end
  pub media_urls : m.details.media_urls ≡ keep is_url d.media_urls
  pub seller_id : m.seller_id ≡ l.seller_id
  pub status : m.status ≡ l.status
  pub admin_feedback : m.admin_feedback ≡ l.admin_feedback

urls_of-keep : (us : List (Option String)) → map some (urls_of us) ≡ keep is_url us
urls_of-keep [] = refl
urls_of-keep (none ∷ us) = urls_of-keep us
urls_of-keep (some u ∷ us) = elim (Bool-cases (str_eq u "")) [
  | inl e ↦ rw e (urls_of-keep us)
  | inr e ↦ rw e (ap (λ vs. some u ∷ vs) (urls_of-keep us))
]

module _ (read : String → Option ℤ) (to_iso : String → Option String) (seller : String) (d : Draft)
    (l : Listing) where
  -- The server takes the form, and the listing is `m` after it.
  abbrev pub Accepted : Listing → Type 0
  Accepted m =
      (start end : Option ℤ) × Acceptable read to_iso seller d l start end × Stored d l start end m

  stored :
      (s e : Option String) (start end : Option ℤ)
      → Stored d l start end (store seller (details (payload d s e) d.auction_type start end) l)
  stored s e start end = record {
    auction_type = refl;
    title = refl;
    description = refl;
    item_category = refl;
    item_condition = refl;
    quantity = refl;
    quantity_unit = refl;
    starting_price = refl;
    minimum_bid_step = refl;
    reserve_price = refl;
    origin_address = refl;
    pickup_terms = refl;
    availability_start = refl;
    availability_end = refl;
    media_urls = urls_of-keep d.media_urls;
    seller_id = refl;
    status = refl;
    admin_feedback = refl;
  }

  pub done-Accepted :
      (q : Payload) (m : Listing)
      → body_of to_iso d ≡ some q
      → update_listing read seller q l ≡ done m
      → Accepted m
  unfolding body_of update_listing is_short lacks_price
  done-Accepted q m b h =
      let (s, e, from, to, same) =
        with_dates-some d (date_of to_iso d.availability_start) (date_of to_iso d.availability_end)
          q b in
      let (dd, t, may, same_m) =
        written-done seller l (details_of read q)
          (str_eq l.seller_id seller && is_editable l.status) m h in
      let p : details_of read (payload d s e) ≡ done dd = ap (details_of read) (sym same) ∙ t in
      let (not_short, has_price, (start, end, comes, goes, dd_is)) =
        details_of-Comes read to_iso d (payload d s e) dd (read_type-type_text d.auction_type) p in
      let (long_title, long_description) =
        short_iff (count d.title) (count d.description) not_short in
      let (price, step) = positive d.starting_price d.minimum_bid_step has_price in
      let (own, editable) = own_editable (str_eq l.seller_id seller) (is_editable l.status) may in
      (
        start,
        end,
        record {
          title = long_title;
          description = long_description;
          starting_price = price;
          minimum_bid_step = step;
          availability_start = Comes-Dated read to_iso d.availability_start start (s, from, comes);
          availability_end = Comes-Dated read to_iso d.availability_end end (e, to, goes);
          own = (eq_iff l.seller_id seller).0 own;
          status = is_editable-Editable l.status editable;
        },
        subst (Stored d l start end) (sym (same_m ∙ ap (λ x. store seller x l) dd_is))
            (stored s e start end),
      )

  pub Acceptable-done :
      (start end : Option ℤ)
      → Acceptable read to_iso seller d l start end
      → (q : Payload) × (m : Listing) × (body_of to_iso d ≡ some q)
        × (update_listing read seller q l ≡ done m)
  unfolding body_of update_listing details_of is_short lacks_price
  Acceptable-done start end a =
      let (s, from, comes) =
        Dated-Comes read to_iso d.availability_start start a.availability_start in
      let (e, to, goes) = Dated-Comes read to_iso d.availability_end end a.availability_end in
      (
        payload d s e,
        store seller (details (payload d s e) d.auction_type start end) l,
        rw (from, to) refl,
        rw
            (
              long (count d.title) (count d.description) a.title a.description,
              priced d.starting_price d.minimum_bid_step a.starting_price a.minimum_bid_step,
              read_type-type_text d.auction_type,
              comes,
              goes,
              (eq_iff l.seller_id seller).1 a.own,
              Editable-is_editable l.status a.status,
            )
            refl,
      )
