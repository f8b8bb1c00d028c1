-- ===== src/Listing/Readings.antt =====
-- What update_listing of apps/http-server/src/services/listing.rs reads from the form of
-- apps/web/app/sell/[id]/edit/page.tsx: dates, lengths, prices and the type.
use text.Mathlib.TextEquality.{eq_iff}
use reverse_auction.Common.{
  ℕ, ltb, lower, Bool, true, false, ◌&&◌, ◌||◌, ◌≡◌, ◌≢◌, ◌≤◌, ◌⊎◌, refl, inl, inr, Option, none,
  some, String, str_eq, ne_of_str_eq, ℤ, pos, leb_ℤ, ltb_ℤ, arith, Bool-cases, Option-cases,
}
use reverse_auction.Slice.{AuctionType, forward, reverse}
use reverse_auction.Listing.{
  ListingStatus, draft, submitted, changes_requested, under_review, approved, rejected, scheduled,
  cancelled, Payload, Details, Listing, Answer, done, refused, is_short, lacks_price, read_type,
  parse_time, typed, timed, details_of, details, is_editable, store, written,
}
use reverse_auction.Listing.Pages.{Draft, type_text, date_of, payload, with_dates}

-- The instant that the server reads from a date of the form, null for none.
abbrev pub Dated :
    (String → Option ℤ) → (String → Option String) → Option String → Option ℤ → Type 0
Dated read to_iso none value = value ≡ none
Dated read to_iso (some t) value =
    ((t ≡ "") × (value ≡ none))
    ⊎ ((iso : String) × (a : ℤ) × (t ≢ "")
        × (to_iso t ≡ some iso)
        × (read iso ≡ some a)
        × (value ≡ some a))

abbrev pub Editable : ListingStatus → Type 0
Editable s = (s ≡ draft) ⊎ (s ≡ changes_requested)

pub read_type-type_text : (t : AuctionType) → read_type (type_text t) ≡ some t
unfolding read_type lower
read_type-type_text forward = refl
read_type-type_text reverse = refl

pub with_dates-some :
    (d : Draft) (a b : Option (Option String)) (q : Payload)
    → with_dates d a b ≡ some q
    → (s e : Option String) × (a ≡ some s) × (b ≡ some e) × (q ≡ payload d s e)
with_dates-some d none b q h = absurd (cc)
with_dates-some d (some s) none q h = absurd (cc)
with_dates-some d (some s) (some e) q h = (s, e, refl, refl, cc)

pub written-done :
    (seller : String) (l : Listing) (a : Answer Details) (may : Bool) (m : Listing)
    → written seller l a may ≡ done m
    → (dd : Details) × (a ≡ done dd) × (may ≡ true) × (m ≡ store seller dd l)
written-done seller l (refused e) may m h = absurd (cc)
written-done seller l (done dd) true m h = (dd, refl, refl, cc)
written-done seller l (done dd) false m h = absurd (cc)

pub own_editable : (a b : Bool) → (a && b) ≡ true → (a ≡ true) × (b ≡ true)
own_editable true true e = (refl, refl)
own_editable true false e = absurd (cc)
own_editable false b e = absurd (cc)

pub is_editable-Editable : (s : ListingStatus) → is_editable s ≡ true → Editable s
unfolding is_editable
is_editable-Editable draft e = inl refl
is_editable-Editable changes_requested e = inr refl
is_editable-Editable submitted e = absurd (cc)
is_editable-Editable under_review e = absurd (cc)
is_editable-Editable approved e = absurd (cc)
is_editable-Editable rejected e = absurd (cc)
is_editable-Editable scheduled e = absurd (cc)
is_editable-Editable cancelled e = absurd (cc)

pub Editable-is_editable : (s : ListingStatus) → Editable s → is_editable s ≡ true
unfolding is_editable
Editable-is_editable s (inl e) = rw e refl
Editable-is_editable s (inr e) = rw e refl

pub short_iff : (a b : ℕ) → (ltb a 3 || ltb b 10) ≡ false → (3 ≤ a) × (10 ≤ b)
short_iff a b e = (ground (arith, e), ground (arith, e))

pub long : (a b : ℕ) → 3 ≤ a → 10 ≤ b → (ltb a 3 || ltb b 10) ≡ false
long a b e f = ground (arith, e, f)

pub positive :
    (a b : ℤ)
    → (leb_ℤ a (pos 0) || leb_ℤ b (pos 0)) ≡ false
    → (ltb_ℤ (pos 0) a ≡ true) × (ltb_ℤ (pos 0) b ≡ true)
positive a b e = (ground (arith, e), ground (arith, e))

pub priced :
    (a b : ℤ)
    → ltb_ℤ (pos 0) a ≡ true
    → ltb_ℤ (pos 0) b ≡ true
    → (leb_ℤ a (pos 0) || leb_ℤ b (pos 0)) ≡ false
priced a b e f = ground (arith, e, f)

module _ (read : String → Option ℤ) (to_iso : String → Option String) where
  -- A date of the form comes to an instant on the server.
  abbrev pub Comes : Option String → Option ℤ → Type 0
  Comes t value =
      (w : Option String) × (date_of to_iso t ≡ some w) × (parse_time read w ≡ done value)

  pub Dated-Comes :
      (t : Option String) (value : Option ℤ) → Dated read to_iso t value → Comes t value
  Dated-Comes none value e = (none, refl, rw e refl)
  Dated-Comes (some t) value (inl (e, h)) = (none, rw ((eq_iff t "").1 e) refl, rw h refl)
  Dated-Comes (some t) value (inr (iso, a, n, e, f, h)) = elim (Bool-cases (str_eq t "")) [
    | inl g ↦ absurd (n ((eq_iff t "").0 g))
    | inr g ↦ (some iso, rw (g, e) refl, rw (parse_time, f, h) refl)
  ]

  parse-some :
      (iso : String) (value : Option ℤ)
      → parse_time read (some iso) ≡ done value
      → (a : ℤ) × (read iso ≡ some a) × (value ≡ some a)
  parse-some iso value h = elim (Option-cases (read iso)) [
    | inl bad ↦ absurd (let g = rw (parse_time, bad) at h in cc)
    | inr (a, good) ↦ (a, good, let g = rw (parse_time, good) at h in cc)
  ]

  pub Comes-Dated :
      (t : Option String) (value : Option ℤ) → Comes t value → Dated read to_iso t value
  Comes-Dated none value (none, e, h) = cc
  Comes-Dated none value (some w, e, h) = absurd (cc)
  Comes-Dated (some t) value (w, e, h) = elim (Bool-cases (str_eq t "")) [
    | inl g ↦ inl ((eq_iff t "").0 g, empty w (rw (g) at e) h)
    | inr g ↦ elim (Option-cases (to_iso t)) [
      | inl bad ↦ absurd (let f = rw (g, bad) at e in cc)
      | inr (iso, good) ↦
          let (a, f, k) = parse-some iso value (same w iso (rw (g, good) at e) h) in
          inr (iso, a, ne_of_str_eq t "" g, good, f, k)
    ]
  ]
    where
      empty :
          (w : Option String) → some none ≡ some w → parse_time read w ≡ done value → value ≡ none
      empty none e h = cc
      empty (some w) e h = absurd (cc)

      same :
          (w : Option String) (iso : String)
          → some (some iso) ≡ some w
          → parse_time read w ≡ done value
          → parse_time read (some iso) ≡ done value
      same w iso e h = let f : w ≡ some iso = cc in rw (f) at h

  typed-Comes :
      (d : Draft) (q : Payload) (t : AuctionType) (dd : Details)
      → typed read q (some t) ≡ done dd
      → (start end : Option ℤ) × (parse_time read q.availability_start ≡ done start)
        × (parse_time read q.availability_end ≡ done end)
        × (dd ≡ details q t start end)
  typed-Comes d q t dd h =
      go (parse_time read q.availability_start) (parse_time read q.availability_end) refl refl h
    where
      go :
          (a b : Answer (Option ℤ))
          → parse_time read q.availability_start ≡ a
          → parse_time read q.availability_end ≡ b
          → timed q t a b ≡ done dd
          → (start end : Option ℤ) × (parse_time read q.availability_start ≡ done start)
            × (parse_time read q.availability_end ≡ done end)
            × (dd ≡ details q t start end)
      go (done start) (done end) e f h = (start, end, e, f, cc)
      go (done start) (refused m) e f h = absurd (cc)
      go (refused m) b e f h = absurd (cc)

  pub details_of-Comes :
      (d : Draft) (q : Payload) (dd : Details)
      → read_type q.auction_type ≡ some d.auction_type
      → details_of read q ≡ done dd
      → (is_short q ≡ false)
        × (lacks_price q ≡ false)
        × ((start end : Option ℤ) × (parse_time read q.availability_start ≡ done start)
            × (parse_time read q.availability_end ≡ done end)
            × (dd ≡ details q d.auction_type start end))
  unfolding details_of
  details_of-Comes d q dd t h = elim (Bool-cases (is_short q)) [
    | inl e ↦ absurd (let g = rw (e) at h in cc)
    | inr e ↦ elim (Bool-cases (lacks_price q)) [
      | inl f ↦ absurd (let g = rw (e, f) at h in cc)
      | inr f ↦ (e, f, typed-Comes d q d.auction_type dd (rw (e, f, t) at h))
    ]
  ]
