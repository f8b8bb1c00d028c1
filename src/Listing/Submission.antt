-- ===== src/Listing/Submission.antt =====
-- When the form of a new listing has submitted it (apps/web/app/sell/new/page.tsx).
mod Tests
use text.Mathlib.TextEquality.{eq_iff}
use reverse_auction.Common.{
  Bool, true, false, ◌≡◌, ◌↔◌, refl, sym, ap, ◌∙◌, inl, inr, Option, none, some, List, [], ◌∷◌,
  String, str_eq, ℤ, arith, Bool-cases, if◌then◌else◌,
}
use mathlib.Core.Path.{subst}
use reverse_auction.Slice.{given_id}
use reverse_auction.Media.{File}
use reverse_auction.Listing.Described.{
  Describes, iso-Dated, Dated-iso, payload_of-Describes, Describes-payload_of,
}
use reverse_auction.Listing.New.{
  Media, Values, NewListing, Upload, stored, rejected, Sent, sent, failed, and_url, stored_at,
  next_media, upload_all, Payload, payload_of, iso, Reply, accepted, not_ok, result_of, dated,
  after_upload, publish, settle, submit,
}

-- Each file is stored, in order, at a URL that is not empty.
abbrev pub Stored : (File → Upload) → List Media → List String → Type 0
Stored upload [] [] = Unit
Stored upload [] (u ∷ urls) = ⊥
Stored upload (m ∷ ms) [] = ⊥
Stored upload (m ∷ ms) (u ∷ urls) =
    (upload m.file ≡ stored (some u)) × (str_eq u "" ≡ false) × Stored upload ms urls

-- The steps of a submission that have all gone well, in the code's own words.
record Went (upload : File → Upload) (read_time : String → Option ℤ) (create : Payload → Reply)
    (v : Values) (p : NewListing) : Type 0 where
  pub urls : List String
  pub start : Option ℤ
  pub end : Option ℤ
  pub media : Stored upload p.media urls
  pub starts : iso read_time v.availability_start ≡ sent start
  pub ends : iso read_time v.availability_end ≡ sent end
  pub created : create (payload_of p.direction v start end urls) ≡ accepted

-- A submission that has gone well, told by its effects.
pub record Listed (upload : File → Upload) (read_time : String → Option ℤ)
    (create : Payload → Reply) (v : Values) (p : NewListing) : Type 0 where
  pub urls : List String
  pub payload : Payload
  pub media : Stored upload p.media urls
  pub describes : Describes read_time p.direction v urls payload
  pub created : create payload ≡ accepted

upload_all-Stored :
    (upload : File → Upload) (ms : List Media) (urls : List String)
    → Stored upload ms urls
    → upload_all upload ms ≡ sent urls
unfolding upload_all
upload_all-Stored upload [] [] h = refl
upload_all-Stored upload [] (u ∷ urls) h = absurd h
upload_all-Stored upload (m ∷ ms) [] h = absurd h
upload_all-Stored upload (m ∷ ms) (u ∷ urls) (e, n, h) =
    rw (e, n, upload_all-Stored upload ms urls h) refl

-- What a loop over the media that ends well says of its first file.
record Next (w : Upload) (rest : Sent (List String)) (urls : List String) : Type 0 where
  pub url : String
  pub others : List String
  pub stored_at_url : w ≡ stored (some url)
  pub given : str_eq url "" ≡ false
  pub went_on : rest ≡ sent others
  pub split : urls ≡ url ∷ others

Next-next_media :
    (f : File) (w : Upload) (rest : Sent (List String)) (urls : List String)
    → next_media f w rest ≡ sent urls
    → Next w rest urls
Next-next_media f (rejected e) rest urls h = absurd (cc)
Next-next_media f (stored none) rest urls h = absurd (cc)
Next-next_media f (stored (some u)) rest urls h = elim (Bool-cases (str_eq u "")) [
  | inl e ↦ absurd (
      cut rest
        (subst (λ x. stored_at f x rest ≡ sent urls) (ap (λ b. if b then none else some u) e) h))
  | inr e ↦
      keep_url rest
        (subst (λ x. stored_at f x rest ≡ sent urls) (ap (λ b. if b then none else some u) e) h) e
]
  where
    cut : (rest : Sent (List String)) → stored_at f none rest ≡ sent urls → ⊥
    cut rest h = cc

    keep_url :
        (rest : Sent (List String))
        → stored_at f (some u) rest ≡ sent urls
        → str_eq u "" ≡ false
        → Next (stored (some u)) rest urls
    keep_url (failed m) h e = absurd (cc)
    keep_url (sent us) h e = record {
      url = u;
      others = us;
      stored_at_url = refl;
      given = e;
      went_on = refl;
      split = sym (list_eq h);
    }
      where
        list_eq : sent (u ∷ us) ≡ sent urls → u ∷ us ≡ urls
        list_eq h = cc

Stored-of :
    (upload : File → Upload) (ms : List Media) (urls : List String)
    → upload_all upload ms ≡ sent urls
    → Stored upload ms urls
unfolding upload_all
Stored-of upload [] [] h = tt
Stored-of upload [] (u ∷ urls) h = absurd (cc)
Stored-of upload (m ∷ ms) urls h =
    let n : Next (upload m.file) (upload_all upload ms) urls =
      Next-next_media m.file (upload m.file) (upload_all upload ms) urls h in
    subst (Stored upload (m ∷ ms)) (sym n.split)
      (n.stored_at_url, n.given, Stored-of upload ms n.others n.went_on)

module _ (upload : File → Upload) (read_time : String → Option ℤ) (create : Payload → Reply)
    (v : Values) (p : NewListing) where
  Went-dated :
      (urls : List String) (start end : Sent (Option ℤ))
      → upload_all upload p.media ≡ sent urls
      → iso read_time v.availability_start ≡ start
      → iso read_time v.availability_end ≡ end
      → dated upload read_time create p.direction v urls start end ≡ sent tt
      → Went upload read_time create v p
  Went-dated urls (failed e) end a s t h = absurd (cc)
  Went-dated urls (sent start) (failed e) a s t h = absurd (cc)
  Went-dated urls (sent start) (sent end) a s t h = record {
    urls = urls;
    start = start;
    end = end;
    media = Stored-of upload p.media urls a;
    starts = s;
    ends = t;
    created = accepted_of (create (payload_of p.direction v start end urls)) h;
  }
    where
      accepted_of : (r : Reply) → result_of r ≡ sent tt → r ≡ accepted
      accepted_of accepted h = refl
      accepted_of (not_ok e) h = absurd (cc)

  Went-after_upload :
      (r : Sent (List String))
      → upload_all upload p.media ≡ r
      → after_upload upload read_time create p v r ≡ sent tt
      → Went upload read_time create v p
  Went-after_upload (failed e) a h = absurd (cc)
  Went-after_upload (sent urls) a h = Went-dated urls _ _ a refl refl h

  gone :
      (r : Sent Unit)
      → (settle upload read_time create r (record p { error = ""; page = none })).page
        ≡ some "/seller/dashboard?submitted=1"
      → r ≡ sent tt
  gone (sent u) h = refl
  gone (failed e) h = absurd (cc)

  Went-sent : Went upload read_time create v p → publish upload read_time create p v ≡ sent tt
  unfolding publish
  Went-sent l =
      rw (upload_all-Stored upload p.media l.urls l.media, l.starts, l.ends, l.created) refl

  Went-Listed : Went upload read_time create v p → Listed upload read_time create v p
  Went-Listed w = record {
    urls = w.urls;
    payload = payload_of p.direction v w.start w.end w.urls;
    media = w.media;
    describes =
        payload_of-Describes read_time p.direction v w.start w.end w.urls
          (iso-Dated read_time v.availability_start w.start w.starts)
          (iso-Dated read_time v.availability_end w.end w.ends);
    created = w.created;
  }

  Listed-Went : Listed upload read_time create v p → Went upload read_time create v p
  Listed-Went l = record {
    urls = l.urls;
    start = l.payload.availability_start;
    end = l.payload.availability_end;
    media = l.media;
    starts =
        Dated-iso read_time v.availability_start l.payload.availability_start
          l.describes.availability_start;
    ends =
        Dated-iso read_time v.availability_end l.payload.availability_end
          l.describes.availability_end;
    created =
        ap create (sym (Describes-payload_of read_time p.direction v l.urls l.payload l.describes))
        ∙ l.created;
  }

  -- The form goes to the dashboard with the note that the listing is submitted exactly if every file
  -- is stored, in order, at a URL that is not empty, and the service accepts a payload that describes
  -- the form: the direction, the texts and the numbers of its fields, null for an empty one that may
  -- be, the instants of its two dates, each of which can be read or is empty, and these URLs.
  pub submit-Listed :
      p.page ≡ none
      → ((submit upload read_time create v p).page ≡ some "/seller/dashboard?submitted=1")
        ↔ Listed upload read_time create v p
  unfolding submit publish
  submit-Listed e = (
    λ h. Went-Listed (
        Went-after_upload _ refl (
          gone (publish upload read_time create p v)
            (moved (publish upload read_time create p v) h))),
    λ l. rw (Went-sent (Listed-Went l)) refl,
  )
    where
      moved :
          (r : Sent Unit)
          → (settle upload read_time create r (record p { error = "" })).page
            ≡ some "/seller/dashboard?submitted=1"
          → (settle upload read_time create r (record p { error = ""; page = none })).page
            ≡ some "/seller/dashboard?submitted=1"
      moved (sent u) h = refl
      moved (failed m) h = sym e ∙ h
