-- ===== src/Listing/Chain.antt =====
-- What the status and the history of a listing tell (apps/http-server/src/services/listing.rs).
use reverse_auction.Common.{
  ℤ, Bool, ◌&&◌, ap, ◌∙◌, true, false, ◌≡◌, refl, inl, inr, Option, none, some, List, [], ◌∷◌,
  String, str_eq, arith, Bool-cases,
}
use mathlib.Core.Path.{subst}
use reverse_auction.Listing.{
  ListingStatus, draft, submitted, under_review, changes_requested, approved, rejected, scheduled,
  cancelled, Details, HistoryEvent, Listing, Answer, done, refused, create_listing, is_editable,
  may_edit, update_listing, resubmit_listing, Decision, approve, request_changes, reject, status_of,
  is_reviewable, is_explained, review_listing, is_approved, schedule_check, schedule_write,
  schedule_listing, Call, updated, resubmitted, reviewed, scheduling, serve, Payload, details_of,
  written, inserted, after, serve_all,
}

-- The events lead from nothing to the status, each from where the one before it led.
abbrev pub Chain : Option ListingStatus → List HistoryEvent → Type 0
Chain none [] = Unit
Chain (some s) [] = ⊥
Chain none (e ∷ es) = ⊥
Chain (some s) (e ∷ es) = (e.to_status ≡ s) × Chain e.from_status es

-- The statuses that a listing can have, and whether there is an auction.
abbrev pub Stage : ListingStatus → Option String → Type 0
Stage scheduled (some a) = Unit
Stage submitted none = Unit
Stage changes_requested none = Unit
Stage approved none = Unit
Stage rejected none = Unit
Stage _ _ = ⊥

pub record IsWellKept (l : Listing) : Type 0 where
  pub chain : Chain (some l.status) l.history
  pub stage : Stage l.status l.auction_id

module _ (l : Listing) (k : IsWellKept l) where
  update-IsWellKept :
      (read : String → Option ℤ) (seller : String) (q : Payload)
      → IsWellKept (serve read (updated seller q) l)
  unfolding serve update_listing
  update-IsWellKept read seller q =
      written-IsWellKept (details_of read q) (str_eq l.seller_id seller && is_editable l.status)
    where
      written-IsWellKept :
          (d : Answer Details) (may : Bool) → IsWellKept (after l (written seller l d may))
      written-IsWellKept (refused e) may = k
      written-IsWellKept (done d) true = record { chain = (refl, k.chain); stage = k.stage }
      written-IsWellKept (done d) false = k

was_changes_requested :
    (s : ListingStatus) (a : Option String) (h : List HistoryEvent)
    → is_editable s ≡ true
    → Stage s a
    → Chain (some s) h
    → Chain (some changes_requested) h × Stage submitted a
unfolding is_editable
was_changes_requested draft none h e k c = absurd k
was_changes_requested draft (some a) h e k c = absurd k
was_changes_requested changes_requested none h e k c = (c, tt)
was_changes_requested changes_requested (some a) h e k c = absurd k
was_changes_requested submitted a h e k c = absurd (cc)
was_changes_requested under_review a h e k c = absurd (cc)
was_changes_requested approved a h e k c = absurd (cc)
was_changes_requested rejected a h e k c = absurd (cc)
was_changes_requested scheduled a h e k c = absurd (cc)
was_changes_requested cancelled a h e k c = absurd (cc)

-- A listing under review has no auction, whatever the decision.
decided :
    (d : Decision) (s : ListingStatus) (a : Option String)
    → is_reviewable s ≡ true
    → Stage s a
    → Stage (status_of d) a
unfolding is_reviewable
decided approve submitted none e k = tt
decided request_changes submitted none e k = tt
decided reject submitted none e k = tt
decided approve changes_requested none e k = tt
decided request_changes changes_requested none e k = tt
decided reject changes_requested none e k = tt
decided d submitted (some a) e k = absurd k
decided d changes_requested (some a) e k = absurd k
decided d under_review none e k = absurd k
decided d under_review (some a) e k = absurd k
decided d draft a e k = absurd (cc)
decided d approved a e k = absurd (cc)
decided d rejected a e k = absurd (cc)
decided d scheduled a e k = absurd (cc)
decided d cancelled a e k = absurd (cc)

was_approved :
    (s : ListingStatus) (h : List HistoryEvent)
    → is_approved s ≡ true
    → Chain (some s) h
    → Chain (some approved) h
unfolding is_approved
was_approved approved h e c = c
was_approved draft h e c = absurd (cc)
was_approved submitted h e c = absurd (cc)
was_approved under_review h e c = absurd (cc)
was_approved changes_requested h e c = absurd (cc)
was_approved rejected h e c = absurd (cc)
was_approved scheduled h e c = absurd (cc)
was_approved cancelled h e c = absurd (cc)

module _ (l : Listing) (k : IsWellKept l) where
  resubmit-IsWellKept :
      (read : String → Option ℤ) (seller : String) → IsWellKept (serve read (resubmitted seller) l)
  unfolding serve resubmit_listing may_edit
  resubmit-IsWellKept read seller = elim (Bool-cases (str_eq l.seller_id seller)) [
    | inl e ↦ elim (Bool-cases (is_editable l.status)) [
      | inl h ↦
          let (c, s) = was_changes_requested l.status l.auction_id l.history h k.stage k.chain in
          simp (e, h) (record { chain = (refl, c); stage = s })
      | inr h ↦ simp (e, h) k
    ]
    | inr e ↦ simp e k
  ]

  review-IsWellKept :
      (read : String → Option ℤ) (admin : String) (d : Decision) (feedback : Option String)
      → IsWellKept (serve read (reviewed admin d feedback) l)
  unfolding serve review_listing
  review-IsWellKept read admin d feedback = elim (Bool-cases (is_explained d feedback)) [
    | inl e ↦ elim (Bool-cases (is_reviewable l.status)) [
      | inl h ↦
          simp (e, h)
            (record { chain = (refl, k.chain); stage = decided d l.status l.auction_id h k.stage })
      | inr h ↦ simp (e, h) k
    ]
    | inr e ↦ simp e k
  ]

  schedule-IsWellKept :
      (read : String → Option ℤ) (admin : String) (created : Answer String)
      → IsWellKept (serve read (scheduling admin created) l)
  unfolding serve schedule_listing schedule_check schedule_write
  schedule-IsWellKept read admin created = elim (Bool-cases (is_approved l.status)) [
    | inl e ↦ elim created as (λ c. IsWellKept (serve read (scheduling admin c) l)) [
      | done auction ↦
          simp e (record { chain = (refl, was_approved l.status l.history e k.chain); stage = tt })
      | refused m ↦ simp e k
    ]
    | inr e ↦ simp e k
  ]

serve-IsWellKept :
    (read : String → Option ℤ) (c : Call) (l : Listing) → IsWellKept l → IsWellKept (serve read c l)
serve-IsWellKept read (updated seller q) l k = update-IsWellKept l k read seller q
serve-IsWellKept read (resubmitted seller) l k = resubmit-IsWellKept l k read seller
serve-IsWellKept read (reviewed admin d feedback) l k = review-IsWellKept l k read admin d feedback
serve-IsWellKept read (scheduling admin created) l k = schedule-IsWellKept l k read admin created

run-IsWellKept :
    (read : String → Option ℤ) (cs : List Call) (l : Listing)
    → IsWellKept l
    → IsWellKept (serve_all read cs l)
unfolding serve_all
run-IsWellKept read [] l k = k
run-IsWellKept read (c ∷ cs) l k =
    run-IsWellKept read cs (serve read c l) (serve-IsWellKept read c l k)

abbrev Kept : Answer Listing → Type 0
Kept (done l) = IsWellKept l
Kept (refused e) = Unit

create_listing-Kept :
    (read : String → Option ℤ) (seller : String) (q : Payload) → Kept (create_listing read seller q)
unfolding create_listing
create_listing-Kept read seller q = inserted-Kept (details_of read q)
  where
    inserted-Kept : (d : Answer Details) → Kept (inserted seller d)
    inserted-Kept (done d) = record { chain = (refl, tt); stage = tt }
    inserted-Kept (refused e) = tt

-- From the creation of a listing on, calls that do not overlap keep its history a chain: each event
-- starts where the one before it led, the first from nothing, and the last leads to the status. The
-- listing has an auction exactly when it is scheduled, and it is never a draft, under review or
-- cancelled.
pub serve_all-IsWellKept :
    (read : String → Option ℤ) (seller : String) (q : Payload) (calls : List Call) (l : Listing)
    → create_listing read seller q ≡ done l
    → IsWellKept (serve_all read calls l)
serve_all-IsWellKept read seller q calls l e =
    run-IsWellKept read calls l (subst Kept e (create_listing-Kept read seller q))

-- A status that no call starts from: rejected, scheduled or cancelled.
abbrev pub IsFinal : ListingStatus → Type 0
IsFinal s = (is_editable s ≡ false) × (is_reviewable s ≡ false) × (is_approved s ≡ false)

serve-final :
    (read : String → Option ℤ) (c : Call) (l : Listing) → IsFinal l.status → serve read c l ≡ l
unfolding serve update_listing resubmit_listing review_listing schedule_listing schedule_check
    may_edit
serve-final read (updated seller q) l (e, f, g) =
    ap (λ b. after l (written seller l (details_of read q) b)) (shut (str_eq l.seller_id seller) e)
    ∙ kept (details_of read q)
  where
    shut : (own : Bool) → is_editable l.status ≡ false → (own && is_editable l.status) ≡ false
    shut own e = ground (arith, e)

    kept : (d : Answer Details) → after l (written seller l d false) ≡ l
    kept (refused m) = refl
    kept (done d) = refl
serve-final read (resubmitted seller) l (e, f, g) = ground (arith, e)
serve-final read (reviewed admin d feedback) l (e, f, g) = ground (arith, f)
serve-final read (scheduling admin created) l (e, f, g) = simp g refl

-- No call changes a listing that has been rejected, scheduled or cancelled.
pub serve_all-final :
    (read : String → Option ℤ) (calls : List Call) (l : Listing)
    → IsFinal l.status
    → serve_all read calls l ≡ l
unfolding serve_all
serve_all-final read [] l h = refl
serve_all-final read (c ∷ calls) l h = rw (serve-final read c l h) (serve_all-final read calls l h)
