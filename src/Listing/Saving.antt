-- ===== src/Listing/Saving.antt =====
-- What is left when the edit page saves a listing, with its two requests and the calls of others that
-- may come between them (apps/web/app/sell/[id]/edit/page.tsx).
use text.Mathlib.TextEquality.{eq_iff}
use mathlib.Core.Path.{subst}
use reverse_auction.Common.{
  Bool, true, false, ◌≡◌, ◌⊎◌, refl, sym, ap, ◌∙◌, inl, inr, Option, none, some, List, String,
  str_eq, ℤ, Bool-cases, Option-cases,
}
use reverse_auction.Listing.{
  ListingStatus, submitted, Payload, Listing, Answer, done, refused, is_editable, may_edit,
  update_listing, resubmit_listing, Call, after, serve_all,
}
use reverse_auction.Listing.Pages.{
  ends, fail, Draft, Edit, body_of, Delivery, answered, lost_request, lost_answer, send,
  and_resubmit, save,
}
use reverse_auction.Listing.Readings.{
  Editable, own_editable, is_editable-Editable, Editable-is_editable,
}
use reverse_auction.Listing.Accepted.{Accepted, done-Accepted, Acceptable-done}

-- The server still lets the seller change the listing.
abbrev pub MayResubmit : String → Listing → Type 0
MayResubmit seller n = (n.seller_id ≡ seller) × Editable n.status

-- The listing is in the queue again, without feedback, and with what it held.
pub record Resubmitted (n m : Listing) : Type 0 where
  pub status : m.status ≡ submitted
  pub admin_feedback : m.admin_feedback ≡ none
  pub details : m.details ≡ n.details
  pub seller_id : m.seller_id ≡ n.seller_id

-- What came of the second request to the listing `n`, when the page goes and when it stays.
abbrev pub Sent : String → Delivery → (n after : Listing) → Type 0
Sent seller second n after = (second ≡ answered) × MayResubmit seller n × Resubmitted n after

abbrev pub Unsent : String → Delivery → (n after : Listing) → Type 0
Unsent seller second n after =
    ((MayResubmit seller n → ⊥) × (after ≡ n))
    ⊎ ((error : String) × (second ≡ lost_request error) × (after ≡ n))
    ⊎ ((error : String) × (second ≡ lost_answer error) × MayResubmit seller n × Resubmitted n after)

may-MayResubmit : (seller : String) (n : Listing) → may_edit seller n ≡ true → MayResubmit seller n
unfolding is_editable
may-MayResubmit seller n e =
    let (own, editable) = own_editable (str_eq n.seller_id seller) (is_editable n.status) e in
    ((eq_iff n.seller_id seller).0 own, is_editable-Editable n.status editable)

MayResubmit-may : (seller : String) (n : Listing) → MayResubmit seller n → may_edit seller n ≡ true
unfolding may_edit
MayResubmit-may seller n (own, editable) =
    rw ((eq_iff n.seller_id seller).1 own, Editable-is_editable n.status editable) refl

refuse : (seller : String) (n : Listing) → may_edit seller n ≡ false → MayResubmit seller n → ⊥
refuse seller n h may = let g = MayResubmit-may seller n may in cc

module _ (seller : String) (n : Listing) (p : Edit) where
  abbrev second_result : Delivery → Listing × Edit
  second_result second =
      ends p (send second "Could not resubmit listing" n (resubmit_listing seller n))

  second-Sent :
      (second : Delivery)
      → (((second_result second).1.location ≡ some "/seller/dashboard")
          × Sent seller second n (second_result second).0)
        ⊎ (((second_result second).1.location ≡ p.location)
            × Unsent seller second n (second_result second).0)
  unfolding resubmit_listing
  second-Sent (lost_request e) = inr (refl, inr (inl (e, refl, refl)))
  second-Sent (lost_answer e) = elim (Bool-cases (may_edit seller n)) [
    | inl h ↦ inr (
      refl,
      inr (
          inr (
            e,
            refl,
            may-MayResubmit seller n h,
            simp h
                (record { status = refl; admin_feedback = refl; details = refl; seller_id = refl }),
          )),
    )
    | inr h ↦ inr (refl, inl (refuse seller n h, simp h refl))
  ]
  second-Sent answered = elim (Bool-cases (may_edit seller n)) [
    | inl h ↦ inl (
      simp h refl,
      (
        refl,
        may-MayResubmit seller n h,
        simp h (record { status = refl; admin_feedback = refl; details = refl; seller_id = refl }),
      ),
    )
    | inr h ↦ inr (simp h refl, inl (refuse seller n h, simp h refl))
  ]

-- How a saving of the form ends, by the listing of the server and the page after it.
-- The whole of it: the page goes to the dashboard.
abbrev pub Whole :
    (read : String → Option ℤ) (to_iso : String → Option String) (resubmit : Bool) (seller : String)
    → (first second : Delivery) → List Call
    → Draft
    → (l after : Listing) → Type 0
Whole read to_iso true seller first second between d l after =
    (m : Listing) × (first ≡ answered)
    × Accepted read to_iso seller d l m
    × Sent seller second (serve_all read between m) after
Whole read to_iso false seller first second between d l after =
    (first ≡ answered) × Accepted read to_iso seller d l after

-- The half: the form is stored, the second request fails and the page stays.
abbrev pub Half :
    (read : String → Option ℤ) (to_iso : String → Option String) (resubmit : Bool) (seller : String)
    → (first second : Delivery) → List Call
    → Draft
    → (l after : Listing) → Type 0
Half read to_iso resubmit seller first second between d l after =
    (m : Listing) × (resubmit ≡ true)
    × (first ≡ answered)
    × Accepted read to_iso seller d l m
    × Unsent seller second (serve_all read between m) after

-- No second request is made: the form is refused, or the first request or its answer is lost.
abbrev pub Failed :
    (read : String → Option ℤ) (to_iso : String → Option String) (seller : String)
    → (first : Delivery) → Draft
    → (l after : Listing) → Type 0
Failed read to_iso seller first d l after =
    (((m : Listing) → Accepted read to_iso seller d l m → ⊥) × (after ≡ l))
    ⊎ ((error : String) × (first ≡ lost_request error) × (after ≡ l))
    ⊎ ((error : String) × (first ≡ lost_answer error) × Accepted read to_iso seller d l after)

module _ (read : String → Option ℤ) (to_iso : String → Option String) (seller : String)
    (second : Delivery) (between : List Call) (s : ListingStatus) (d : Draft) (error : String)
    (l : Listing) where
  abbrev pub page : Edit
  page = record { listing = some (s, d); error = error; location = none }

  abbrev pub Ending : (resubmit : Bool) → (first : Delivery) → Listing × Edit → Type 0
  Ending resubmit first r =
      ((r.1.location ≡ some "/seller/dashboard")
        × Whole read to_iso resubmit seller first second between d l r.0)
      ⊎ ((r.1.location ≡ none)
          × (Half read to_iso resubmit seller first second between d l r.0
              ⊎ Failed read to_iso seller first d l r.0))

  not-Accepted :
      (q : Payload) (e : String)
      → body_of to_iso d ≡ some q
      → update_listing read seller q l ≡ refused e
      → (m : Listing) → Accepted read to_iso seller d l m
      → ⊥
  not-Accepted q e b h m (start, end, a, kept) =
      let (q', m', b', h') = Acceptable-done read to_iso seller d l start end a in
      let f : q ≡ q' = same (sym b ∙ b') in
      clash (sym h ∙ ap (λ x. update_listing read seller x l) f ∙ h')
    where
      same : {x y : Payload} → some x ≡ some y → x ≡ y
      same e = cc

      clash : {m : Listing} → refused e ≡ done m → ⊥
      clash e = cc

  no_body : body_of to_iso d ≡ none → (m : Listing) → Accepted read to_iso seller d l m → ⊥
  no_body b m (start, end, a, kept) =
      let (q, m', b', h) = Acceptable-done read to_iso seller d l start end a in cc

  -- What follows the first request, once the form is stored.
  stored-Ending :
      (resubmit : Bool) (m : Listing)
      → Accepted read to_iso seller d l m
      → Ending resubmit answered (and_resubmit read resubmit seller second between page (m, none))
  unfolding and_resubmit
  stored-Ending false m a = inl (refl, (refl, a))
  stored-Ending true m a = elim (second-Sent seller (serve_all read between m) page second) [
    | inl (gone, all_sent) ↦ inl (gone, (m, refl, a, all_sent))
    | inr (stays, unsent) ↦ inr (stays, inl (m, refl, refl, a, unsent))
  ]

  first-Ending :
      (resubmit : Bool) (q : Payload) (first : Delivery) (x : Answer Listing)
      → body_of to_iso d ≡ some q
      → update_listing read seller q l ≡ x
      → Ending resubmit first (
          and_resubmit read resubmit seller second between page
            (send first "Could not update listing" l x))
  unfolding and_resubmit
  first-Ending resubmit q answered (done m) b h =
      stored-Ending resubmit m (done-Accepted read to_iso seller d l q m b h)
  first-Ending resubmit q answered (refused e) b h =
      inr (refl, inr (inl (not-Accepted q e b h, refl)))
  first-Ending resubmit q (lost_request e) x b h = inr (refl, inr (inr (inl (e, refl, refl))))
  first-Ending resubmit q (lost_answer e) (done m) b h =
      inr (refl, inr (inr (inr (e, refl, done-Accepted read to_iso seller d l q m b h))))
  first-Ending resubmit q (lost_answer e) (refused m) b h =
      inr (refl, inr (inl (not-Accepted q m b h, refl)))

  not_requested :
      (resubmit : Bool) (first : Delivery)
      → body_of to_iso d ≡ none
      → save read to_iso resubmit seller first second between page l
        ≡ (l, fail "Invalid time value" page)
  unfolding save
  not_requested resubmit first b = rw (save, b) refl

  requested :
      (resubmit : Bool) (first : Delivery) (q : Payload)
      → body_of to_iso d ≡ some q
      → save read to_iso resubmit seller first second between page l
        ≡ and_resubmit read resubmit seller second between page
            (send first "Could not update listing" l (update_listing read seller q l))
  unfolding save
  requested resubmit first q b = rw (save, b) refl

  -- Saving a form whose page has not gone anywhere ends in one of three ways. The page goes to the
  -- dashboard exactly if the first request is answered and the server accepts the form, whose dates can be read,
  -- and, where the listing is sent back for review, the second request is answered too and the seller
  -- may still change the listing after the calls that were served between. The form was then stored,
  -- and a listing sent back is in the queue, without feedback. If only the second request fails, the
  -- form was stored but the page stays, and the listing is as the calls between left it, or in the
  -- queue if the answer was lost. Else the page stays and nothing has changed, but where the answer to
  -- a first request that the server accepted was lost: the form is then stored.
  pub save-Ending :
      (resubmit : Bool) (first : Delivery)
      → Ending resubmit first (save read to_iso resubmit seller first second between page l)
  save-Ending resubmit first = elim (Option-cases (body_of to_iso d)) [
    | inl b ↦
        subst (Ending resubmit first) (sym (not_requested resubmit first b))
          (inr (refl, inr (inl (no_body b, refl))))
    | inr (q, b) ↦
        subst (Ending resubmit first) (sym (requested resubmit first q b))
          (first-Ending resubmit q first (update_listing read seller q l) b refl)
  ]
