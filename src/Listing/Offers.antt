-- ===== src/Listing/Offers.antt =====
-- That the pages offer what the server accepts
-- (apps/web/app/sell/[id]/edit/page.tsx, components/admin/ListingReviewQueue.tsx).
use reverse_auction.Common.{
  Bool, true, false, ◌&&◌, ◌≡◌, ◌↔◌, refl, sym, inl, inr, Option, none, some, String, ℤ,
  if◌then◌else◌, Bool-cases,
}
use reverse_auction.Listing.{
  ListingStatus, draft, submitted, under_review, changes_requested, approved, rejected, scheduled,
  cancelled, Listing, Answer, done, refused, is_editable, Decision, is_reviewable, is_explained,
  review_listing, is_approved, schedule_check, schedule_listing,
}
use reverse_auction.Listing.Pages.{
  Edit, can_be_edited, not_editable, form, edit_view, Draft, Queue, shows_review, shows_schedule,
  feedback_of, review, schedule_auction, dates_of, is_empty,
}

abbrev pub is_done : {A : Type 0} → Answer A → Bool
is_done (done a) = true
is_done (refused e) = false

shows_review-is_reviewable : (s : ListingStatus) → is_reviewable s ≡ shows_review s
unfolding is_reviewable shows_review
shows_review-is_reviewable draft = refl
shows_review-is_reviewable submitted = refl
shows_review-is_reviewable under_review = refl
shows_review-is_reviewable changes_requested = refl
shows_review-is_reviewable approved = refl
shows_review-is_reviewable rejected = refl
shows_review-is_reviewable scheduled = refl
shows_review-is_reviewable cancelled = refl

shows_schedule-is_approved : (s : ListingStatus) → is_approved s ≡ shows_schedule s
unfolding is_approved shows_schedule
shows_schedule-is_approved draft = refl
shows_schedule-is_approved submitted = refl
shows_schedule-is_approved under_review = refl
shows_schedule-is_approved changes_requested = refl
shows_schedule-is_approved approved = refl
shows_schedule-is_approved rejected = refl
shows_schedule-is_approved scheduled = refl
shows_schedule-is_approved cancelled = refl

can_be_edited-is_editable : (s : ListingStatus) → is_editable s ≡ can_be_edited s
unfolding is_editable can_be_edited
can_be_edited-is_editable draft = refl
can_be_edited-is_editable submitted = refl
can_be_edited-is_editable under_review = refl
can_be_edited-is_editable changes_requested = refl
can_be_edited-is_editable approved = refl
can_be_edited-is_editable rejected = refl
can_be_edited-is_editable scheduled = refl
can_be_edited-is_editable cancelled = refl

review_shown :
    (admin id : String) (d : Decision) (q : Queue) (l : Listing)
    → is_done (review admin id d q l) ≡ (shows_review l.status && is_explained d (feedback_of id q))
unfolding review review_listing
review_shown admin id d q l =
    rw (sym (shows_review-is_reviewable l.status))
      (elim (Bool-cases (is_explained d (feedback_of id q))) [
        | inl e ↦ elim (Bool-cases (is_reviewable l.status)) [
          | inl h ↦ rw (e, h) refl
          | inr h ↦ rw (e, h) refl
        ]
        | inr e ↦ elim (Bool-cases (is_reviewable l.status)) [
          | inl h ↦ rw (e, h) refl
          | inr h ↦ rw (e, h) refl
        ]
      ])

-- The queue shows the three buttons for a listing exactly when the server accepts a decision about
-- it, given a feedback that is not blank or an approval; and it shows the form for the schedule exactly
-- when the server schedules the listing, given two dates and that the auction is created.
pub review-shows_review :
    (admin id : String) (d : Decision) (q : Queue) (l : Listing)
    → (is_done (review admin id d q l)
        ≡ (shows_review l.status && is_explained d (feedback_of id q)))
      × ((read_time : String → Option ℤ) (create : ℤ → ℤ → Answer String) (start end : ℤ)
            (auction : String)
          → is_empty (dates_of id q).0 ≡ false
          → is_empty (dates_of id q).1 ≡ false
          → read_time (dates_of id q).0 ≡ some start
          → read_time (dates_of id q).1 ≡ some end
          → create start end ≡ done auction
          → is_done (schedule_auction read_time create admin id q l) ≡ shows_schedule l.status)
unfolding schedule_auction schedule_listing schedule_check
review-shows_review admin id d q l = (
  review_shown admin id d q l,
  λ read_time create start end auction a b s t c.
      rw (a, b, s, t, c, sym (shows_schedule-is_approved l.status))
        (elim (Bool-cases (is_approved l.status)) [ inl h ↦ rw h refl | inr h ↦ rw h refl ]),
)

-- The edit page shows its form for a loaded listing exactly in the statuses in which the server lets
-- the seller change it.
shown_form : (b : Bool) → (if b then form else not_editable) ≡ form → b ≡ true
shown_form true e = refl
shown_form false e = cc

pub edit_view-is_editable :
    (s : ListingStatus) (d : Draft) (error : String)
    → let p : Edit = record { listing = some (s, d); error = error; location = none } in
      (edit_view false p ≡ form) ↔ (is_editable s ≡ true)
unfolding edit_view
edit_view-is_editable s d error =
    rw (can_be_edited-is_editable s) (shown_form (can_be_edited s), λ e. rw e refl)
