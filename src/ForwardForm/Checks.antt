-- ===== src/ForwardForm/Checks.antt =====
-- Which forward auctions NewForwardAuctionForm.tsx posts.
use reverse_auction.Common.{
  ◌*◌, ◌≡◌, ◌≢◌, refl, inl, inr, ◌⊎◌, Option, none, some, List, String, ℤ, pos, ◌-ℤ◌, ◌≤ℤ◌, arith,
  ltb_ℤ, str_eq, Bool-cases,
}
use reverse_auction.LocalTime.{parse_local_time}
use reverse_auction.Media.{File}
use reverse_auction.Shipment.Sending.{
  Answer, created, refused, Result, sent, failed, upload_all, result_of, Check, complain, mutate,
}
use reverse_auction.ForwardForm.{
  ForwardAuctionFormData, Payload, payload_of, FormState, uploaded, dated, publish, settle, check,
  check_end, handle_submit,
}

-- What a forward auction that was posted went through: the checks at the clock `now`, the upload of
-- every file, and the server's creation from the payload of the clock `sent_at`.
pub record IsOnSale (upload : File → Option String) (create : Payload → Answer)
    (offset now sent_at : ℤ) (s : FormState) : Type 0 where
  pub end : ℤ
  pub ends : parse_local_time offset s.form.auction_end_date ≡ some end
  pub long_enough : pos (5 * 60 * 1000) ≤ℤ (end -ℤ now)
  pub urls : List String
  pub uploads : upload_all upload s.gallery.media ≡ some urls
  pub accepted : create (payload_of s.form urls sent_at end) ≡ created

ne_mutate : (m : String) → complain m ≢ mutate
ne_mutate m e = cc

check_end-mutate :
    (now : ℤ) (o : Option ℤ)
    → check_end now o ≡ mutate
    → (end : ℤ) × (o ≡ some end) × (pos (5 * 60 * 1000) ≤ℤ (end -ℤ now))
check_end-mutate now none e = absurd (ne_mutate _ e)
check_end-mutate now (some end) e = elim (Bool-cases (ltb_ℤ (end -ℤ now) (pos (5 * 60 * 1000)))) [
  | inl short ↦ absurd (ne_mutate _ (rw short at e))
  | inr long ↦ (end, refl, ground (arith, long))
]

check-mutate :
    (offset now : ℤ) (f : ForwardAuctionFormData)
    → check offset now f ≡ mutate
    → (end : ℤ) × (parse_local_time offset f.auction_end_date ≡ some end)
      × (pos (5 * 60 * 1000) ≤ℤ (end -ℤ now))
unfolding check
check-mutate offset now f e = elim (Bool-cases (str_eq f.auction_end_date "")) [
  | inl empty ↦ absurd (ne_mutate _ (rw empty at e))
  | inr given ↦ check_end-mutate now (parse_local_time offset f.auction_end_date) (rw given at e)
]

result_of-sent : (a : Answer) → result_of a ≡ sent → a ≡ created
result_of-sent created e = refl
result_of-sent (refused m) e = cc

success_of_sent : (r : Result) (s : FormState) → (settle r s).form_success ≢ "" → r ≡ sent
success_of_sent sent s n = refl
success_of_sent (failed m) s n = absurd (n refl)

module _ (upload : File → Option String) (create : Payload → Answer) (offset now sent_at : ℤ)
    (s : FormState) where
  uploaded-sent :
      (urls : Option (List String)) (end : ℤ)
      → parse_local_time offset s.form.auction_end_date ≡ some end
      → pos (5 * 60 * 1000) ≤ℤ (end -ℤ now)
      → uploaded create offset sent_at s.form urls ≡ sent
      → upload_all upload s.gallery.media ≡ urls
      → IsOnSale upload create offset now sent_at s
  uploaded-sent none end p l e u = cc
  uploaded-sent (some urls) end p l e u = record {
    end = end;
    ends = p;
    long_enough = l;
    urls = urls;
    uploads = u;
    accepted = result_of-sent _ (rw (p, dated) at e);
  }

  -- Where no success was on show before, a submit reports one only if the end is valid and five
  -- minutes or more after the clock of the check, every file was uploaded, and the server created
  -- the auction from the payload of the form.
  pub handle_submit-IsOnSale :
      s.form_success ≡ ""
      → (handle_submit upload create offset now sent_at s).form_success ≢ ""
      → IsOnSale upload create offset now sent_at s
  unfolding handle_submit publish
  handle_submit-IsOnSale quiet n = elim (Check_cases (check offset now s.form)) [
    | inl e ↦
        let (end, ends, long) = check-mutate offset now s.form e in
        uploaded-sent (upload_all upload s.gallery.media) end ends long
          (success_of_sent
            (uploaded create offset sent_at s.form (upload_all upload s.gallery.media)) s
            (rw e at n))
          refl
    | inr (m, e) ↦ absurd (rw e at n quiet)
  ]
    where
      Check_cases : (c : Check) → (c ≡ mutate) ⊎ ((m : String) × (c ≡ complain m))
      Check_cases mutate = inl refl
      Check_cases (complain m) = inr (m, refl)

  -- A check that fails leaves a success of an earlier auction on show beside the error.
  pub handle_submit_stale :
      (m : String)
      → check offset now s.form ≡ complain m
      → ((handle_submit upload create offset now sent_at s).form_success ≡ s.form_success)
        × ((handle_submit upload create offset now sent_at s).form_error ≡ m)
  unfolding handle_submit
  handle_submit_stale m e = rw e (refl, refl)
