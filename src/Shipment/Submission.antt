-- ===== src/Shipment/Submission.antt =====
-- Which shipments NewShipmentForm.tsx lets through, and what is sent for them.
use text.Mathlib.TextEquality.{eq_iff}
use reverse_auction.Common.{
  ◌*◌, ◌≡◌, ◌≢◌, ◌↔◌, refl, sym, ap, ◌∙◌, inl, inr, ◌⊎◌, Bool, true, false, Option, none, some,
  List, String, ℤ, pos, ◌-ℤ◌, ◌≤ℤ◌, arith, -ℤ_parts, ltb_ℤ, leb_ℤ, str_eq, ne_of_str_eq, Bool-cases,
  Option-cases,
}
use reverse_auction.LocalTime.{parse_local_time}
use reverse_auction.Media.{File}
use reverse_auction.Shipment.{ShipmentFormData}
use reverse_auction.Shipment.Described.{Stored, Describes, upload_all-Stored, payload_of-Describes}
use reverse_auction.Shipment.Sending.{
  Payload, Answer, created, refused, Result, sent, failed, Check, complain, mutate, check,
  check_times, check_window, FormState, publish, upload_all, payload_of, handle_submit, uploaded,
  dated, result_of, settle,
}

abbrev pub start_lead : ℤ
start_lead = pos (3 * 60 * 1000)

abbrev pub least_duration : ℤ
least_duration = pos (5 * 60 * 1000)

-- The conditions of a shipment that is let through.
pub record IsPostable (offset now : ℤ) (f : ShipmentFormData) : Type 0 where
  pub pickup : f.pickup_date ≢ ""
  pub start : ℤ
  pub end : ℤ
  pub starts : parse_local_time offset f.auction_start_time ≡ some start
  pub ends : parse_local_time offset f.auction_end_time ≡ some end
  pub in_time : start_lead ≤ℤ (start -ℤ now)
  pub long_enough : least_duration ≤ℤ (end -ℤ start)

check_window_iff :
    (now start end : ℤ)
    → (check_window now start end ≡ mutate)
      ↔ ((start_lead ≤ℤ (start -ℤ now)) × (least_duration ≤ℤ (end -ℤ start)))
check_window_iff now start end = ground (arith, -ℤ_parts end start)

-- `mutate` after the window's check.
check-IsPostable :
    (offset now : ℤ) (f : ShipmentFormData) → check offset now f ≡ mutate → IsPostable offset now f
unfolding check
check-IsPostable offset now f e = elim (Bool-cases (str_eq f.pickup_date "")) [
  | inl empty ↦ absurd (quiet (rw empty at e))
  | inr given ↦ elim (Option-cases (parse_local_time offset f.auction_start_time)) [
    | inl bad ↦ absurd (silent (rw (given, bad, check_times) at e))
    | inr (start, starts) ↦ elim (Option-cases (parse_local_time offset f.auction_end_time)) [
      | inl bad ↦ absurd (silent (rw (given, starts, bad, check_times) at e))
      | inr (end, ends) ↦
          let (in_time, long_enough) =
            (check_window_iff now start end).0 (rw (given, starts, ends) at e) in
          record {
            pickup = ne_of_str_eq f.pickup_date "" given;
            start = start;
            end = end;
            starts = starts;
            ends = ends;
            in_time = in_time;
            long_enough = long_enough;
          }
    ]
  ]
]
  where
    quiet : complain "Please provide a pickup date." ≡ mutate → ⊥
    quiet e = cc

    silent : complain "Please provide valid auction start and end times." ≡ mutate → ⊥
    silent e = cc

IsPostable-check :
    (offset now : ℤ) (f : ShipmentFormData) → IsPostable offset now f → check offset now f ≡ mutate
unfolding check
IsPostable-check offset now f p =
    let given : str_eq f.pickup_date "" ≡ false =
      not_empty_of (str_eq f.pickup_date "") (λ e. p.pickup ((eq_iff f.pickup_date "").0 e)) in
    rw (given, p.starts, p.ends) ((check_window_iff now p.start p.end).1 (p.in_time, p.long_enough))
  where
    not_empty_of : (b : Bool) → (b ≡ true → ⊥) → b ≡ false
    not_empty_of true n = absurd (n refl)
    not_empty_of false n = refl

-- A submit starts the mutation exactly when there is a pickup date, both times are valid, the start
-- is three minutes ahead or more, and the auction runs for five minutes or more.
pub check_iff :
    (offset now : ℤ) (f : ShipmentFormData)
    → (check offset now f ≡ mutate) ↔ IsPostable offset now f
check_iff offset now f = (check-IsPostable offset now f, IsPostable-check offset now f)

abbrev pub order_message : String
order_message = "Auction end time must be after the start time."

abbrev message_of : Check → String
message_of (complain message) = message
message_of mutate = ""

-- Two checks whose messages differ are different.
apart : (c d : Check) → str_eq (message_of c) (message_of d) ≡ false → c ≢ d
apart c d n e = clash (sym n ∙ (eq_iff (message_of c) (message_of d)).1 (ap message_of e))
  where
    clash : false ≡ true → ⊥
    clash e = cc

check_window-ne-order : (now start end : ℤ) → check_window now start end ≢ complain order_message
check_window-ne-order now start end e = elim (Bool-cases (ltb_ℤ (start -ℤ now) start_lead)) [
  | inl soon ↦ apart _ (complain order_message) refl (rw soon at e)
  | inr later ↦ elim (Bool-cases (ltb_ℤ (end -ℤ start) least_duration)) [
    | inl brief ↦ apart _ (complain order_message) refl (rw (later, brief) at e)
    | inr long ↦
        let ordered : leb_ℤ end start ≡ false = ground (arith, long, -ℤ_parts end start) in
        apart mutate (complain order_message) refl (rw (later, long, ordered) at e)
  ]
]

-- The check of the order of the two times comes after that of the duration, so no submit ever
-- says that the end must be after the start.
pub check-ne-order :
    (offset now : ℤ) (f : ShipmentFormData) → check offset now f ≢ complain order_message
unfolding check
check-ne-order offset now f e = elim (Bool-cases (str_eq f.pickup_date "")) [
  | inl empty ↦ apart _ (complain order_message) refl (rw empty at e)
  | inr given ↦ elim (Option-cases (parse_local_time offset f.auction_start_time)) [
    | inl bad ↦ apart _ (complain order_message) refl (rw (given, bad, check_times) at e)
    | inr (start, starts) ↦ elim (Option-cases (parse_local_time offset f.auction_end_time)) [
      | inl bad ↦ apart _ (complain order_message) refl (rw (given, starts, bad, check_times) at e)
      | inr (end, ends) ↦ check_window-ne-order now start end (rw (given, starts, ends) at e)
    ]
  ]
]

-- What a shipment that was posted went through.
pub record IsPosted (upload : File → Option String) (create : Payload → Answer)
    (read_date : String → Option ℤ) (offset now : ℤ) (s : FormState) : Type 0 where
  pub checked : IsPostable offset now s.form
  pub urls : List String
  pub uploads : Stored upload s.gallery.media urls
  pub pickup : ℤ
  pub dated : read_date s.form.pickup_date ≡ some pickup
  pub payload : Payload
  pub describes : Describes s.form urls pickup checked.start checked.end payload
  pub accepted : create payload ≡ created

result_of-sent : (a : Answer) → result_of a ≡ sent → a ≡ created
result_of-sent created e = refl
result_of-sent (refused m) e = cc

success_of_sent : (r : Result) (s : FormState) → (settle r s).form_success ≢ "" → r ≡ sent
success_of_sent sent s n = refl
success_of_sent (failed m) s n = absurd (n refl)

module _ (upload : File → Option String) (create : Payload → Answer) (read_date : String → Option ℤ)
    (offset now : ℤ) (s : FormState) where
  uploaded-sent :
      (urls : Option (List String)) (p : IsPostable offset now s.form)
      → uploaded create read_date offset s.form urls ≡ sent
      → upload_all upload s.gallery.media ≡ urls
      → IsPosted upload create read_date offset now s
  uploaded-sent none p e u = cc
  uploaded-sent (some urls) p e u = elim (Option-cases (read_date s.form.pickup_date)) [
    | inl bad ↦ absurd (threw (rw (bad, dated) at e))
    | inr (pickup, d) ↦ record {
      checked = p;
      urls = urls;
      uploads = upload_all-Stored upload s.gallery.media urls u;
      pickup = pickup;
      dated = d;
      payload = payload_of s.form urls pickup p.start p.end;
      describes = payload_of-Describes s.form urls pickup p.start p.end;
      accepted = result_of-sent _ (rw (d, p.starts, p.ends, dated) at e);
    }
  ]
    where
      threw : failed "Invalid time value" ≡ sent → ⊥
      threw e = cc

  -- A submit reports success only if every check passed, every file was stored, the pickup date can be
  -- read, and the server created the auction from a payload that describes the form: with the start
  -- and the end that the form's texts give, the pickup date as both of its dates, the URLs of the files
  -- in their order or null for no file, and each other field the form's, or its default or null where
  -- that is empty, zero or no number.
  pub handle_submit-IsPosted :
      (handle_submit upload create read_date offset now s).form_success ≢ ""
      → IsPosted upload create read_date offset now s
  unfolding handle_submit publish
  handle_submit-IsPosted n = elim (Check_cases (check offset now s.form)) [
    | inl e ↦
        let cleared = record s { form_error = ""; form_success = "" } in
        uploaded-sent (upload_all upload s.gallery.media) (check-IsPostable offset now s.form e)
          (success_of_sent
            (uploaded create read_date offset s.form (upload_all upload s.gallery.media)) cleared
            (rw e at n))
          refl
    | inr (m, e) ↦ absurd (rw e at n refl)
  ]
    where
      Check_cases : (c : Check) → (c ≡ mutate) ⊎ ((m : String) × (c ≡ complain m))
      Check_cases mutate = inl refl
      Check_cases (complain m) = inr (m, refl)
