-- ===== src/LocalTime/RoundTrip.antt =====
-- The local times that the shipment form writes, and `parseLocalTime` of them.
use Prim.Native.String.{String, [], ◌∷◌, count}
use text.Mathlib.TextEquality.{eq_iff}
use text.Mathlib.TextLemmas.{nil-append, cons-append, append-ne-nil_of_right_ne-nil}
use reverse_auction.Common.{
  ℕ, ◌+◌, ◌/◌, ◌%◌, ◌≡◌, ◌≢◌, refl, ap, ◌∙◌, arith, leb, false, Option, some, [], ◌∷◌, ◌+s◌,
  IsDigits, IsDigits-append, show_ℕ, show_ℕ-IsDigits, show_ℕ-ne-nil, value_from, value_from-append,
  value_from-show_ℕ, Bool-cases, inl, inr, str_eq, ℤ, pos, pos_part, ◌+ℤ◌, ◌≤ℤ◌, get_elem?,
}
use reverse_auction.Numeric.{to_number}
use reverse_auction.Numeric.Whole.{to_number-digits}
use reverse_auction.Dates.{day_ms, time_clip, make_local, local_of, year_of, month_of, date_of}
use reverse_auction.Dates.Local.{make_local-local_of}
use reverse_auction.LocalTime.{
  pieces, whole, number_at, make, from_parts, from_pieces, parse_local_time, pad, format_local_time,
}
use reverse_auction.LocalTime.Pieces.{
  Lacks, Lacks-append, IsDigits-Lacks, IsDigits-Lacks_above, pieces_whole, pieces-append,
}

-- A text that writes the number `n` in digits.
record Writes (n : ℕ) (s : String) : Type 0 where
  digits : IsDigits s
  ne_nil : s ≢ ""
  value : value_from 0 s ≡ n

show_ℕ-Writes : (n : ℕ) → Writes n (show_ℕ n)
show_ℕ-Writes n = record {
  digits = show_ℕ-IsDigits n;
  ne_nil = show_ℕ-ne-nil n;
  value = value_from-show_ℕ n;
}

zero_Writes : (n : ℕ) (s : String) → Writes n s → Writes n ("0" +s s)
unfolding value_from
zero_Writes n s w = record {
  digits = IsDigits-append "0" s (omega arith) w.digits;
  ne_nil = append-ne-nil_of_right_ne-nil "0" w.ne_nil;
  value = value_from-append 0 "0" s ∙ w.value;
}

pad-Writes : (n : ℕ) → Writes n (pad n)
pad-Writes n = elim (Bool-cases (leb 2 (count (show_ℕ n)))) [
  | inl long ↦ rw long (show_ℕ-Writes n)
  | inr short ↦ rw short (zero_Writes n (show_ℕ n) (show_ℕ-Writes n))
]

whole-Writes : (n : ℕ) (s : String) → Writes n s → whole (to_number s) ≡ some n
whole-Writes n s w =
    ap whole (to_number-digits s w.digits w.ne_nil) ∙ ap some (omega (arith, w.value))

pieces_dash : (s r : String) → IsDigits s → pieces b'-' (s +s ("-" +s r)) ≡ s ∷ pieces b'-' r
pieces_dash s r h =
    rw (cons-append, nil-append)
      (pieces-append b'-' s "-" r (IsDigits-Lacks b'-' s (omega arith) h) refl)

pieces_colon : (s r : String) → IsDigits s → pieces b':' (s +s (":" +s r)) ≡ s ∷ pieces b':' r
pieces_colon s r h =
    rw (cons-append, nil-append)
      (pieces-append b':' s ":" r (IsDigits-Lacks_above b':' s (omega arith) h) refl)

pieces_t : (s r : String) → Lacks b'T' s → pieces b'T' (s +s ("T" +s r)) ≡ s ∷ pieces b'T' r
pieces_t s r h = rw (cons-append, nil-append) (pieces-append b'T' s "T" r h refl)

module _ (offset : ℤ) (y m d h i : ℕ) (sy sm sd sh si : String) (wy : Writes y sy)
    (wm : Writes m sm) (wd : Writes d sd) (wh : Writes h sh) (wi : Writes i si) where
  date_text : String
  date_text = sy +s "-" +s sm +s "-" +s sd

  time_text : String
  time_text = sh +s ":" +s si

  date_pieces : pieces b'-' date_text ≡ sy ∷ sm ∷ sd ∷ []
  unfolding date_text
  date_pieces =
      pieces_dash sy (sm +s "-" +s sd) wy.digits
      ∙ ap (λ ps. sy ∷ ps)
          (pieces_dash sm sd wm.digits
            ∙ ap (λ ps. sm ∷ ps)
                (pieces_whole b'-' sd (IsDigits-Lacks b'-' sd (omega arith) wd.digits)))

  time_pieces : pieces b':' time_text ≡ sh ∷ si ∷ []
  unfolding time_text
  time_pieces =
      pieces_colon sh si wh.digits
      ∙ ap (λ ps. sh ∷ ps)
          (pieces_whole b':' si (IsDigits-Lacks_above b':' si (omega arith) wi.digits))

  dash-Lacks : Lacks b'T' "-"
  dash-Lacks = (refl, tt)

  colon-Lacks : Lacks b'T' ":"
  colon-Lacks = (refl, tt)

  date-Lacks : Lacks b'T' date_text
  unfolding date_text
  date-Lacks =
      Lacks-append b'T' sy ("-" +s sm +s "-" +s sd)
        (IsDigits-Lacks_above b'T' sy (omega arith) wy.digits)
        (Lacks-append b'T' "-" (sm +s "-" +s sd) dash-Lacks (
          Lacks-append b'T' sm ("-" +s sd) (IsDigits-Lacks_above b'T' sm (omega arith) wm.digits) (
            Lacks-append b'T' "-" sd dash-Lacks
              (IsDigits-Lacks_above b'T' sd (omega arith) wd.digits))))

  time-Lacks : Lacks b'T' time_text
  unfolding time_text
  time-Lacks =
      Lacks-append b'T' sh (":" +s si) (IsDigits-Lacks_above b'T' sh (omega arith) wh.digits) (
        Lacks-append b'T' ":" si colon-Lacks (IsDigits-Lacks_above b'T' si (omega arith) wi.digits))

  text_pieces : pieces b'T' (date_text +s ("T" +s time_text)) ≡ date_text ∷ time_text ∷ []
  text_pieces =
      pieces_t date_text time_text date-Lacks
      ∙ ap (λ ps. date_text ∷ ps) (pieces_whole b'T' time_text time-Lacks)

  date-ne-nil : str_eq date_text "" ≡ false
  unfolding date_text
  date-ne-nil = elim (Bool-cases (str_eq date_text "")) [
    | inr e ↦ e
    | inl e ↦ absurd (
        append-ne-nil_of_right_ne-nil sy
          (append-ne-nil_of_right_ne-nil "-"
            (append-ne-nil_of_right_ne-nil sm (append-ne-nil_of_right_ne-nil "-" wd.ne_nil)))
          ((eq_iff date_text "").0 e))
  ]

  time-ne-nil : str_eq time_text "" ≡ false
  unfolding time_text
  time-ne-nil = elim (Bool-cases (str_eq time_text "")) [
    | inr e ↦ e
    | inl e ↦ absurd (
        append-ne-nil_of_right_ne-nil sh (append-ne-nil_of_right_ne-nil ":" wi.ne_nil)
          ((eq_iff time_text "").0 e))
  ]

  from_parts_lem : from_parts offset date_text time_text ≡ make_local offset y m d h i
  from_parts_lem =
      rw (date-ne-nil, time-ne-nil)
        (make_cong (ap (λ ps. number_at (get_elem? ps 0)) date_pieces ∙ whole-Writes y sy wy)
          (ap (λ ps. number_at (get_elem? ps 1)) date_pieces ∙ whole-Writes m sm wm)
          (ap (λ ps. number_at (get_elem? ps 2)) date_pieces ∙ whole-Writes d sd wd)
          (ap (λ ps. number_at (get_elem? ps 0)) time_pieces ∙ whole-Writes h sh wh)
          (ap (λ ps. number_at (get_elem? ps 1)) time_pieces ∙ whole-Writes i si wi))
    where
      make_cong :
          {a b c e f a' b' c' e' f' : Option ℕ}
          → a ≡ a'
          → b ≡ b'
          → c ≡ c'
          → e ≡ e'
          → f ≡ f'
          → make offset a b c e f ≡ make offset a' b' c' e' f'
      make_cong p q r s t = cc

  parsed : parse_local_time offset (date_text +s ("T" +s time_text)) ≡ make_local offset y m d h i
  unfolding parse_local_time
  parsed = ap (from_pieces offset) text_pieces ∙ from_parts_lem

-- What the form writes for an instant `t` is read back as `t`: for instants of 1970 or later in
-- local time, at whole minutes of local time, and beyond the range of `Date` as no instant.
pub parse_local_time-format_local_time :
    (offset t : ℤ)
    → pos 0 ≤ℤ (t +ℤ offset)
    → pos_part (t +ℤ offset) % 60000 ≡ 0
    → time_clip t ≡ some t
    → parse_local_time offset (format_local_time offset t) ≡ some t
unfolding format_local_time date_text time_text
parse_local_time-format_local_time offset t h k valid =
    let l = local_of offset t in
    rw valid (
      parsed offset (year_of (l / day_ms)) (month_of (l / day_ms) + 1) (date_of (l / day_ms))
        (l % day_ms / 3600000) (l % 3600000 / 60000) (show_ℕ (year_of (l / day_ms)))
        (pad (month_of (l / day_ms) + 1)) (pad (date_of (l / day_ms))) (pad (l % day_ms / 3600000))
        (pad (l % 3600000 / 60000)) (show_ℕ-Writes _) (pad-Writes _) (pad-Writes _) (pad-Writes _)
        (pad-Writes _)
      ∙ make_local-local_of offset t h k
      ∙ valid)
