-- ===== src/Shipment/Duration.antt =====
-- The buttons of NewShipmentForm.tsx that set how long the auction runs.
use text.Mathlib.TextEquality.{eq_iff}
use reverse_auction.Common.{
  ℕ, ◌+◌, ◌-◌, ◌*◌, ◌/◌, ◌%◌, ◌≡◌, refl, sym, ap, ◌∙◌, inl, inr, leb, Option, none, some, List, [],
  ◌∷◌, String, ℤ, pos, pos_part, neg_part, ◌+ℤ◌, ◌-ℤ◌, ◌≤ℤ◌, arith, +ℤ_parts, -ℤ_parts, str_eq,
  Bool-cases,
}
use reverse_auction.Dates.{epoch, day_ms, time_clip, make_local, month_start, full_year}
use reverse_auction.LocalTime.{parse_local_time, make, from_parts, from_pieces, pieces, field}
use reverse_auction.LocalTime.RoundTrip.{parse_local_time-format_local_time}
use reverse_auction.Shipment.{ShipmentFormData, set_auction_duration}

-- The instant is a whole number of minutes of local time.
abbrev IsWhole : ℤ → ℤ → Type 0
IsWhole offset t = pos 0 ≤ℤ (t +ℤ offset) → pos_part (t +ℤ offset) % 60000 ≡ 0

time_clip-some : (x t : ℤ) → time_clip x ≡ some t → x ≡ t
time_clip-some x t e = elim (Bool-cases (leb (pos_part x + neg_part x) 8640000000000000)) [
  | inl inside ↦ injective (rw inside at e)
  | inr outside ↦ absurd (clash (rw outside at e))
]
  where
    injective : some x ≡ some t → x ≡ t
    injective e = cc

    clash : none ≡ some t → ⊥
    clash e = cc

neg_part_of_natural : (a : ℤ) → pos 0 ≤ℤ a → neg_part a ≡ 0
neg_part_of_natural a k = ground (arith, k)

make_local-IsWhole :
    (offset : ℤ) (y m d h i : ℕ) (t : ℤ) → make_local offset y m d h i ≡ some t → IsWhole offset t
unfolding make_local
make_local-IsWhole offset y m d h i t e natural =
    let months = full_year y * 12 + m - 1 in
    let days = month_start (months / 12) (months % 12) + d in
    let c = (epoch + 1) * day_ms in
    let since = pos (days * day_ms + h * 3600000 + i * 60000) -ℤ pos c in
    let back : since -ℤ offset ≡ t = time_clip-some (since -ℤ offset) t e in
    omega (
      arith,
      ap pos_part back,
      ap neg_part back,
      -ℤ_parts (pos (days * day_ms + h * 3600000 + i * 60000)) (pos c),
      -ℤ_parts since offset,
      +ℤ_parts t offset,
      neg_part_of_natural (t +ℤ offset) natural,
    )

make-IsWhole :
    (offset : ℤ) (a b c d e : Option ℕ) (t : ℤ) → make offset a b c d e ≡ some t → IsWhole offset t
make-IsWhole offset (some y) (some m) (some d) (some h) (some i) t e =
    make_local-IsWhole offset y m d h i t e
make-IsWhole offset none b c d e t q = cc
make-IsWhole offset (some y) none c d e t q = cc
make-IsWhole offset (some y) (some m) none d e t q = cc
make-IsWhole offset (some y) (some m) (some d) none e t q = cc
make-IsWhole offset (some y) (some m) (some d) (some h) none t q = cc

from_parts-IsWhole :
    (offset : ℤ) (date time : String) (t : ℤ)
    → from_parts offset date time ≡ some t
    → IsWhole offset t
from_parts-IsWhole offset date time t e = elim (Bool-cases (str_eq date "")) [
  | inl empty ↦ absurd (clash (rw empty at e))
  | inr dated ↦ elim (Bool-cases (str_eq time "")) [
    | inl empty ↦ absurd (clash (rw (dated, empty) at e))
    | inr timed ↦
        make-IsWhole offset (field b'-' 0 date) (field b'-' 1 date) (field b'-' 2 date)
          (field b':' 0 time) (field b':' 1 time) t (rw (dated, timed) at e)
  ]
]
  where
    clash : none ≡ some t → ⊥
    clash e = cc

from_pieces-IsWhole :
    (offset : ℤ) (ps : List String) (t : ℤ) → from_pieces offset ps ≡ some t → IsWhole offset t
from_pieces-IsWhole offset [] t e = cc
from_pieces-IsWhole offset (p ∷ []) t e = cc
from_pieces-IsWhole offset (date ∷ time ∷ rest) t e = from_parts-IsWhole offset date time t e

parse_local_time-IsWhole :
    (offset : ℤ) (s : String) (t : ℤ) → parse_local_time offset s ≡ some t → IsWhole offset t
unfolding parse_local_time
parse_local_time-IsWhole offset s t e = from_pieces-IsWhole offset (pieces b'T' s) t e

parse_local_time_blank : (offset : ℤ) → parse_local_time offset "" ≡ none
unfolding parse_local_time pieces
parse_local_time_blank offset = refl

later :
    (offset start : ℤ) (n : ℕ)
    → pos 0 ≤ℤ (start +ℤ offset)
    → pos_part (start +ℤ offset) % 60000 ≡ 0
    → (pos 0 ≤ℤ (start +ℤ pos (n * 60 * 1000) +ℤ offset))
      × (pos_part (start +ℤ pos (n * 60 * 1000) +ℤ offset) % 60000 ≡ 0)
later offset start n h k =
    let t = start +ℤ pos (n * 60 * 1000) in
    let natural : pos 0 ≤ℤ (t +ℤ offset) =
      omega (
        arith,
        h,
        +ℤ_parts start (pos (n * 60 * 1000)),
        +ℤ_parts t offset,
        +ℤ_parts start offset,
      ) in
    (
      natural,
      omega (
        arith,
        h,
        k,
        +ℤ_parts start (pos (n * 60 * 1000)),
        +ℤ_parts t offset,
        +ℤ_parts start offset,
        neg_part_of_natural (t +ℤ offset) natural,
        neg_part_of_natural (start +ℤ offset) h,
      ),
    )

-- A duration button writes an end that the form reads back as the start and that many minutes, in
-- every time zone of fixed offset, across the ends of days, months and years: for a start that
-- the form can read, of 1970 or later in local time, and an end in the range of `Date`.
pub set_auction_duration-ends :
    (offset : ℤ) (minutes : ℕ) (f : ShipmentFormData) (start : ℤ)
    → parse_local_time offset f.auction_start_time ≡ some start
    → pos 0 ≤ℤ (start +ℤ offset)
    → time_clip (start +ℤ pos (minutes * 60 * 1000)) ≡ some (start +ℤ pos (minutes * 60 * 1000))
    → parse_local_time offset (set_auction_duration offset minutes f).auction_end_time
      ≡ some (start +ℤ pos (minutes * 60 * 1000))
unfolding set_auction_duration
set_auction_duration-ends offset minutes f start e h valid =
    let whole = parse_local_time-IsWhole offset f.auction_start_time start e h in
    let (natural, minute) = later offset start minutes h whole in
    elim (Bool-cases (str_eq f.auction_start_time "")) [
      | inl empty ↦ absurd (unread ((eq_iff f.auction_start_time "").0 empty))
      | inr given ↦
          rw (given, e)
            (parse_local_time-format_local_time offset (start +ℤ pos (minutes * 60 * 1000)) natural
              minute valid)
    ]
  where
    clash : none ≡ some start → ⊥
    clash e = cc

    unread : f.auction_start_time ≡ "" → ⊥
    unread q =
        clash (sym (parse_local_time_blank offset) ∙ ap (parse_local_time offset) (sym q) ∙ e)
