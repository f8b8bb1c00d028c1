-- ===== src/LocalTime.antt =====
-- The local times of the forms of apps/web, which an input of type datetime-local writes:
-- `parseLocalTime` of components/shipment/NewShipmentForm.tsx and
-- components/auction/NewForwardAuctionForm.tsx, and the text that `setAuctionDuration` writes.
pub mod Pieces
pub mod RoundTrip
use Prim.Native.Char.{Char, code}
use Prim.Native.String.{String, [], ◌∷◌, count}
use mathlib.Core.List
use mathlib.Core.Option
use reverse_auction.Common.{
  ℕ, ◌+◌, ◌-◌, ◌*◌, ◌/◌, ◌%◌, leb, ◌==◌, Bool, true, false, Option, none, some, List, ℤ, pos,
  negsuc, ◌+ℤ◌, str_eq, show_ℕ, ◌+s◌, [], ◌∷◌, get_elem?, if◌then◌else◌,
}
use reverse_auction.Numeric.{Number, nan, infinite, fin, to_number}
use reverse_auction.Dates.{day_ms, time_clip, make_local, local_of, year_of, month_of, date_of}

abbrev glue : Char → List String → List String
glue c [] = (c ∷ "") ∷ []
glue c (p ∷ ps) = (c ∷ p) ∷ ps

-- `text.split(separator)`, for the code of one character.
unfoldable pub pieces : ℕ → String → List String
pieces sep [] = "" ∷ []
pieces sep (c ∷ s) = if code c == sep then "" ∷ pieces sep s else glue c (pieces sep s)

-- A number as a field of `new Date`: its whole part. A negative one, which an input of type
-- datetime-local never writes, is left out like NaN.
abbrev pub whole : Number → Option ℕ
whole (fin (pos n)) = some (n / 100)
whole _ = none

abbrev pub number_at : Option String → Option ℕ
number_at none = none
number_at (some piece) = whole (to_number piece)

-- `text.split(separator).map(Number)[i]`
abbrev pub field : ℕ → ℕ → String → Option ℕ
field sep i s = number_at (get_elem? (pieces sep s) i)

abbrev pub make : ℤ → Option ℕ → Option ℕ → Option ℕ → Option ℕ → Option ℕ → Option ℤ
make offset (some y) (some m) (some d) (some h) (some i) = make_local offset y m d h i
make offset _ _ _ _ _ = none

abbrev pub from_parts : ℤ → String → String → Option ℤ
from_parts offset date time =
    if str_eq date ""
    then none
    else if str_eq time ""
    then none
    else make offset (field b'-' 0 date) (field b'-' 1 date) (field b'-' 2 date) (field b':' 0 time)
        (field b':' 1 time)

abbrev pub from_pieces : ℤ → List String → Option ℤ
from_pieces offset (date ∷ time ∷ rest) = from_parts offset date time
from_pieces offset _ = none

-- `parseLocalTime(text)`; `none` is NaN.
unfoldable pub parse_local_time : ℤ → String → Option ℤ
parse_local_time offset s = from_pieces offset (pieces b'T' s)

-- `String(n).padStart(2, '0')`
abbrev pub pad : ℕ → String
pad n = if leb 2 (count (show_ℕ n)) then show_ℕ n else "0" +s show_ℕ n

-- The text of `setAuctionDuration` for a local count of milliseconds.
abbrev pub text_of : ℕ → String
text_of l =
    (show_ℕ (year_of (l / day_ms))
      +s "-"
      +s pad (month_of (l / day_ms) + 1)
      +s "-"
      +s pad (date_of (l / day_ms)))
    +s "T"
    +s (pad (l % day_ms / 3600000) +s ":" +s pad (l % 3600000 / 60000))

abbrev text_of_instant : ℤ → Option ℤ → String
text_of_instant offset none = "NaN-NaN-NaNTNaN:NaN"
text_of_instant offset (some t) = text_of (local_of offset t)

unfoldable pub format_local_time : ℤ → ℤ → String
format_local_time offset t = text_of_instant offset (time_clip t)
