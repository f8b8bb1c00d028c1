-- ===== src/Dates.antt =====
-- What apps/web takes from the language's `Date`, in a time zone of one fixed offset: the instant
-- of local date fields and the fields of an instant. Instants are milliseconds since 1970 in UTC;
-- days are counted from the first of March of year 0, before which no instant is read.
pub mod Civil
pub mod Local
use reverse_auction.Common.{
  ℕ, ◌+◌, ◌-◌, ◌*◌, ◌/◌, ◌%◌, ltb, leb, Bool, true, false, Option, none, some, ℤ, pos, neg_part,
  pos_part, ◌+ℤ◌, ◌-ℤ◌, String, show_ℕ, ◌+s◌, if◌then◌else◌,
}

-- 1 January 1970
abbrev pub epoch : ℕ
epoch = 719468

abbrev pub day_ms : ℕ
day_ms = 86400000

-- The days before a year that starts in March, and before its month `mp`, March being 0.
abbrev pub year_days : ℕ → ℕ
year_days y = 365 * y + y / 4 - y / 100 + y / 400

abbrev pub month_days : ℕ → ℕ
month_days mp = (153 * mp + 2) / 5

-- The first day of month `m` of year `y`, January being 0.
unfoldable pub month_start : ℕ → ℕ → ℕ
month_start y m =
    if leb 2 m then year_days y + month_days (m - 2) else year_days (y - 1) + month_days (m + 10)

-- Years from 0 to 99 are those of the twentieth century.
abbrev pub full_year : ℕ → ℕ
full_year y = if ltb y 100 then 1900 + y else y

-- An instant beyond 100,000,000 days from 1970 is invalid.
abbrev pub time_clip : ℤ → Option ℤ
time_clip t = if leb (pos_part t + neg_part t) 8640000000000000 then some t else none

-- `new Date(y, m - 1, d, h, i).getTime()`: a month outside the year and a day outside the month
-- count on from the fields before.
abbrev pub local_ms : ℕ → ℕ → ℕ → ℕ → ℕ → ℕ
local_ms y m d h i =
    let months = full_year y * 12 + m - 1 in
    (month_start (months / 12) (months % 12) + d) * day_ms + h * 3600000 + i * 60000

unfoldable pub make_local : ℤ → ℕ → ℕ → ℕ → ℕ → ℕ → Option ℤ
make_local offset y m d h i =
    time_clip (pos (local_ms y m d h i) -ℤ pos ((epoch + 1) * day_ms) -ℤ offset)

-- The local time of an instant, from the first of March of year 0.
unfoldable pub local_of : ℤ → ℤ → ℕ
local_of offset t = pos_part (t +ℤ offset +ℤ pos (epoch * day_ms))

-- The fields of a day.
abbrev pub year_of_era : ℕ → ℕ
year_of_era e = (e - e / 1460 + e / 36524 - e / 146096) / 365

abbrev pub march_year : ℕ → ℕ
march_year n = n / 146097 * 400 + year_of_era (n % 146097)

abbrev pub day_of_year : ℕ → ℕ
day_of_year n =
    n % 146097
    - (365 * year_of_era (n % 146097)
        + year_of_era (n % 146097) / 4
        - year_of_era (n % 146097) / 100)

abbrev pub march_month : ℕ → ℕ
march_month n = (5 * day_of_year n + 2) / 153

-- `getFullYear`, `getMonth` and `getDate` of day `n`.
unfoldable pub year_of : ℕ → ℕ
year_of n = if ltb (march_month n) 10 then march_year n else march_year n + 1

unfoldable pub month_of : ℕ → ℕ
month_of n = if ltb (march_month n) 10 then march_month n + 2 else march_month n - 10

unfoldable pub date_of : ℕ → ℕ
date_of n = day_of_year n - month_days (march_month n) + 1
