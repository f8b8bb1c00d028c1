-- ===== src/Dates/Civil.antt =====
-- Days of the calendar and their fields.
use reverse_auction.Common.{
  if◌then◌else◌, ap, ℕ, ◌+◌, ◌-◌, ◌*◌, ◌/◌, ◌%◌, ◌≤◌, ◌<◌, ◌≡◌, ltb, leb, arith, Bool-cases, inl,
  inr, true, false,
}
use reverse_auction.Dates.{
  epoch, year_days, month_days, month_start, year_of_era, march_year, day_of_year, march_month,
  year_of, month_of, date_of,
}

year_of_era_bound : (e : ℕ) → e < 146097 → year_of_era e ≤ 399
year_of_era_bound e h = omega arith

year_of_era_start :
    (e : ℕ) → e < 146097 → 365 * year_of_era e + year_of_era e / 4 - year_of_era e / 100 ≤ e
year_of_era_start e h = omega arith

year_of_era_end :
    (e : ℕ) → e < 146097 → e - (365 * year_of_era e + year_of_era e / 4 - year_of_era e / 100) ≤ 365
year_of_era_end e h = omega arith

era_days : (q r : ℕ) → r ≤ 399 → year_days (q * 400 + r) ≡ q * 146097 + (365 * r + r / 4 - r / 100)
era_days q r h = omega arith

month_bounds :
    (d : ℕ)
    → d ≤ 365
    → (month_days ((5 * d + 2) / 153) ≤ d)
      × ((5 * d + 2) / 153 ≤ 11)
      × (d ≤ month_days ((5 * d + 2) / 153) + 30)
month_bounds d h = omega arith

module _ (n : ℕ) where
  march_days : year_days (march_year n) + day_of_year n ≡ n
  march_days =
      let e : n % 146097 < 146097 = omega arith in
      omega (
        arith,
        era_days (n / 146097) (year_of_era (n % 146097)) (year_of_era_bound (n % 146097) e),
        year_of_era_start (n % 146097) e,
      )

  day_bound : day_of_year n ≤ 365
  day_bound = year_of_era_end (n % 146097) (omega arith)

  start_of_month :
      month_start (year_of n) (month_of n) ≡ year_days (march_year n) + month_days (march_month n)
  unfolding month_start year_of month_of
  start_of_month = elim (Bool-cases (ltb (march_month n) 10)) [
    | inl spring ↦ rw spring (spring_start (march_year n) (march_month n))
    | inr winter ↦ rw winter (
        winter_start (march_year n) (march_month n) (ground (arith, winter))
          (month_bounds (day_of_year n) day_bound).1)
  ]
    where
      spring_start :
          (y m : ℕ)
          → (if leb 2 (m + 2)
              then year_days y + month_days (m + 2 - 2)
              else year_days (y - 1) + month_days (m + 2 + 10))
            ≡ year_days y + month_days m
      spring_start y m =
          let late : leb 2 (m + 2) ≡ true = ground arith in
          rw late (ap (λ k. year_days y + month_days k) (omega arith))

      winter_start :
          (y m : ℕ)
          → 10 ≤ m
          → m ≤ 11
          → (if leb 2 (m - 10)
              then year_days (y + 1) + month_days (m - 10 - 2)
              else year_days (y + 1 - 1) + month_days (m - 10 + 10))
            ≡ year_days y + month_days m
      winter_start y m h k =
          let early : leb 2 (m - 10) ≡ false = ground arith in
          let year : y + 1 - 1 ≡ y = omega arith in
          let month : m - 10 + 10 ≡ m = omega arith in rw (early, year, month)

  -- The day that `new Date` makes of the year, month and date of day `n` is day `n`.
  pub civil : month_start (year_of n) (month_of n) + date_of n ≡ n + 1
  unfolding date_of
  civil = omega (arith, start_of_month, march_days, (month_bounds (day_of_year n) day_bound).0)

  pub month-bound : month_of n ≤ 11
  unfolding month_of
  month-bound = ground (arith, (month_bounds (day_of_year n) day_bound).1)

  pub date-bounds : (1 ≤ date_of n) × (date_of n ≤ 31)
  unfolding date_of
  date-bounds = omega (arith, (month_bounds (day_of_year n) day_bound).2)

  pub year-bound : epoch ≤ n → 100 ≤ year_of n
  unfolding year_of
  year-bound h =
      let y : 100 ≤ march_year n = omega (arith, h, march_days, day_bound) in ground (arith, y)
