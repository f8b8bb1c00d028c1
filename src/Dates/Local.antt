-- ===== src/Dates/Local.antt =====
-- Instants and their local fields.
use reverse_auction.Common.{
  ap, ◌∙◌, ℕ, ◌+◌, ◌-◌, ◌*◌, ◌/◌, ◌%◌, ◌≤◌, ◌≡◌, arith, Option, ℤ, pos, pos_part, neg_part, ◌+ℤ◌,
  ◌-ℤ◌, ◌≤ℤ◌, +ℤ_parts, -ℤ_parts, eq_of_parts,
}
use reverse_auction.Dates.{
  epoch, day_ms, full_year, time_clip, local_ms, make_local, local_of, year_of, month_of, date_of,
}
use reverse_auction.Dates.Civil.{civil, month-bound, year-bound}

-- The local fields of a count of milliseconds, the seconds left out.
module _ (l : ℕ) where
  months_of : (y m : ℕ) → 100 ≤ y → m ≤ 11 → (full_year y * 12 + (m + 1) - 1) / 12 ≡ y
  months_of y m h k = ground (arith, h, k)

  month_in : (y m : ℕ) → 100 ≤ y → m ≤ 11 → (full_year y * 12 + (m + 1) - 1) % 12 ≡ m
  month_in y m h k = ground (arith, h, k)

  -- For a day of 1970 or later and a whole number of minutes.
  pub fields_local :
      epoch ≤ l / day_ms
      → l % 60000 ≡ 0
      → local_ms
          (year_of (l / day_ms))
          (month_of (l / day_ms) + 1)
          (date_of (l / day_ms))
          (l % day_ms / 3600000)
          (l % 3600000 / 60000)
        ≡ l + day_ms
  fields_local h k =
      let n = l / day_ms in
      let y = year-bound n h in
      let m = month-bound n in
      rw (months_of (year_of n) (month_of n) y m, month_in (year_of n) (month_of n) y m, civil n)
        (omega (arith, k))

-- The local year, month, day, hour and minute of an instant.
abbrev pub rebuilt : ℤ → ℕ → Option ℤ
rebuilt offset l =
    make_local offset (year_of (l / day_ms)) (month_of (l / day_ms) + 1) (date_of (l / day_ms))
      (l % day_ms / 3600000) (l % 3600000 / 60000)

neg_part_of_natural : (a : ℤ) → pos 0 ≤ℤ a → neg_part a ≡ 0
neg_part_of_natural a k = ground (arith, k)

module _ (offset t : ℤ) (h : pos 0 ≤ℤ (t +ℤ offset)) where
  local_lem : local_of offset t ≡ pos_part (t +ℤ offset) + epoch * day_ms
  unfolding local_of
  local_lem =
      let a = t +ℤ offset in
      let sum = +ℤ_parts a (pos (epoch * day_ms)) in
      let natural : pos 0 ≤ℤ (a +ℤ pos (epoch * day_ms)) = omega (arith, sum, h) in
      omega (
        arith,
        sum,
        neg_part_of_natural a h,
        neg_part_of_natural (a +ℤ pos (epoch * day_ms)) natural,
      )

  -- `new Date` of the local fields of an instant is the instant, from 1970 on and for whole minutes.
  pub make_local-local_of :
      pos_part (t +ℤ offset) % 60000 ≡ 0 → rebuilt offset (local_of offset t) ≡ time_clip t
  unfolding make_local
  make_local-local_of k =
      let l = local_of offset t in
      let late : epoch ≤ l / day_ms = omega (arith, local_lem) in
      let whole : l % 60000 ≡ 0 = omega (arith, local_lem, k) in
      ap (λ (m : ℕ). time_clip (pos m -ℤ pos ((epoch + 1) * day_ms) -ℤ offset))
        (fields_local l late whole)
      ∙ ap time_clip same
    where
      since : ℤ
      since = pos (local_of offset t + day_ms) -ℤ pos ((epoch + 1) * day_ms)

      same : since -ℤ offset ≡ t
      same = eq_of_parts (since -ℤ offset) t (
          omega (
            arith,
            local_lem,
            -ℤ_parts (pos (local_of offset t + day_ms)) (pos ((epoch + 1) * day_ms)),
            -ℤ_parts since offset,
            +ℤ_parts t offset,
            neg_part_of_natural (t +ℤ offset) h,
          ))
