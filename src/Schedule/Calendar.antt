-- ===== src/Schedule/Calendar.antt =====
-- The days of the calendar, counted.
use backup_center_ajust_cons.Base.{
  ℕ, suc, zero, ◌+◌, ◌≤◌, ◌≡◌, refl, ap, arith, Bool-cases, inl, inr, if◌then◌else◌, ltb,
}
use backup_center_ajust_cons.Schedule.{
  is_leap, last_day, days_before_month, days_before_year, month_after,
}

pub last_day_bounds : (year month : ℕ) → (28 ≤ last_day year month) × (last_day year month ≤ 31)
unfolding last_day
last_day_bounds year month = ground arith

-- A year has 365 days, or 366 if it is a leap year.
days_before_year_suc :
    (year : ℕ)
    → 1 ≤ year
    → days_before_year (year + 1) ≡ days_before_year year + (if is_leap year then 366 else 365)
unfolding days_before_year
days_before_year_suc year h = ground arith

days_of_year : (year : ℕ) → days_before_month year 12 + 31 ≡ (if is_leap year then 366 else 365)
unfolding days_before_month last_day
days_of_year year = ground arith

days_before_month_suc :
    (year month : ℕ)
    → 1 ≤ month
    → days_before_month year (month + 1) ≡ days_before_month year month + last_day year month
unfolding days_before_month
days_before_month_suc year zero h = absurd (omega arith)
days_before_month_suc year (suc m) h =
    let next : suc m + 1 ≡ suc (suc m) = omega arith in ap (days_before_month year) next

december : (year : ℕ) → last_day year 12 ≡ 31
unfolding last_day
december year = refl

january : (year : ℕ) → days_before_month year 1 ≡ 0
unfolding days_before_month
january year = refl

-- The first day of the month after comes after the last day of the month.
pub ordinal-month_after :
    (year month : ℕ)
    → 1 ≤ year
    → 1 ≤ month
    → month ≤ 12
    → let (y, m) = month_after year month in
      days_before_year y + days_before_month y m
      ≡ days_before_year year + days_before_month year month + last_day year month
ordinal-month_after year month hy low high = elim (Bool-cases (ltb 12 (month + 1))) [
  | inl e ↦
      let twelve : month ≡ 12 = ground arith in
      rw (e, twelve)
        (omega (
          arith,
          days_before_year_suc year hy,
          days_of_year year,
          december year,
          january (year + 1),
        ))
  | inr e ↦ rw e (omega (arith, days_before_month_suc year month low))
]
