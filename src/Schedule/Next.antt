-- ===== src/Schedule/Next.antt =====
-- Where the next run of a schedule lies (`compute_next_run_at`).
use backup_center_ajust_cons.Base.{
  ℕ, ◌+◌, ◌-◌, ◌*◌, ◌/◌, ◌%◌, ◌≤◌, ◌<◌, ◌≡◌, ◌⊎◌, refl, ap, ◌∙◌, arith, Bool-cases, inl, inr,
  Option, none, some, if◌then◌else◌, leb, min,
}
use backup_center_ajust_cons.Base.Int.{ℤ}
use backup_center_ajust_cons.Schedule.{
  us_per_day, Local, ordinal, wall, wall_of, weekday, time_of, last_day, next_daily, next_weekly,
  next_monthly, target_weekday, target_day, in_month, month_after,
}
use backup_center_ajust_cons.Schedule.Calendar.{last_day_bounds, ordinal-month_after}

-- A time of the day.
abbrev pub IsTime : ℕ → ℕ → Type 0
IsTime hh mm = (hh ≤ 23) × (mm ≤ 59)

-- For a time of the day and a reference whose time is one of a day, a daily schedule runs next
-- after the reference and at most one day after it, at its time of the day.
pub next_daily_lem :
    (hh mm : ℕ) (reference : Local)
    → IsTime hh mm
    → reference.time < us_per_day
    → let next = next_daily hh mm reference in
      (wall reference < next)
      × (next ≤ wall reference + us_per_day)
      × (next % us_per_day ≡ time_of hh mm)
unfolding next_daily
next_daily_lem hh mm reference (h, m) t = (ground arith, ground arith, ground arith)

-- The days to the next day of a weekday.
days_ahead_lem :
    (today target : ℕ)
    → target ≤ 6
    → let ahead = (target + 7 - weekday today) % 7 in
      (ahead ≤ 6) × (weekday (today + ahead) ≡ target)
days_ahead_lem today target h = (ground arith, ground arith)

target_weekday_max : (o : Option ℤ) (today : ℕ) → target_weekday o today ≤ 6
target_weekday_max none today = ground arith
target_weekday_max (some n) today = ground arith

-- The day of a wall clock.
day_of_wall :
    (day time : ℕ)
    → time < us_per_day
    → (wall_of day time / us_per_day ≡ day) × (wall_of day time % us_per_day ≡ time)
day_of_wall day time h = (ground arith, ground arith)

time_of_max : (hh mm : ℕ) → IsTime hh mm → time_of hh mm < us_per_day
time_of_max hh mm (h, m) = omega arith

-- A candidate at most six days ahead, or a week after it.
week_lem :
    (today ahead time now : ℕ)
    → time < us_per_day
    → now < us_per_day
    → ahead ≤ 6
    → let candidate = wall_of (today + ahead) time in
      let next =
        if leb candidate (wall_of today now) then candidate + 7 * us_per_day else candidate in
      (wall_of today now < next)
      × (next ≤ wall_of today now + 7 * us_per_day)
      × (next % us_per_day ≡ time)
      × ((next / us_per_day ≡ today + ahead) ⊎ (next / us_per_day ≡ today + ahead + 7))
week_lem today ahead time now t n a = (ground arith, ground arith, ground arith, ground arith)

weekday_week : (day : ℕ) → weekday (day + 7) ≡ weekday day
weekday_week day = omega arith

-- For a time of the day and a reference whose time is one of a day, a weekly schedule runs next
-- after the reference and at most seven days after it, at its time of the day and on its weekday:
-- the one that it names, brought into the range from 0 to 6, or that of the reference.
pub next_weekly_lem :
    (hh mm : ℕ) (day_of_week : Option ℤ) (reference : Local)
    → IsTime hh mm
    → reference.time < us_per_day
    → let today = ordinal reference.year reference.month reference.day in
      let next = next_weekly hh mm day_of_week reference in
      (wall reference < next)
      × (next ≤ wall reference + 7 * us_per_day)
      × (next % us_per_day ≡ time_of hh mm)
      × (weekday (next / us_per_day) ≡ target_weekday day_of_week (weekday today))
unfolding next_weekly
next_weekly_lem hh mm day_of_week reference ok t =
    let today = ordinal reference.year reference.month reference.day in
    let target = target_weekday day_of_week (weekday today) in
    let ahead = (target + 7 - weekday today) % 7 in
    let (few, right) =
      days_ahead_lem today target (target_weekday_max day_of_week (weekday today)) in
    let (later, soon, time, day) =
      week_lem today ahead (time_of hh mm) reference.time (time_of_max hh mm ok) t few in
    (
      later,
      soon,
      time,
      elim day [
        | inl e ↦ ap weekday e ∙ right
        | inr e ↦ ap weekday e ∙ (weekday_week (today + ahead) ∙ right)
      ],
    )

-- The month of a date, with its year.
abbrev pub year_month : Local → ℕ × ℕ
year_month t = (t.year, t.month)

-- A date of the calendar.
pub record IsDate (t : Local) : Type 0 where
  pub year_pos : 1 ≤ t.year
  pub month_pos : 1 ≤ t.month
  pub month_max : t.month ≤ 12
  pub day_pos : 1 ≤ t.day
  pub day_max : t.day ≤ last_day t.year t.month
  pub time_max : t.time < us_per_day

target_day_pos : (o : Option ℤ) → 1 ≤ target_day o
target_day_pos none = ground arith
target_day_pos (some n) = ground arith

wall_mono : (d e t u : ℕ) → d < e → t < us_per_day → wall_of d t < wall_of e u
wall_mono d e t u h k = omega arith

later_month :
    (hh mm target : ℕ) (reference : Local)
    → 1 ≤ target
    → IsDate reference
    → let (y, m) = month_after reference.year reference.month in
      wall reference < wall (in_month y m target hh mm)
later_month hh mm target reference t d =
    let (y, m) = month_after reference.year reference.month in
    let first =
      ordinal-month_after reference.year reference.month d.year_pos d.month_pos d.month_max in
    let (few, many) = last_day_bounds y m in
    let some_day : 1 ≤ min target (last_day y m) = ground arith in
    wall_mono (ordinal reference.year reference.month reference.day)
      (ordinal y m (min target (last_day y m))) reference.time (time_of hh mm)
      (omega (arith, first, some_day, d.day_max)) d.time_max

-- For a time of the day and a reference that is a date of the calendar, a monthly schedule runs
-- next after the reference, in the month of the reference or the month after it, on the day that
-- it names, or the last of a shorter month, at its time of the day.
pub next_monthly_lem :
    (hh mm : ℕ) (day_of_month : Option ℤ) (reference : Local)
    → IsTime hh mm
    → IsDate reference
    → let next = next_monthly hh mm day_of_month reference in
      (wall reference < wall next)
      × ((year_month next ≡ year_month reference)
          ⊎ (year_month next ≡ month_after reference.year reference.month))
      × (next.day ≡ min (target_day day_of_month) (last_day next.year next.month))
      × (next.time ≡ time_of hh mm)
unfolding next_monthly
next_monthly_lem hh mm day_of_month reference ok d =
    let target = target_day day_of_month in
    let candidate = in_month reference.year reference.month target hh mm in
    let (y, m) = month_after reference.year reference.month in
    elim (Bool-cases (leb (wall candidate) (wall reference))) [
      | inl e ↦
          rw e (
            later_month hh mm target reference (target_day_pos day_of_month) d,
            inr refl,
            refl,
            refl,
          )
      | inr e ↦ rw e (ground arith, inl refl, refl, refl)
    ]
