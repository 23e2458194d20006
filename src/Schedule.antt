-- ===== src/Schedule.antt =====
-- When a schedule runs next (app/services/schedule_utils.py). A local time is its wall clock: the date,
-- and the microseconds since midnight; two of the application's zone are compared by the wall clock, as
-- Python does. The zone's conversions to and from UTC, at both ends, are left out.
pub mod Time
pub mod Calendar
pub mod Next
mod Tests
use backup_center_ajust_cons.Base.{
  ℕ, suc, zero, ◌+◌, ◌-◌, ◌*◌, ◌/◌, ◌%◌, ◌≤◌, ◌<◌, ◌≡◌, Bool, true, false, not, ◌&&◌, ◌||◌, List,
  [], ◌∷◌, ◌++◌, Option, none, some, if◌then◌else◌, get_or, leb, ltb, ◌==◌, min, max,
}
use backup_center_ajust_cons.Base.Int.{ℤ, pos, negsuc, pos_part}
use backup_center_ajust_cons.Text.{Text, codes, strip, normalize, is_empty, text_eq}
use backup_center_ajust_cons.Text.Number.{parse_int}
use backup_center_ajust_cons.Text.Split.{split_on}

abbrev pub us_per_day : ℕ
us_per_day = 86400 * 1000000

-- `year % 4 == 0 and (year % 100 != 0 or year % 400 == 0)`
abbrev pub is_leap : ℕ → Bool
is_leap year = year % 4 == 0 && (not (year % 100 == 0) || year % 400 == 0)

-- `calendar.monthrange(year, month)[1]`
unfoldable pub last_day : ℕ → ℕ → ℕ
last_day year month =
    if month == 2
    then (if is_leap year then 29 else 28)
    else if month == 4 || (month == 6 || (month == 9 || month == 11))
    then 30
    else 31

-- The days of the months before.
unfoldable pub days_before_month : ℕ → ℕ → ℕ
unfolding last_day
days_before_month year zero = 0
days_before_month year (suc zero) = 0
days_before_month year (suc (suc m)) = days_before_month year (suc m) + last_day year (suc m)

-- The days of the years before.
unfoldable pub days_before_year : ℕ → ℕ
days_before_year year = let y = year - 1 in (y * 365 + y / 4 + y / 400) - y / 100

-- `datetime`: a date and the microseconds of the day
pub record Local : Type 0 where
  pub year : ℕ
  pub month : ℕ
  pub day : ℕ
  pub time : ℕ

-- `date.toordinal()`, which is 1 on the first day of the year 1
abbrev pub ordinal : ℕ → ℕ → ℕ → ℕ
ordinal year month day = days_before_year year + days_before_month year month + day

-- The wall clock as one number.
abbrev pub wall_of : ℕ → ℕ → ℕ
wall_of day time = day * us_per_day + time

abbrev pub wall : Local → ℕ
wall t = wall_of (ordinal t.year t.month t.day) t.time

-- `weekday()` of an ordinal, 0 for Monday
abbrev pub weekday : ℕ → ℕ
weekday day = (day + 6) % 7

abbrev pub time_of : ℕ → ℕ → ℕ
time_of hh mm = (hh * 60 + mm) * 60 * 1000000

-- The candidate of `compute_next_daily_run_at`, from the parsed time.
unfoldable pub next_daily : ℕ → ℕ → Local → ℕ
next_daily hh mm reference =
    let candidate =
      wall_of (ordinal reference.year reference.month reference.day) (time_of hh mm) in
    if leb candidate (wall reference) then candidate + us_per_day else candidate

-- `max(0, min(int(target), 6))`, of the reference's weekday for none
abbrev pub target_weekday : Option ℤ → ℕ → ℕ
target_weekday none today = min today 6
target_weekday (some n) today = min (pos_part n) 6

-- The branch "weekly" of `compute_next_run_at`.
unfoldable pub next_weekly : ℕ → ℕ → Option ℤ → Local → ℕ
next_weekly hh mm day_of_week reference =
    let today = ordinal reference.year reference.month reference.day in
    let days_ahead = (target_weekday day_of_week (weekday today) + 7 - weekday today) % 7 in
    let candidate = wall_of (today + days_ahead) (time_of hh mm) in
    if leb candidate (wall reference) then candidate + 7 * us_per_day else candidate

-- `max(1, min(int(day_of_month or 1), 31))`
abbrev pub target_day : Option ℤ → ℕ
target_day none = 1
target_day (some n) = max 1 (min (pos_part n) 31)

abbrev pub in_month : ℕ → ℕ → ℕ → ℕ → ℕ → Local
in_month year month target hh mm = record {
  year = year;
  month = month;
  day = min target (last_day year month);
  time = time_of hh mm;
}

-- The month after.
abbrev pub month_after : ℕ → ℕ → ℕ × ℕ
month_after year month = if ltb 12 (month + 1) then (year + 1, 1) else (year, month + 1)

-- The branch "monthly" of `compute_next_run_at`.
unfoldable pub next_monthly : ℕ → ℕ → Option ℤ → Local → Local
unfolding last_day days_before_month days_before_year
next_monthly hh mm day_of_month reference =
    let target = target_day day_of_month in
    let candidate = in_month reference.year reference.month target hh mm in
    let (year, month) = month_after reference.year reference.month in
    if leb (wall candidate) (wall reference) then in_month year month target hh mm else candidate
