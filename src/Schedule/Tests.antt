-- ===== src/Schedule/Tests.antt =====
-- The next runs at concrete dates.
use backup_center_ajust_cons.Base.{◌≡◌, refl, some, arith}
use backup_center_ajust_cons.Base.Int.{pos}
use backup_center_ajust_cons.Text.{codes}
use backup_center_ajust_cons.Schedule.{
  Local, ordinal, weekday, time_of, last_day, days_before_month, days_before_year, next_daily,
  next_monthly, wall_of,
}
use backup_center_ajust_cons.Schedule.Time.{sanitize}
use backup_center_ajust_cons.Schedule.Time.Sane.{IsShown}

-- The last day of January 2024, a Wednesday, at half past two.
abbrev now : Local
now = record { year = 2024; month = 1; day = 31; time = time_of 2 30 }

wednesday : weekday (ordinal 2024 1 31) ≡ 2
unfolding days_before_year days_before_month
wednesday = refl

leap_february :
    next_monthly 2 0 (some (pos 31)) now
    ≡ record { year = 2024; month = 2; day = 29; time = time_of 2 0 }
unfolding next_monthly
leap_february = refl

same_day : next_daily 3 0 now ≡ wall_of (ordinal 2024 1 31) (time_of 3 0)
unfolding next_daily days_before_year days_before_month last_day
same_day = refl

cleaned : sanitize (codes "02:00") (codes " 7:5 ") ≡ codes "07:05"
unfolding sanitize
cleaned = refl

refused : sanitize (codes "02:00") (codes "24:00") ≡ codes "02:00"
unfolding sanitize
refused = refl

two_o_clock : IsShown (codes "02:00")
two_o_clock = (2, (0, ((omega arith, omega arith), refl)))
