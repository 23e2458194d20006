-- ===== src/Schedule/Time.antt =====
-- The time of the day in a schedule's text, and `compute_next_run_at` as a whole.
pub mod Sane
use backup_center_ajust_cons.Base.{
  ℕ, ◌+◌, ◌/◌, ◌%◌, ◌≡◌, Bool, true, false, ◌&&◌, List, [], ◌∷◌, ◌++◌, Option, none, some,
  if◌then◌else◌, get_or, leb,
}
use backup_center_ajust_cons.Base.Int.{ℤ, pos, leb_ℤ, pos_part}
use backup_center_ajust_cons.Text.{Text, codes, strip, normalize, is_empty, text_eq}
use backup_center_ajust_cons.Text.Number.{parse_int}
use backup_center_ajust_cons.Text.Split.{split_on}
use backup_center_ajust_cons.Schedule.{Local, wall, next_daily, next_weekly, next_monthly}

abbrev pub both_ints : Option ℤ → Option ℤ → Option (ℤ × ℤ)
both_ints none o = none
both_ints (some h) none = none
both_ints (some h) (some m) = some (h, m)

abbrev pub of_parts : List Text → Option (ℤ × ℤ)
unfolding parse_int
of_parts [] = none
of_parts (h ∷ []) = none
of_parts (h ∷ m ∷ []) = both_ints (parse_int h) (parse_int m)
of_parts (h ∷ m ∷ x ∷ xs) = none

-- `hh, mm = map(int, raw.split(":"))`: none when it raises
unfoldable pub parse_time : Text → Option (ℤ × ℤ)
unfolding of_parts split_on parse_int
parse_time raw = of_parts (split_on 58 raw)

-- `0 <= hh <= 23 and 0 <= mm <= 59`
abbrev pub in_range : ℤ → ℤ → Bool
in_range hh mm = (leb_ℤ (pos 0) hh && leb_ℤ hh (pos 23)) && (leb_ℤ (pos 0) mm && leb_ℤ mm (pos 59))

-- `f"{n:02d}"` of a number below 100
abbrev pub two_digits : ℕ → Text
two_digits n = (48 + n / 10) ∷ (48 + n % 10) ∷ []

abbrev pub show_time : ℕ → ℕ → Text
show_time hh mm = two_digits hh ++ 58 ∷ two_digits mm

abbrev pub shown_or : Text → Option (ℤ × ℤ) → Text
shown_or default none = default
shown_or default (some (hh, mm)) =
    if in_range hh mm then show_time (pos_part hh) (pos_part mm) else default

-- `sanitize_daily_time`
unfoldable pub sanitize : Text → Text → Text
unfolding parse_time strip
sanitize default time_str = shown_or default (parse_time (strip time_str))

-- The numbers of a sanitized time, which always has them.
abbrev pub numbers_of : Option (ℤ × ℤ) → ℕ × ℕ
numbers_of none = (0, 0)
numbers_of (some (hh, mm)) = (pos_part hh, pos_part mm)

-- `compute_next_daily_run_at`
unfoldable pub next_daily_run : Text → Local → ℕ
unfolding next_daily sanitize parse_time
next_daily_run time_str reference =
    let (hh, mm) = numbers_of (parse_time (sanitize (codes "02:00") time_str)) in
    next_daily hh mm reference

-- `compute_next_run_at`, as the wall clock of the next run
unfoldable pub next_run : Text → Text → Option ℤ → Option ℤ → Local → ℕ
unfolding next_daily_run next_weekly next_monthly sanitize parse_time normalize text_eq
next_run time_str frequency day_of_week day_of_month reference =
    let (hh, mm) = numbers_of (parse_time (sanitize (codes "00:00") time_str)) in
    let kind = normalize (if is_empty frequency then codes "daily" else frequency) in
    if text_eq kind (codes "weekly")
    then next_weekly hh mm day_of_week reference
    else if text_eq kind (codes "monthly")
    then wall (next_monthly hh mm day_of_month reference)
    else next_daily_run (show_time hh mm) reference
