-- ===== src/Scheduler/Rows.antt =====
-- The schedules before a run: a missing one is added, and all are brought to the daily routine.
use backup_center_ajust_cons.Base.{
  ℕ, ◌+◌, Bool, true, false, not, ◌&&◌, List, [], ◌∷◌, ◌++◌, map, Option, none, some, if◌then◌else◌,
  any, filter, leb, get_or,
}
use backup_center_ajust_cons.Base.Rows.{find}
use backup_center_ajust_cons.Text.{Text, codes, text_eq, is_empty}
use backup_center_ajust_cons.Schedule.{Local, wall}
use backup_center_ajust_cons.Schedule.Time.{sanitize, next_daily_run}
use backup_center_ajust_cons.Scheduler.{DeviceRow, ScheduleRow, daily, is_enabled}

abbrev pub has_device_id : Text → DeviceRow → Bool
has_device_id id d = text_eq d.id id && is_enabled d

-- The device of a schedule that the query joins: an enabled one, and only for an active schedule.
unfoldable pub device_of : List DeviceRow → ScheduleRow → Option DeviceRow
unfolding find text_eq is_enabled
device_of devices r = if r.is_active then find (has_device_id r.device_id) devices else none

-- The tenant of a schedule that the query finds.
unfoldable pub tenant_of : List DeviceRow → ScheduleRow → Option Text
unfolding device_of
tenant_of devices r = elim (device_of devices r) [ none ↦ none | some d ↦ some d.tenant_id ]

abbrev pub is_tenant : Text → Option Text → Bool
is_tenant tenant none = false
is_tenant tenant (some t) = text_eq t tenant

unfoldable pub count_text : Text → List Text → ℕ
unfolding text_eq
count_text s [] = 0
count_text s (t ∷ ts) = let rest = count_text s ts in if text_eq s t then rest + 1 else rest

-- The first of the texts that stands most often in the list.
unfoldable pub best_of : List Text → List Text → Option Text
unfolding count_text
best_of times [] = none
best_of times (t ∷ ts) = elim (best_of times ts) [
  | none ↦ some t
  | some u ↦ if leb (count_text u times) (count_text t times) then some t else some u
]

-- The sanitized times of a tenant's schedules.
unfoldable pub tenant_times : List DeviceRow → Text → List ScheduleRow → List Text
unfolding tenant_of
tenant_times devices tenant [] = []
tenant_times devices tenant (r ∷ rows) =
    let rest = tenant_times devices tenant rows in
    if is_tenant tenant (tenant_of devices r) && not (is_empty r.time)
    then sanitize (codes "02:00") r.time ∷ rest
    else rest

-- `_tenant_daily_time`
unfoldable pub tenant_daily_time : List DeviceRow → Text → List ScheduleRow → Text
unfolding best_of tenant_times
tenant_daily_time devices tenant rows =
    let times = tenant_times devices tenant rows in get_or (best_of times times) (codes "02:00")

unfoldable pub has_schedule : List DeviceRow → List ScheduleRow → DeviceRow → Bool
unfolding device_of text_eq
has_schedule devices rows d =
    any (λ r. elim (device_of devices r) [ none ↦ false | some e ↦ text_eq r.device_id d.id ]) rows

-- A schedule for a device that has none.
unfoldable pub new_schedule : Local → List DeviceRow → List ScheduleRow → DeviceRow → ScheduleRow
unfolding tenant_daily_time
new_schedule now devices rows d =
    let time = tenant_daily_time devices d.tenant_id rows in
    record {
      device_id = d.id;
      frequency = daily;
      time = time;
      day_of_week = none;
      day_of_month = none;
      is_active = true;
      last_run_at = none;
      next_run_at = some (next_daily_run time now);
    }

-- The schedules that are added.
unfoldable pub missing_schedules : Local → List DeviceRow → List ScheduleRow → List ScheduleRow
unfolding new_schedule has_schedule
missing_schedules now devices rows =
    map (new_schedule now devices rows)
      (filter (λ d. is_enabled d && not (has_schedule devices rows d)) devices)

-- The row of the loop, for a tenant: the daily routine, a sane time, and a next run.
unfoldable pub daily_row : Local → Text → ScheduleRow → ScheduleRow
daily_row now default r =
    let time = if is_empty r.time then default else sanitize (codes "02:00") r.time in
    record r {
      frequency = daily;
      time = time;
      day_of_week = none;
      day_of_month = none;
      next_run_at = elim r.next_run_at [
        | none ↦ some (next_daily_run (if is_empty time then codes "02:00" else time) now)
        | some t ↦ some t
      ];
    }

abbrev pub is_due : Local → Option ℕ → Bool
is_due now none = false
is_due now (some t) = leb t (wall now)

-- What the loop leaves: the schedules, the tenants that are due, and how many got a first run.
pub record Loop : Type 0 where
  pub rows : List ScheduleRow
  pub due : List Text
  pub initialized : ℕ

-- The loop over the schedules, which reads the times of all rows, those before already changed; a row
-- that the query does not find is left as it is.
unfoldable pub normalize_rows : Local → List DeviceRow → (before rows : List ScheduleRow) → Loop
unfolding tenant_of daily_row tenant_daily_time
normalize_rows now devices before [] = record { rows = before; due = []; initialized = 0 }
normalize_rows now devices before (r ∷ rows) = elim (tenant_of devices r) [
  | none ↦ normalize_rows now devices (before ++ r ∷ []) rows
  | some tenant ↦
      let r' = daily_row now (tenant_daily_time devices tenant (before ++ r ∷ rows)) r in
      let rest = normalize_rows now devices (before ++ r' ∷ []) rows in
      record {
        rows = rest.rows;
        due = if is_due now r.next_run_at then tenant ∷ rest.due else rest.due;
        initialized = (elim r.next_run_at [ none ↦ 1 | some t ↦ 0 ]) + rest.initialized;
      }
]
