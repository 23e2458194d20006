-- ===== src/Scheduler/Run.antt =====
-- `run_scheduled_backups` as a whole.
pub mod Due
pub mod Queued
pub mod Again
use backup_center_ajust_cons.Base.{
  ℕ, ◌+◌, Bool, true, false, List, [], ◌∷◌, ◌++◌, map, Option, none, some, if◌then◌else◌, length,
  filter,
}
use backup_center_ajust_cons.Text.{Text}
use backup_center_ajust_cons.Text.Order.{sorted_set}
use backup_center_ajust_cons.Connection.{Policy}
use backup_center_ajust_cons.Schedule.{Local, wall}
use backup_center_ajust_cons.Schedule.Time.{next_daily_run}
use backup_center_ajust_cons.Scheduler.{ScheduleRow, daily, DeviceRow, Tables, eligible}
use backup_center_ajust_cons.Scheduler.Rows.{
  Loop, tenant_of, is_tenant, tenant_daily_time, missing_schedules, normalize_rows,
}
use backup_center_ajust_cons.Scheduler.Jobs.{Job, jobs_of}

-- The moment of the run, and one second later.
pub record Clock : Type 0 where
  pub now : Local
  pub later : Local

-- What the task returns: it was stopped, a batch runs, or how many batches and devices were queued and how
-- many schedules got a first run; its other counts are those of the tasks and of the rows.
pub data Report : Type 0 where
  blocked_by_force_stop : Report
  blocked_by_running_bulk : Report
  queued : (tenant_batches devices initialized : ℕ) → Report

-- A schedule of a tenant whose batch was queued.
unfoldable pub ran_row : Clock → Text → ScheduleRow → ScheduleRow
ran_row clock time r = record r {
  frequency = daily;
  time = time;
  day_of_week = none;
  day_of_month = none;
  last_run_at = some (wall clock.now);
  next_run_at = some (next_daily_run time clock.later);
}

-- The schedules after the batch of a tenant.
unfoldable pub ran_rows :
    Clock → List DeviceRow → (time tenant : Text) → List ScheduleRow → List ScheduleRow
unfolding tenant_of ran_row
ran_rows clock devices time tenant =
    map (λ r. if is_tenant tenant (tenant_of devices r) then ran_row clock time r else r)

-- What a run does: its tables, its tasks, the number of batches and of devices.
pub record Outcome : Type 0 where
  pub schedules : List ScheduleRow
  pub jobs : List Job
  pub batches : ℕ
  pub devices : ℕ

-- The loop over the tenants that are due.
unfoldable pub run_tenants : Policy → Clock → Tables → List Text → Outcome → Outcome
unfolding ran_rows eligible jobs_of
run_tenants policy clock db [] o = o
run_tenants policy clock db (tenant ∷ tenants) o =
    let devices = eligible db tenant in
    let time = tenant_daily_time db.devices tenant o.schedules in
    run_tenants policy clock db tenants (record {
      schedules = ran_rows clock db.devices time tenant o.schedules;
      jobs = o.jobs ++ jobs_of policy tenant devices;
      batches = o.batches + 1;
      devices = o.devices + length devices;
    })

-- The part of the task behind its two guards.
unfoldable pub run_due : Policy → Clock → Tables → Report × Tables × List Job
unfolding missing_schedules normalize_rows run_tenants
run_due policy clock db =
    let added = missing_schedules clock.now db.devices db.schedules in
    let loop = normalize_rows clock.now db.devices [] (db.schedules ++ added) in
    let o =
      run_tenants policy clock db (sorted_set loop.due)
        (record { schedules = loop.rows; jobs = []; batches = 0; devices = 0 }) in
    (
      queued o.batches o.devices (length added + loop.initialized),
      record db { schedules = o.schedules },
      o.jobs,
    )

-- `run_scheduled_backups`, with the stop flag and whether a batch runs
unfoldable pub run_scheduled :
    Policy → (stopped busy : Bool) → Clock → Tables → Report × Tables × List Job
unfolding run_due
run_scheduled policy stopped busy clock db =
    if stopped
    then (blocked_by_force_stop, db, [])
    else (if busy then (blocked_by_running_bulk, db, []) else run_due policy clock db)
