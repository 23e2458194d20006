-- ===== src/Scheduler/Tests.antt =====
-- A run of the scheduler at small tables, and the theorems on it.
use backup_center_ajust_cons.Base.{
  ℕ, ◌+◌, ◌≡◌, refl, true, false, not, ◌&&◌, ◌||◌, [], ◌∷◌, none, some, arith, any,
}
use backup_center_ajust_cons.Text.{Text, codes}
use backup_center_ajust_cons.Text.Order.{sorted_set}
use backup_center_ajust_cons.Connection.{text, Device, Policy}
use backup_center_ajust_cons.Schedule.{Local, wall, last_day, days_before_year, days_before_month}
use backup_center_ajust_cons.Schedule.Next.{IsDate}
use backup_center_ajust_cons.Schedule.Time.{next_daily_run}
use backup_center_ajust_cons.Scheduler.{
  GroupRow, DeviceRow, weekly, ScheduleRow, TypeRow, Tables, is_excluded_type, eligible,
}
use backup_center_ajust_cons.Scheduler.Jobs.{direct_job, vpn_job, jobs_of}
use backup_center_ajust_cons.Scheduler.Jobs.Routes.{reaches}
use backup_center_ajust_cons.Scheduler.Run.{Clock, queued, run_scheduled}
use backup_center_ajust_cons.Scheduler.Run.Queued.{is_eligible, due_before, queued_iff}
use backup_center_ajust_cons.Scheduler.Run.Again.{IsClock, run_again}

-- The last day of January 2024 at half past two.
abbrev half_past : Local
half_past = record { year = 2024; month = 1; day = 31; time = 9000000000 }

abbrev policy : Policy
policy = record { disable_jump = false; prefer_vpn = false }

abbrev info : Device
info = record { name = codes "r"; device_type = none; subgroup = none; extra = none }

abbrev tunnel : GroupRow
tunnel = record {
  id = codes "g";
  is_active = true;
  info = record {
    connection_type = text (codes "vpn");
    uses_jump_host = false;
    uses_vpn = true;
    vpn_server = codes "s";
    vpn_username = codes "u";
    vpn_password = some (codes "p");
  };
}

abbrev device : Text → Text → DeviceRow
device id tenant = record {
  id = id;
  tenant_id = tenant;
  device_type_id = none;
  is_active = true;
  backup_scheduled = true;
  group = none;
  info = info;
}

abbrev schedule : Text → ℕ → ScheduleRow
schedule id next = record {
  device_id = id;
  frequency = weekly;
  time = codes "3:00";
  day_of_week = some 2;
  day_of_month = none;
  is_active = true;
  last_run_at = none;
  next_run_at = some next;
}

abbrev zabbix : TypeRow
zabbix = record { id = codes "z"; name = codes "Zabbix"; script_name = codes "x" }

-- A tenant with a device of its own, two behind a tunnel and one of an excluded kind, of which one has a
-- schedule that is due; and another tenant, whose schedule is not due.
abbrev tables : Tables
tables = record {
  schedules = schedule (codes "2") 5 ∷ schedule (codes "9") (wall half_past + 1) ∷ [];
  devices =
      device (codes "1") (codes "t")
      ∷ record (device (codes "3") (codes "t")) { group = some tunnel }
      ∷ record (device (codes "2") (codes "t")) { group = some tunnel }
      ∷ record (device (codes "4") (codes "t")) { device_type_id = some (codes "z") }
      ∷ device (codes "9") (codes "u")
      ∷ [];
  types = zabbix ∷ [];
}

abbrev clock : Clock
clock = record { now = half_past; later = record half_past { time = 9001000000 } }

sorted_set_three : sorted_set (codes "b" ∷ codes "a" ∷ codes "b" ∷ []) ≡ codes "a" ∷ codes "b" ∷ []
unfolding sorted_set
sorted_set_three = refl

zabbix_excluded : is_excluded_type zabbix ≡ true
unfolding is_excluded_type
zabbix_excluded = refl

jobs_of_tenant :
    jobs_of policy (codes "t") (eligible tables (codes "t"))
    ≡ direct_job (codes "1") ∷ vpn_job (codes "g") (codes "t") (codes "2" ∷ codes "3" ∷ []) ∷ []
unfolding jobs_of eligible
jobs_of_tenant = refl

report_of_run : (run_scheduled policy false false clock tables).0 ≡ queued 1 3 3
unfolding run_scheduled days_before_year days_before_month next_daily_run
report_of_run = refl

stopped_run : (run_scheduled policy true false clock tables).1 ≡ tables
unfolding run_scheduled
stopped_run = refl

half_past-IsDate : IsDate half_past
unfolding last_day
half_past-IsDate = record {
  year_pos = omega arith;
  month_pos = omega arith;
  month_max = omega arith;
  day_pos = omega arith;
  day_max = omega arith;
  time_max = omega arith;
}

clock-IsClock : IsClock clock
unfolding last_day
clock-IsClock = record {
  now_date = half_past-IsDate;
  later_date = record {
    year_pos = omega arith;
    month_pos = omega arith;
    month_max = omega arith;
    day_pos = omega arith;
    day_max = omega arith;
    time_max = omega arith;
  };
  in_order = omega arith;
}

queued_iff_example :
    reaches (codes "2") (run_scheduled policy false false clock tables).2
    ≡ (not (false || false) && any (is_eligible tables (codes "2")) (due_before clock tables))
queued_iff_example = queued_iff policy false false clock tables (codes "2") half_past-IsDate

run_again_example :
    (run_scheduled policy false false clock (run_scheduled policy false false clock tables).1).2
    ≡ []
run_again_example = run_again policy false false clock tables clock-IsClock
