-- ===== src/Scheduler.antt =====
-- The periodic task that starts the backups (`run_scheduled_backups` of app/tasks/backups.py) on its
-- tables: the schedules, the devices with their groups, and the kinds of devices. The moments are those
-- of the wall clock, as in Schedule; a query that fails is not modelled.
pub mod Rows
pub mod Jobs
pub mod Run
mod Tests
use backup_center_ajust_cons.Base.{
  ℕ, Bool, true, false, not, ◌&&◌, List, [], ◌∷◌, ◌++◌, map, Option, none, some, if◌then◌else◌, any,
  filter,
}
use backup_center_ajust_cons.Text.{Text, codes, normalize, any_in, mem_text, text_eq}
use backup_center_ajust_cons.Connection.{Device, Group, DeviceType}

-- A group, with what the connection mode reads of it.
pub record GroupRow : Type 0 where
  pub id : Text
  pub is_active : Bool
  pub info : Group

-- A device, with its group if it has one.
pub record DeviceRow : Type 0 where
  pub id : Text
  pub tenant_id : Text
  pub device_type_id : Option Text
  pub is_active : Bool
  pub backup_scheduled : Bool
  pub group : Option GroupRow
  pub info : Device

-- `ScheduleFrequency`
pub data Frequency : Type 0 where
  daily weekly monthly : Frequency

-- A schedule; no time is the empty text.
pub record ScheduleRow : Type 0 where
  pub device_id : Text
  pub frequency : Frequency
  pub time : Text
  pub day_of_week : Option ℕ
  pub day_of_month : Option ℕ
  pub is_active : Bool
  pub last_run_at : Option ℕ
  pub next_run_at : Option ℕ

pub record TypeRow : Type 0 where
  pub id : Text
  pub name : Text
  pub script_name : Text

pub record Tables : Type 0 where
  pub schedules : List ScheduleRow
  pub devices : List DeviceRow
  pub types : List TypeRow

abbrev group_ok : Option GroupRow → Bool
group_ok none = true
group_ok (some g) = g.is_active

-- `active_device_filters`
unfoldable pub is_enabled : DeviceRow → Bool
is_enabled d = d.is_active && (d.backup_scheduled && group_ok d.group)

-- MASS_BACKUP_EXCLUDED_TYPE_KEYWORDS
abbrev pub excluded_keywords : List Text
excluded_keywords = codes "grafana" ∷ codes "zabbix" ∷ []

-- `is_mass_backup_excluded_type`
unfoldable pub is_excluded_type : TypeRow → Bool
unfolding normalize any_in
is_excluded_type t = any_in excluded_keywords (normalize (t.name ++ 32 ∷ t.script_name))

-- `resolve_mass_backup_excluded_type_ids`
unfoldable pub excluded_ids : List TypeRow → List Text
unfolding is_excluded_type
excluded_ids types = map (λ (t : TypeRow). t.id) (filter is_excluded_type types)

abbrev type_excluded : List Text → Option Text → Bool
type_excluded ids none = false
type_excluded ids (some id) = mem_text id ids

-- The devices of a tenant that a run queues.
unfoldable pub eligible : Tables → Text → List DeviceRow
unfolding is_enabled excluded_ids text_eq mem_text
eligible db tenant =
    filter
      (λ d.
        text_eq d.tenant_id tenant
        && (is_enabled d && not (type_excluded (excluded_ids db.types) d.device_type_id)))
      db.devices
