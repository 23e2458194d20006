-- ===== src/Logs.antt =====
-- The logs of running tasks (app/services/realtime_backup_logs.py): one list for each task and a
-- global one, both in Redis. Logs holds what is stored; its modules are named for the operations.
pub mod Write
pub mod Prune
pub mod Scan
pub mod Tests
use backup_center_ajust_cons.Base.{ℕ, List, Option}
use backup_center_ajust_cons.Text.{Text}
use backup_center_ajust_cons.Text.Dict.{Dict}

-- `created_at` or `timestamp_iso` of an entry, as `_parse_iso_timestamp` reads it: nothing that is a
-- timestamp, one without a zone, or a moment in microseconds.
pub data Stamp : Type 0 where
  unreadable : Stamp
  naive : Stamp
  moment : ℕ → Stamp

pub record Entry : Type 0 where
  pub task_id : Text
  pub seq : ℕ
  pub global_seq : ℕ
  pub tenant_id : Option Text
  pub device_name : Text
  pub message : Text
  pub level : Text
  pub stamp : Stamp

-- A stored text by what `json.loads` makes of it: no JSON, JSON that is no object, or an entry. No
-- stored text is empty.
pub data Raw : Type 0 where
  junk : Raw
  other : Raw
  object : Entry → Raw

-- What Redis holds of the logs, and the time of `time.monotonic` up to which the global log is not
-- pruned again. `tenants` is the tenant in the metadata of a task.
pub record State : Type 0 where
  pub tasks : Dict (List Raw)
  pub task_seqs : Dict ℕ
  pub global : List Raw
  pub global_seq : ℕ
  pub prune_until : ℕ
  pub tenants : Dict Text
