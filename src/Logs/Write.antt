-- ===== src/Logs/Write.antt =====
-- A line is written to the log of its task and to the global log (`append_task_log` of
-- app/services/realtime_backup_logs.py). Keys do not expire, and no command fails.
pub mod Order
pub mod Poll
pub mod Shown
use backup_center_ajust_cons.Base.{
  ℕ, ◌+◌, ◌-◌, Bool, List, [], ◌∷◌, ◌++◌, Option, if◌then◌else◌, length, get_or,
}
use backup_center_ajust_cons.Base.Slice.{keep_last}
use backup_center_ajust_cons.Text.{Text, codes, lower, strip, mem_text, is_empty}
use backup_center_ajust_cons.Text.Dict.{lookup, insert}
use backup_center_ajust_cons.Logs.{Stamp, moment, Entry, Raw, object, State}
use backup_center_ajust_cons.Logs.Prune.{maybe_prune}

pub record Settings : Type 0 where
  pub task_max : ℕ
  pub global_max : ℕ
  pub prune_interval : ℕ
  pub retention : ℕ

-- The moment of a call, in UTC and by the monotonic clock.
pub record Clock : Type 0 where
  pub now : ℕ
  pub mono : ℕ

abbrev pub levels : List Text
levels = codes "info" ∷ codes "success" ∷ codes "warning" ∷ codes "error" ∷ []

unfoldable pub level_of : Text → Text
unfolding lower strip mem_text
level_of level =
    let l = strip (lower (if is_empty level then codes "info" else level)) in
    if mem_text l levels then l else codes "info"

unfoldable pub entry_of : Clock → Text → Text → Text → Text → State → Entry
unfolding lookup level_of
entry_of clock task device message level s = record {
  task_id = task;
  seq = get_or (lookup task s.task_seqs) 0 + 1;
  global_seq = s.global_seq + 1;
  tenant_id = lookup task s.tenants;
  device_name = if is_empty device then codes "Sistema" else device;
  message = message;
  level = level_of level;
  stamp = moment clock.now;
}

-- INCR of both counters, RPUSH and LTRIM of the task's log, and RPUSH of the global log
unfoldable pub push_entry : Settings → Entry → State → State
unfolding lookup insert keep_last
push_entry cfg e s = record s {
  tasks =
      insert e.task_id
        (keep_last cfg.task_max (get_or (lookup e.task_id s.tasks) [] ++ object e ∷ [])) s.tasks;
  task_seqs = insert e.task_id e.seq s.task_seqs;
  global = s.global ++ object e ∷ [];
  global_seq = e.global_seq;
}

-- the LTRIM of the global log, at the end
unfoldable pub trim_global : Settings → State → State
unfolding keep_last
trim_global cfg s = record s { global = keep_last cfg.global_max s.global }

-- `append_task_log` on a connected client, with the message that `sanitize_operational_message` gives
unfoldable pub append_log : Settings → Clock → Text → Text → Text → Text → State → State
unfolding entry_of push_entry maybe_prune trim_global
append_log cfg clock task device message level s =
    if is_empty task
    then s
    else trim_global cfg (
        maybe_prune cfg.prune_interval clock.mono (clock.now - cfg.retention)
          (push_entry cfg (entry_of clock task device message level s) s))
