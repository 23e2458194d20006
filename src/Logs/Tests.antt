-- ===== src/Logs/Tests.antt =====
-- The logs at small inputs, and the theorems on them where their hypotheses hold.
use backup_center_ajust_cons.Base.{ℕ, ◌≡◌, refl, true, false, List, [], ◌∷◌, some, arith}
use backup_center_ajust_cons.Base.Slice.{keep_last}
use backup_center_ajust_cons.Text.{Text, codes}
use backup_center_ajust_cons.Text.Dict.{lookup}
use backup_center_ajust_cons.Logs.{moment, Entry, Raw, junk, other, object, State}
use backup_center_ajust_cons.Logs.Prune.{
  age_of, prune_head, prune_all, with_removed, clear_tenant, sift_tenant,
}
use backup_center_ajust_cons.Logs.Prune.Agree.{prune_head-prune_all}
use backup_center_ajust_cons.Logs.Scan.{Query, is_tenant, chunks, scan_recent, get_global_logs}
use backup_center_ajust_cons.Logs.Scan.Walk.{entries_of, is_wanted}
use backup_center_ajust_cons.Logs.Scan.Newest.{scan_recent-newest}
use backup_center_ajust_cons.Logs.Scan.Cleared.{scan_recent-clear}
use backup_center_ajust_cons.Logs.Write.{Settings, Clock, append_log, level_of, entry_of}
use backup_center_ajust_cons.Logs.Write.Poll.{
  IsNumbered, Call, append, prune, clear, run, run-IsNumbered,
}
use backup_center_ajust_cons.Logs.Write.Shown.{entry, line_shown}

abbrev line : ℕ → Text → Entry
line n tenant = record {
  task_id = codes "t";
  seq = n;
  global_seq = n;
  tenant_id = some tenant;
  device_name = codes "d";
  message = codes "m";
  level = codes "info";
  stamp = moment n;
}

abbrev alice : Text
alice = codes "a"

abbrev bob : Text
bob = codes "b"

abbrev three : List Raw
three = object (line 1 alice) ∷ junk ∷ object (line 2 bob) ∷ object (line 3 alice) ∷ []

abbrev ask : ℕ → ℕ → Text → Query
ask after limit tenant = record { after_seq = after; limit = limit; tenant = tenant }

abbrev number : Entry → ℕ
number e = e.global_seq

-- The newest entry of a tenant, within a limit of one.
scan_one : scan_recent number 3 (ask 0 1 alice) three ≡ (line 3 alice ∷ [], 3)
unfolding scan_recent
scan_one = refl

-- The same in chunks of one entry.
chunks_one :
    (chunks number
      (ask 0 5 bob)
      1
      4
      4
      three
      (record { entries = []; last_seq = 0; reached_boundary = false })).entries
    ≡ line 2 bob ∷ []
unfolding chunks
chunks_one = refl

level_default : level_of (codes " Debug ") ≡ codes "info"
unfolding level_of
level_default = refl

level_trimmed : level_of (codes " ERROR ") ≡ codes "error"
unfolding level_of
level_trimmed = refl

prune_head_stuck :
    prune_head 3 (junk ∷ other ∷ object (line 1 alice) ∷ [])
    ≡ record { raised = true; removed = 1; rest = other ∷ object (line 1 alice) ∷ [] }
unfolding prune_head age_of with_removed
prune_head_stuck = refl

scan_recent-newest_example : (scan_recent number 3 (ask 1 1 []) three).0 ≡ line 3 alice ∷ []
unfolding is_wanted entries_of keep_last is_tenant
scan_recent-newest_example =
    scan_recent-newest number 3 (ask 1 1 []) three (omega arith) (omega arith) (omega arith)

prune_head-prune_all_example :
    ((prune_head 2 (object (line 1 alice) ∷ object (line 2 bob) ∷ [])).raised ≡ false)
    × (prune_all false 2 (object (line 1 alice) ∷ object (line 2 bob) ∷ []) ≡ (
      some (prune_head 2 (object (line 1 alice) ∷ object (line 2 bob) ∷ [])).removed,
      (prune_head 2 (object (line 1 alice) ∷ object (line 2 bob) ∷ [])).rest,
    ))
prune_head-prune_all_example =
    prune_head-prune_all 2 0 (object (line 1 alice) ∷ object (line 2 bob) ∷ [])
      (line 1 alice, 1, refl, refl, omega arith, (line 2 bob, 2, refl, refl, omega arith, tt))

scan_recent-clear_example :
    (scan_recent number 3 (ask 0 2 bob) (clear_tenant alice three).1).0
    ≡ (scan_recent number 3 (ask 0 2 bob) three).0
unfolding clear_tenant sift_tenant
scan_recent-clear_example =
    scan_recent-clear number (ask 0 2 bob) alice 3 2 three (omega arith, omega arith) refl refl refl
      (omega arith)

abbrev small : Settings
small = record { task_max = 2; global_max = 3; prune_interval = 5; retention = 10 }

abbrev at : ℕ → Clock
at n = record { now = n; mono = n }

abbrev start : State
start = record {
  tasks = [];
  task_seqs = [];
  global = [];
  global_seq = 0;
  prune_until = 0;
  tenants = (codes "t", alice) ∷ [];
}

start-IsNumbered : IsNumbered small start
unfolding lookup
start-IsNumbered = record {
  global_ordered = (tt, tt);
  global_bounded = omega arith;
  task_ordered = λ t. (tt, tt);
  task_bounded = λ t. omega arith;
}

abbrev calls : List Call
calls =
    append (at 1) (codes "t") (codes "d") (codes "m") (codes "info")
    ∷ append (at 2) (codes "t") (codes "d") (codes "m") (codes "info")
    ∷ append (at 3) (codes "t") (codes "d") (codes "m") (codes "info")
    ∷ prune false 2
    ∷ clear alice
    ∷ []

run-IsNumbered_example : IsNumbered small (run small start calls)
run-IsNumbered_example = run-IsNumbered small start calls start-IsNumbered

line_shown_example :
    (get_global_logs 0 5 alice
      (append_log small (at 1) (codes "t") (codes "d") (codes "m") (codes "info") start)).0
    ≡ entry small (at 1) (codes "t") (codes "d") (codes "m") (codes "info") start ∷ []
unfolding is_tenant lookup entry_of
line_shown_example =
    line_shown small (at 1) (codes "t") (codes "d") (codes "m") (codes "info") start 5 alice
      start-IsNumbered refl (omega arith) (omega arith) refl
