-- ===== src/Task/Lock.antt =====
-- How a backup task waits for a slot of its jump host: `_jump_host_lock_context` of
-- app/tasks/backups.py. The locks of Redis, the clock and the stop flags are what each round of the
-- loop sees of them. The counters and histograms are left out.
pub mod Wait
use backup_center_ajust_cons.Base.{
  ℕ, ◌+◌, ◌≤◌, ◌<◌, ◌≡◌, Bool, true, false, not, ◌&&◌, ◌||◌, List, [], ◌∷◌, ◌++◌, Option, none,
  some, suc, zero, leb, ltb, ◌==◌, if◌then◌else◌, min, max,
}
use backup_center_ajust_cons.Text.{Text, codes, strip}
use backup_center_ajust_cons.Text.Dict.{Dict}
use backup_center_ajust_cons.Redis.{Redis}
use backup_center_ajust_cons.JumpHost.Slots
use backup_center_ajust_cons.JumpHost.Slots.{LockInfo, base_of, effective_slots, or_number}
use backup_center_ajust_cons.Task.Gate.{show_port}

pub record Settings : Type 0 where
  pub wait_seconds : ℕ
  pub wait_seconds_large_bulk : ℕ
  pub large_bulk_devices : ℕ

-- `_effective_jump_host_wait_seconds`, of the number of devices of the batch (0 for none)
unfoldable pub effective_wait : Settings → ℕ → ℕ
effective_wait cfg devices =
    if leb cfg.large_bulk_devices devices
    then max 30 (min cfg.wait_seconds cfg.wait_seconds_large_bulk)
    else cfg.wait_seconds

-- What one round of the loop sees: the stop flags when it starts, the seconds since the wait
-- began, whether the lock of a slot (from 1) can be had, and the flags while it sleeps. A lock that
-- raises counts as one that cannot be had.
pub record Round : Type 0 where
  pub stopped : Bool
  pub elapsed : ℕ
  pub acquires : ℕ → Bool
  pub stopped_asleep : Bool

-- The loop over the slots: the first of `n` slots from `idx` whose lock can be had.
unfoldable pub first_slot : (ℕ → Bool) → ℕ → ℕ → Option ℕ
first_slot acquires idx zero = none
first_slot acquires idx (suc n) =
    let rest = first_slot acquires (idx + 1) n in if acquires idx then some idx else rest

pub data Waited : Type 0 where
  acquired : ℕ → Waited
  cancelled timed_out out_of_fuel : Waited

-- After the loop over the slots: a slot is had, or the task sleeps and goes on.
abbrev pub after_slots : Option ℕ → Bool → Waited → Waited
after_slots (some idx) asleep rest = acquired idx
after_slots none asleep rest = if asleep then cancelled else rest

-- The loop, from round `i`, with at most `fuel` rounds.
unfoldable pub wait : ℕ → ℕ → (ℕ → Round) → ℕ → ℕ → Waited
unfolding first_slot
wait limit slots rounds zero i = out_of_fuel
wait limit slots rounds (suc fuel) i =
    let rest = wait limit slots rounds fuel (i + 1) in
    let r = rounds i in
    if r.stopped
    then cancelled
    else if leb limit r.elapsed
    then timed_out
    else after_slots (first_slot r.acquires 1 slots) r.stopped_asleep rest

-- What the context yields, or the error it raises.
pub data Entered : Type 0 where
  entered : Option LockInfo → Entered
  slot_cancelled slot_timeout : Text → Entered

unfoldable pub cancelled_text : Text → Text
cancelled_text label =
    codes "Execucao interrompida enquanto aguardava slot do Jump Host " ++ label ++ codes "."

unfoldable pub timeout_text : Text → ℕ → ℕ → Text
unfolding show_port
timeout_text label slots limit =
    codes "Timeout aguardando slot do Jump Host "
    ++ label
    ++ codes " (limite "
    ++ show_port slots
    ++ codes " conexoes simultaneas) apos "
    ++ show_port limit
    ++ codes "s."

abbrev enter_with : LockInfo → ℕ → ℕ → Waited → Entered
unfolding cancelled_text timeout_text
enter_with info slots limit (acquired idx) = entered (some (record info { max_slots = slots }))
enter_with info slots limit cancelled = slot_cancelled (cancelled_text info.label)
enter_with info slots limit timed_out = slot_timeout (timeout_text info.label slots limit)
enter_with info slots limit out_of_fuel = slot_timeout (timeout_text info.label slots limit)

-- The entry of `_jump_host_lock_context`. The fuel is one round for each second of the limit and
-- one more, since each round sleeps a second.
unfoldable pub enter :
    (redis : Redis)
    → Slots.Settings
    → Bool
    → Dict ℕ
    → ℕ
    → Option LockInfo
    → (ℕ → Round)
    → redis.State
    → Entered
unfolding wait effective_slots cancelled_text timeout_text
enter redis cfg connected overrides limit none rounds s = entered none
enter redis cfg connected overrides limit (some info) rounds s =
    if connected
    then (let base = base_of redis cfg info in
        let slots = effective_slots redis cfg true overrides info.label base s in
        enter_with (record info { base_slots = base }) slots limit
          (wait limit slots rounds (limit + 1) 0))
    else entered (some (record info { max_slots = or_number info.base_slots 1 }))
