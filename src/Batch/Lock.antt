-- ===== src/Batch/Lock.antt =====
-- The lock of a tenant's batch (app/services/realtime_backup_logs.py). The store holds the value of
-- each tenant's key and the metadata of each task, as `get_task_meta` reads it: none when it is
-- missing or is no dict. Nothing expires, and no command fails.
pub mod Race
pub mod Alone
use backup_center_ajust_cons.Base.{
  ℕ, ◌≡◌, Bool, true, false, not, ◌&&◌, ◌||◌, List, [], ◌∷◌, Option, none, some, if◌then◌else◌,
  is_some,
}
use backup_center_ajust_cons.Text.{Text, is_empty, is_truthy, text_eq}
use backup_center_ajust_cons.Text.Dict.{Dict, lookup, insert, erase}

-- The fields of a task's metadata that the lock and the scheduler read; the activities are the
-- timestamps that can be read, of `last_child_activity_at`, `updated_at` and `created_at`.
pub record Meta : Type 0 where
  pub is_bulk : Bool
  pub completed : Bool
  pub tenant_id : Text
  pub operation_kind : Text
  pub activities : List ℕ

pub record Store : Type 0 where
  pub locks : Dict Text
  pub metas : Dict Meta

-- GET, where an empty value is as good as none
unfoldable pub holder : Text → Dict Text → Option Text
unfolding lookup
holder tenant locks = elim (lookup tenant locks) [
  | none ↦ none
  | some t ↦ if is_empty t then none else some t
]

-- `release_tenant_bulk_lock`; no task is the empty text
unfoldable pub release : Bool → Text → Text → Store → Store
unfolding holder text_eq erase
release connected tenant task s =
    if not connected || is_empty tenant
    then s
    else (if not (is_empty task) && is_other (holder tenant s.locks) task
        then s
        else record s { locks = erase tenant s.locks })
  where
    is_other : Option Text → Text → Bool
    is_other none t = false
    is_other (some current) t = not (text_eq current t)

-- A holder whose batch runs, or whose metadata is missing, keeps the lock.
unfoldable pub keeps_lock : Dict Meta → Text → Bool
unfolding lookup
keeps_lock metas task = elim (lookup task metas) [
  | none ↦ true
  | some m ↦ m.is_bulk && not m.completed
]

-- SET NX: whether it was set, and the locks
unfoldable pub set_new : Text → Text → Dict Text → Bool × Dict Text
unfolding lookup insert
set_new tenant task locks =
    if is_some (lookup tenant locks) then (false, locks) else (true, insert tenant task locks)

-- The end of `acquire_tenant_bulk_lock`, from SET NX on.
unfoldable pub take : Text → Text → Store → (Bool × Option Text) × Store
unfolding set_new holder
take tenant task s =
    let (ok, locks) = set_new tenant task s.locks in
    let s' = record s { locks = locks } in
    if ok then ((true, none), s') else ((false, holder tenant locks), s')

-- The part on the value that the key holds.
unfoldable pub contend : Text → Text → Store → Option Text → (Bool × Option Text) × Store
unfolding take keeps_lock erase
contend tenant task s none = take tenant task s
contend tenant task s (some existing) =
    if keeps_lock s.metas existing
    then ((false, some existing), s)
    else take tenant task (record s { locks = erase tenant s.locks })

-- `acquire_tenant_bulk_lock`: whether the batch may start, and the task that holds the lock otherwise;
-- `enabled` is `_tenant_bulk_single_lock_enabled`
unfoldable pub acquire : Bool → Bool → Text → Text → Store → (Bool × Option Text) × Store
unfolding contend holder
acquire enabled connected tenant task s =
    if not enabled || (not connected || (is_empty tenant || is_empty task))
    then ((true, none), s)
    else contend tenant task s (holder tenant s.locks)

-- `_write_task_meta` on a connected client
unfoldable pub write_meta : Bool → Text → Meta → Store → Store
unfolding release insert
write_meta enabled task m s =
    let s' = record s { metas = insert task m s.metas } in
    if enabled && (m.is_bulk && not (is_empty m.tenant_id))
    then (if m.completed
        then release true m.tenant_id task s'
        else record s' { locks = insert m.tenant_id task s'.locks })
    else s'
