-- ===== src/Purge.antt =====
-- The tasks that remove backups (`purge_expired_backups` and `purge_failed_backups_periodic` of
-- app/tasks/backups.py), on the backups with what the queries join to them and the files on the disk. The
-- moments are microseconds; a file that cannot be removed stays.
pub mod Kept
mod Tests
use backup_center_ajust_cons.Base.{
  ℕ, ◌+◌, ◌*◌, Bool, true, false, not, ◌&&◌, List, [], ◌∷◌, ◌++◌, Option, none, some, if◌then◌else◌,
  ltb, filter, get_or,
}
use backup_center_ajust_cons.Text.{Text, codes, is_empty, strip, text_eq, mem_text, starts_with}
use backup_center_ajust_cons.Schedule.{us_per_day}

-- A backup, with its device and the group of it; no file is none.
pub record StoredBackup : Type 0 where
  pub id : Text
  pub tenant_id : Text
  pub device_is_active : Bool
  pub group_is_active : Option Bool
  pub created_at : ℕ
  pub is_failed : Bool
  pub file_path : Option Text

-- A tenant, with the retention of its plan, if it has one.
pub record Retainer : Type 0 where
  pub id : Text
  pub is_active : Bool
  pub retention_days : Option ℕ

pub record Disk : Type 0 where
  pub backups : List StoredBackup
  pub files : List Text
  pub deleted : ℕ
  pub files_removed : ℕ

abbrev pub or_active : Option Bool → Bool
or_active none = true
or_active (some b) = b

-- `tenant.plan.backup_retention_days`, unless there is none
unfoldable pub retention_of : ℕ → Retainer → ℕ
retention_of default t = elim t.retention_days [
  | none ↦ default
  | some days ↦ if ltb 0 days then days else default
]

-- The filter of the query: an old backup of the tenant whose device and group are active.
unfoldable pub is_expired_for : (now default : ℕ) → Retainer → StoredBackup → Bool
unfolding retention_of text_eq
is_expired_for now default t b =
    text_eq b.tenant_id t.id
    && (ltb (b.created_at + retention_of default t * us_per_day) now
        && (b.device_is_active && or_active b.group_is_active))

-- The filter of `purge_failed_backups_periodic`: failed, and older than three days.
unfoldable pub is_stale_failure : ℕ → StoredBackup → Bool
is_stale_failure now b = b.is_failed && ltb (b.created_at + 3 * us_per_day) now

-- `os.path.join("/app/storage/backups", path)`
abbrev pub stored_path : Text → Text
unfolding strip starts_with
stored_path path =
    let p = strip path in
    if is_empty p
    then []
    else (if starts_with (codes "/") p then p else codes "/app/storage/backups/" ++ p)

abbrev pub delete_backup : StoredBackup → Disk → Disk
delete_backup b d = record d {
  backups = filter (λ (c : StoredBackup). not (text_eq c.id b.id)) d.backups;
  deleted = d.deleted + 1;
}

module _ (removable : Text → Bool) where
  -- `os.remove` of a file that is there
  unfoldable pub remove_file : Text → Disk → Disk
  unfolding mem_text text_eq
  remove_file path d =
      if not (is_empty path) && (mem_text path d.files && removable path)
      then record d {
        files = filter (λ f. not (text_eq f path)) d.files;
        files_removed = d.files_removed + 1;
      }
      else d

  -- The loop over the backups that the query found; `path_of` is the path that the task looks at.
  unfoldable pub purge_all : (Option Text → Text) → List StoredBackup → Disk → Disk
  unfolding remove_file text_eq
  purge_all path_of [] d = d
  purge_all path_of (b ∷ bs) d =
      purge_all path_of bs (delete_backup b (remove_file (path_of b.file_path) d))

  -- The part of a tenant.
  unfoldable pub purge_tenant : (now default : ℕ) → Retainer → Disk → Disk
  unfolding purge_all is_expired_for
  purge_tenant now default t d =
      purge_all (λ path. get_or path []) (filter (is_expired_for now default t) d.backups) d

  -- `purge_expired_backups`
  unfoldable pub purge_expired : (now default : ℕ) → List Retainer → Disk → Disk
  unfolding purge_tenant
  purge_expired now default [] d = d
  purge_expired now default (t ∷ ts) d =
      purge_expired now default ts (if t.is_active then purge_tenant now default t d else d)

  -- `purge_failed_backups_periodic`
  unfoldable pub purge_failed : ℕ → Disk → Disk
  unfolding purge_all is_stale_failure stored_path
  purge_failed now d =
      purge_all (λ path. stored_path (get_or path [])) (filter (is_stale_failure now) d.backups) d
