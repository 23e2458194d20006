-- ===== src/Purge/Tests.antt =====
-- The purges at a small table, and the theorem on them.
use backup_center_ajust_cons.Base.{
  ℕ, ◌*◌, ◌≡◌, refl, Bool, true, false, ◌&&◌, List, [], ◌∷◌, none, some, any,
}
use backup_center_ajust_cons.Text.{Text, codes}
use backup_center_ajust_cons.Schedule.{us_per_day}
use backup_center_ajust_cons.Purge.{
  StoredBackup, Retainer, Disk, is_expired_for, purge_expired, purge_failed,
}
use backup_center_ajust_cons.Purge.Kept.{without, backups-purge_expired}

abbrev backup : Text → ℕ → StoredBackup
backup id day = record {
  id = id;
  tenant_id = codes "t";
  device_is_active = true;
  group_is_active = none;
  created_at = day * us_per_day;
  is_failed = false;
  file_path = some (codes "/f");
}

abbrev disk : Disk
disk = record {
  backups =
      backup (codes "1") 1
      ∷ record (backup (codes "2") 1) { group_is_active = some false }
      ∷ record (backup (codes "3") 5) { is_failed = true; file_path = some (codes "g") }
      ∷ [];
  files = codes "/f" ∷ codes "/app/storage/backups/g" ∷ [];
  deleted = 0;
  files_removed = 0;
}

abbrev always : Text → Bool
always path = true

abbrev tenants : List Retainer
tenants = record { id = codes "t"; is_active = true; retention_days = some 5 } ∷ []

abbrev today : ℕ
today = 9 * us_per_day

-- The first backup is over; the second is kept with its group, and the third is not old enough.
expired_files :
    (purge_expired always today 30 tenants disk).files ≡ codes "/app/storage/backups/g" ∷ []
unfolding purge_expired
expired_files = refl

failed_files : (purge_failed always today disk).files ≡ codes "/f" ∷ []
unfolding purge_failed
failed_files = refl

failed_deleted : (purge_failed always today disk).deleted ≡ 1
unfolding purge_failed
failed_deleted = refl

backups-purge_expired_example :
    (purge_expired always today 30 tenants disk).backups
    ≡ without
        (λ b. any (λ (t : Retainer). t.is_active && is_expired_for today 30 t b) tenants)
        disk.backups
backups-purge_expired_example = backups-purge_expired always today 30 tenants disk
