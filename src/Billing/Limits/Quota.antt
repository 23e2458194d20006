-- ===== src/Billing/Limits/Quota.antt =====
-- A plan's limits against what the checks allow.
use backup_center_ajust_cons.Base.{
  ◌+◌, ◌≤◌, ◌<◌, ◌≡◌, ◌↔◌, true, false, List, ◌∷◌, Option, some, arith,
}
use backup_center_ajust_cons.Base.Int.{ℤ}
use backup_center_ajust_cons.Text.{Text}
use backup_center_ajust_cons.Billing.{Plan, Tenant}
use backup_center_ajust_cons.Billing.Limits.{
  DeviceRow, UserRow, BackupRow, as_int, device_count, user_count, storage_used_bytes,
  storage_limit_bytes, check_can_add_device, check_can_add_user, check_storage_before_backup,
}

device_count_cons :
    (tenant : Text) (d : DeviceRow) (rows : List DeviceRow)
    → d.tenant_id ≡ tenant
    → device_count tenant (d ∷ rows) ≤ device_count tenant rows + 1
unfolding device_count
device_count_cons tenant d rows h = ground arith

user_count_cons :
    (tenant : Text) (u : UserRow) (rows : List UserRow)
    → u.tenant_id ≡ tenant
    → user_count tenant (u ∷ rows) ≤ user_count tenant rows + 1
unfolding user_count
user_count_cons tenant u rows h = ground arith

-- A tenant that pays by plan, with a plan, may add one of its devices exactly when the plan's
-- limit is positive and fewer are active than the limit, or the limit is 0; and under a positive
-- limit it still holds after the device is added.
pub check_can_add_device_lem :
    (t : Tenant) (p : Plan) (d : DeviceRow) (rows : List DeviceRow)
    → t.access_unlimited ≡ false
    → t.plan ≡ some p
    → d.tenant_id ≡ t.id
    → let limit = as_int p.max_devices 0 in
      let allowed = (check_can_add_device t rows).allowed in
      (limit ≡ 0 → allowed ≡ true)
      × (0 < limit → (allowed ≡ true) ↔ (device_count t.id rows < limit))
      × (0 < limit → allowed ≡ true → device_count t.id (d ∷ rows) ≤ limit)
unfolding check_can_add_device
check_can_add_device_lem t p d rows u e i = (
  λ z. ground arith,
  λ z. (λ a. ground arith, λ a. ground arith),
  λ z a. ground (arith, device_count_cons t.id d rows i),
)

-- A tenant with a plan that limits its users may add one exactly when fewer are active than the
-- limit, and then the limit still holds after the user is added; a limit of 0 refuses nothing.
pub check_can_add_user_lem :
    (t : Tenant) (p : Plan) (v : UserRow) (rows : List UserRow)
    → t.access_unlimited ≡ false
    → t.plan ≡ some p
    → v.tenant_id ≡ t.id
    → let limit = as_int p.max_users 0 in
      let allowed = (check_can_add_user t rows).allowed in
      (limit ≡ 0 → allowed ≡ true)
      × (0 < limit → (allowed ≡ true) ↔ (user_count t.id rows < limit))
      × (0 < limit → allowed ≡ true → user_count t.id (v ∷ rows) ≤ limit)
unfolding check_can_add_user
check_can_add_user_lem t p v rows u e i = (
  λ z. ground arith,
  λ z. (λ a. ground arith, λ a. ground arith),
  λ z a. ground (arith, user_count_cons t.id v rows i),
)

-- A backup of at least one byte of a tenant with a plan that limits its storage may be stored
-- exactly when the bytes in use and its own fit in the limit.
pub check_storage_before_backup_lem :
    (t : Tenant) (bs : List BackupRow) (ds : List DeviceRow) (size : Option ℤ)
    → t.access_unlimited ≡ false
    → 0 < storage_limit_bytes t.plan
    → 0 < as_int size 0
    → ((check_storage_before_backup t bs ds size).allowed ≡ true)
      ↔ (storage_used_bytes t.id bs ds + as_int size 0 ≤ storage_limit_bytes t.plan)
unfolding check_storage_before_backup
check_storage_before_backup_lem t bs ds size u l s = (λ a. ground arith, λ a. ground arith)
