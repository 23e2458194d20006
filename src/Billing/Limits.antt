-- ===== src/Billing/Limits.antt =====
-- What a plan allows (app/services/plan_limits_service.py): devices, users, storage, downloads.
-- The month of a download (`period_key_month`) is given as its text.
pub mod Quota
pub mod Download
mod Tests
use backup_center_ajust_cons.Base.{
  ℕ, ◌+◌, ◌*◌, ◌≤◌, ◌≡◌, Bool, true, false, not, ◌&&◌, List, [], ◌∷◌, Option, none, some, leb, ltb,
  if◌then◌else◌, is_some, get_or, length, filter, ◌==◌,
}
use backup_center_ajust_cons.Base.Int.{ℤ, pos, pos_part, leb_ℤ}
use backup_center_ajust_cons.Text.{Text, text_eq}
use backup_center_ajust_cons.Billing.{Plan, Tenant}

abbrev pub bytes_per_gb : ℕ
bytes_per_gb = 1073741824

-- The texts that a refusal gives.
pub data Reason : Type 0 where
  ok no_plan : Reason
  devices_reached users_reached storage_exceeded downloads_exceeded : ℕ → ℕ → Reason

-- `LimitCheckResult`
pub record LimitCheck : Type 0 where
  pub allowed : Bool
  pub reason : Reason
  pub used_bytes : ℕ
  pub limit_bytes : ℕ
  pub used_count : ℕ
  pub limit_count : ℕ

abbrev pub allow : LimitCheck
allow = record {
  allowed = true;
  reason = ok;
  used_bytes = 0;
  limit_bytes = 0;
  used_count = 0;
  limit_count = 0;
}

abbrev pub refuse_no_plan : LimitCheck
refuse_no_plan = record allow { allowed = false; reason = no_plan }

abbrev pub count_check : Bool → Reason → ℕ → ℕ → LimitCheck
count_check allowed reason used limit = record allow {
  allowed = allowed;
  reason = reason;
  used_count = used;
  limit_count = limit;
}

abbrev pub bytes_check : Bool → Reason → ℕ → ℕ → LimitCheck
bytes_check allowed reason used limit = record allow {
  allowed = allowed;
  reason = reason;
  used_bytes = used;
  limit_bytes = limit;
}

-- `_as_int` with the minimum 0: NULL is the default, and a negative number is 0.
abbrev pub as_int : Option ℤ → ℕ → ℕ
as_int value default = pos_part (get_or value (pos default))

-- `storage_limit_bytes`
unfoldable pub storage_limit_bytes : Option Plan → ℕ
storage_limit_bytes none = 0
storage_limit_bytes (some p) = as_int p.storage_quota_gb 10 * bytes_per_gb

-- `monthly_download_limit_bytes`
unfoldable pub monthly_download_limit_bytes : Option Plan → ℕ
monthly_download_limit_bytes none = 0
monthly_download_limit_bytes (some p) = as_int p.download_quota_gb_month 20 * bytes_per_gb

-- `has_plan_access`
unfoldable pub has_plan_access : Option Tenant → Bool
has_plan_access none = false
has_plan_access (some t) = if t.access_unlimited then true else is_some t.plan_id

pub record DeviceRow : Type 0 where
  pub id : Text
  pub tenant_id : Text
  pub is_active : Option Bool

pub record UserRow : Type 0 where
  pub tenant_id : Text
  pub is_active : Option Bool

pub record BackupRow : Type 0 where
  pub device_id : Text
  pub file_size_bytes : Option ℕ

-- `is_active IS NOT FALSE`
abbrev pub is_not_false : Option Bool → Bool
is_not_false none = true
is_not_false (some b) = b

-- `is_active IS TRUE`
abbrev pub is_true : Option Bool → Bool
is_true none = false
is_true (some b) = b

unfoldable pub device_count : Text → List DeviceRow → ℕ
unfolding text_eq
device_count tenant rows =
    length (filter (λ (d : DeviceRow). text_eq d.tenant_id tenant && is_not_false d.is_active) rows)

unfoldable pub user_count : Text → List UserRow → ℕ
unfolding text_eq
user_count tenant rows =
    length (filter (λ (u : UserRow). text_eq u.tenant_id tenant && is_true u.is_active) rows)

-- The size of a backup for each device of the tenant that it joins with.
joined_size : Text → BackupRow → List DeviceRow → ℕ
unfolding text_eq
joined_size tenant b [] = 0
joined_size tenant b (d ∷ ds) =
    (if text_eq b.device_id d.id && text_eq d.tenant_id tenant
      then get_or b.file_size_bytes 0
      else 0)
    + joined_size tenant b ds

-- `get_storage_used_bytes`
unfoldable pub storage_used_bytes : Text → List BackupRow → List DeviceRow → ℕ
unfolding joined_size
storage_used_bytes tenant [] ds = 0
storage_used_bytes tenant (b ∷ bs) ds = joined_size tenant b ds + storage_used_bytes tenant bs ds

-- `check_can_add_device`
unfoldable pub check_can_add_device : Tenant → List DeviceRow → LimitCheck
check_can_add_device t rows = if t.access_unlimited then allow else elim t.plan [
  | none ↦ refuse_no_plan
  | some p ↦
      let limit = as_int p.max_devices 0 in
      let used = device_count t.id rows in
      if ltb 0 limit && leb limit used
      then count_check false (devices_reached used limit) used limit
      else count_check true ok used limit
]

-- `check_can_add_user`
unfoldable pub check_can_add_user : Tenant → List UserRow → LimitCheck
check_can_add_user t rows = if t.access_unlimited then allow else elim t.plan [
  | none ↦ refuse_no_plan
  | some p ↦
      let limit = as_int p.max_users 0 in
      let used = user_count t.id rows in
      if ltb 0 limit && leb limit used
      then count_check false (users_reached used limit) used limit
      else count_check true ok used limit
]

-- `check_storage_before_backup`; the size is `max(int(size or 0), 0)` of an integer.
unfoldable pub check_storage_before_backup :
    Tenant → List BackupRow → List DeviceRow → Option ℤ → LimitCheck
unfolding storage_limit_bytes
check_storage_before_backup t bs ds size =
    let incoming = as_int size 0 in
    if leb incoming 0
    then allow
    else if t.access_unlimited
    then allow
    else if is_some t.plan
    then (let limit = storage_limit_bytes t.plan in
        let used = storage_used_bytes t.id bs ds in
        if ltb 0 limit && ltb limit (used + incoming)
        then bytes_check false (storage_exceeded used limit) used limit
        else bytes_check true ok used limit)
    else refuse_no_plan

-- A row of `tenant_usage_metrics` with the metric `download_bytes`.
pub record Metric : Type 0 where
  pub tenant_id : Text
  pub period_key : Text
  pub value_bytes : ℕ
  pub events_count : ℕ

abbrev pub is_metric_of : Text → Text → Metric → Bool
is_metric_of tenant period m = text_eq m.tenant_id tenant && text_eq m.period_key period

-- The bytes of the first row of the tenant and the month:
-- `get_download_used_bytes_current_month`.
unfoldable pub download_used_bytes : Text → Text → List Metric → ℕ
unfolding text_eq
download_used_bytes tenant period [] = 0
download_used_bytes tenant period (m ∷ ms) =
    if is_metric_of tenant period m then m.value_bytes else download_used_bytes tenant period ms

unfoldable pub has_metric : Text → Text → List Metric → Bool
unfolding text_eq
has_metric tenant period [] = false
has_metric tenant period (m ∷ ms) =
    if is_metric_of tenant period m then true else has_metric tenant period ms

-- The row that the query finds, or a new row of 0 at the end of the table.
unfoldable pub ensure_metric : Text → Text → List Metric → List Metric
unfolding text_eq
ensure_metric tenant period [] =
    (record { tenant_id = tenant; period_key = period; value_bytes = 0; events_count = 0 }) ∷ []
ensure_metric tenant period (m ∷ ms) =
    if is_metric_of tenant period m then m ∷ ms else m ∷ ensure_metric tenant period ms

-- Adds a download to the first row of the tenant and the month.
unfoldable pub add_download : Text → Text → ℕ → List Metric → List Metric
unfolding text_eq
add_download tenant period size [] = []
add_download tenant period size (m ∷ ms) =
    if is_metric_of tenant period m
    then (record m { value_bytes = m.value_bytes + size; events_count = m.events_count + 1 }) ∷ ms
    else m ∷ add_download tenant period size ms

-- The last part of `consume_download_bytes`, on a table that has the row.
unfoldable pub consume_from : Tenant → Text → ℕ → List Metric → LimitCheck × List Metric
unfolding monthly_download_limit_bytes download_used_bytes add_download
consume_from t period size ms =
    let limit = monthly_download_limit_bytes t.plan in
    let used = download_used_bytes t.id period ms in
    if ltb 0 limit && ltb limit (used + size)
    then (bytes_check false (downloads_exceeded used limit) used limit, ms)
    else (bytes_check true ok (used + size) limit, add_download t.id period size ms)

-- `consume_download_bytes`
unfoldable pub consume_download_bytes :
    Tenant → Text → Option ℤ → List Metric → LimitCheck × List Metric
unfolding consume_from ensure_metric
consume_download_bytes t period download_size ms =
    let size = as_int download_size 0 in
    if leb size 0
    then (allow, ms)
    else if t.access_unlimited
    then (allow, ms)
    else if is_some t.plan
    then consume_from t period size (ensure_metric t.id period ms)
    else (refuse_no_plan, ms)
