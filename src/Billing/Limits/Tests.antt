-- ===== src/Billing/Limits/Tests.antt =====
-- The limits of a plan at concrete tenants.
use backup_center_ajust_cons.Base.{
  ℕ, ◌+◌, ◌≤◌, ◌≡◌, refl, true, false, none, some, List, [], ◌∷◌, arith,
}
use backup_center_ajust_cons.Base.Int.{pos}
use backup_center_ajust_cons.Text.{Text, codes}
use backup_center_ajust_cons.Billing.{Plan, Tenant}
use backup_center_ajust_cons.Billing.Limits.{
  DeviceRow, UserRow, BackupRow, device_count, storage_used_bytes, check_can_add_device,
  download_used_bytes, monthly_download_limit_bytes,
}
use backup_center_ajust_cons.Billing.Limits.Download.{consume_all, consume_all_bounded}

abbrev plan : Plan
plan = record {
  id = codes "p1";
  price_monthly = pos 4990;
  price_yearly = none;
  trial_days = some (pos 7);
  billing_period_days = some (pos 30);
  payment_grace_days = some (pos 3);
  max_devices = some (pos 2);
  max_users = some (pos 1);
  storage_quota_gb = some (pos 1);
  download_quota_gb_month = some (pos 1);
  is_active = true;
}

abbrev tenant : Tenant
tenant = record {
  id = codes "t1";
  plan_id = some (codes "p1");
  plan = some plan;
  is_active = true;
  subscription_status = some (codes "active");
  trial_ends_at = none;
  current_period_end = none;
  billing_blocked_at = none;
  deleted_at = none;
  access_unlimited = false;
}

abbrev device : DeviceRow
device = record { id = codes "d1"; tenant_id = codes "t1"; is_active = none }

abbrev off : DeviceRow
off = record { id = codes "d2"; tenant_id = codes "t1"; is_active = some false }

abbrev user : UserRow
user = record { tenant_id = codes "t1"; is_active = some true }

abbrev backup : BackupRow
backup = record { device_id = codes "d1"; file_size_bytes = some 1000 }

full : (check_can_add_device tenant (device ∷ off ∷ device ∷ [])).allowed ≡ false
unfolding check_can_add_device device_count
full = refl

used : storage_used_bytes (codes "t1") (backup ∷ backup ∷ []) (device ∷ []) ≡ 2000
unfolding storage_used_bytes
used = refl

abbrev period : Text
period = codes "2026-11"

-- The second download would pass the limit; the third fits.
abbrev sizes : List ℕ
sizes = 700000000 ∷ 700000000 ∷ 300000000 ∷ []

two_of_three : (consume_all tenant period sizes []).0 ≡ 1000000000
unfolding consume_all
two_of_three = refl

consume_all_bounded_example :
    let (sum, ms') = consume_all tenant period sizes [] in
    (download_used_bytes tenant.id period ms' ≡ download_used_bytes tenant.id period [] + sum)
    × (download_used_bytes tenant.id period ms' ≤ monthly_download_limit_bytes tenant.plan)
unfolding monthly_download_limit_bytes download_used_bytes
consume_all_bounded_example =
    consume_all_bounded tenant period sizes [] refl (omega arith) (omega arith)
