-- ===== src/Billing/Policy/Tests.antt =====
-- The policy at concrete tenants.
use backup_center_ajust_cons.Base.{◌*◌, ◌≡◌, refl, true, false, none, some, [], ◌∷◌}
use backup_center_ajust_cons.Base.Int.{pos}
use backup_center_ajust_cons.Text.{codes}
use backup_center_ajust_cons.Billing.{Moment, Plan, Tenant}
use backup_center_ajust_cons.Billing.Policy.{
  us_per_day, evaluate_tenant, resolve_due_at, plan_grace_days, enforce_access_policy,
}
use backup_center_ajust_cons.Billing.Policy.Evaluate.{IsLate, evaluate_tenant-IsLate}
use backup_center_ajust_cons.Billing.Policy.Again.{enforce_access_policy_again}

abbrev plan : Plan
plan = record {
  id = codes "p1";
  price_monthly = pos 4990;
  price_yearly = none;
  trial_days = some (pos 7);
  billing_period_days = some (pos 30);
  payment_grace_days = some (pos 3);
  max_devices = some (pos 2);
  max_users = some (pos 2);
  storage_quota_gb = some (pos 1);
  download_quota_gb_month = some (pos 1);
  is_active = true;
}

abbrev tenant : Tenant
tenant = record {
  id = codes "t1";
  plan_id = some (codes "p1");
  plan = some plan;
  is_active = true;
  subscription_status = some (codes "active");
  trial_ends_at = none;
  current_period_end = some (100 * us_per_day);
  billing_blocked_at = none;
  deleted_at = none;
  access_unlimited = false;
}

abbrev now : Moment
now = 104 * us_per_day

blocked_after_grace :
    (enforce_access_policy now (tenant ∷ [])).1
    ≡ record { processed = 1; marked_past_due = 0; blocked = 1; reactivated = 0 }
unfolding enforce_access_policy
blocked_after_grace = refl

evaluate_tenant-IsLate_example :
    IsLate now (100 * us_per_day) (plan_grace_days (some plan)) (evaluate_tenant tenant now)
unfolding resolve_due_at
evaluate_tenant-IsLate_example = evaluate_tenant-IsLate tenant now (100 * us_per_day) refl

enforce_access_policy_again_example :
    let ts' = (enforce_access_policy now (tenant ∷ [])).0 in
    let (ts'', c) = enforce_access_policy now ts' in
    (ts'' ≡ ts') × (c.marked_past_due ≡ 0) × (c.blocked ≡ 0) × (c.reactivated ≡ 0)
enforce_access_policy_again_example = enforce_access_policy_again now (tenant ∷ [])
