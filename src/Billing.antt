-- ===== src/Billing.antt =====
-- Plans, tenants and what a tenant may use (app/models/plan.py, app/models/tenant.py and the
-- services of the billing). The columns are naive datetimes: microseconds from a fixed start.
pub mod Policy
pub mod Limits
pub mod Access
pub mod Payment
use backup_center_ajust_cons.Base.{
  ℕ, ◌*◌, Bool, true, false, Option, none, some, if◌then◌else◌, ◌==◌, get_or,
}
use backup_center_ajust_cons.Base.Int.{ℤ, pos, negsuc, leb_ℤ, ltb_ℤ, pos_part}
use backup_center_ajust_cons.Text.{Text, codes, text_eq}

abbrev pub Moment : Type 0
Moment = ℕ

-- The columns of `plans` that the services read; an integer column may be NULL.
pub record Plan : Type 0 where
  pub id : Text
  pub price_monthly : ℤ
  pub price_yearly : Option ℤ
  pub trial_days : Option ℤ
  pub billing_period_days : Option ℤ
  pub payment_grace_days : Option ℤ
  pub max_devices : Option ℤ
  pub max_users : Option ℤ
  pub storage_quota_gb : Option ℤ
  pub download_quota_gb_month : Option ℤ
  pub is_active : Bool

-- The columns of `tenants` that the services read or write, with the plan that `plan_id` names.
pub record Tenant : Type 0 where
  pub id : Text
  pub plan_id : Option Text
  pub plan : Option Plan
  pub is_active : Bool
  pub subscription_status : Option Text
  pub trial_ends_at : Option Moment
  pub current_period_end : Option Moment
  pub billing_blocked_at : Option Moment
  pub deleted_at : Option Moment
  pub access_unlimited : Bool

-- `int(value or 0)`
abbrev pub int_or_zero : Option ℤ → ℤ
int_or_zero value = get_or value (pos 0)
