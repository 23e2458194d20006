-- ===== src/Billing/Access.antt =====
-- Which plan a tenant may choose, and how a plan is put on a tenant
-- (app/services/tenant_access_service.py), with the capacity table that the billing page shows
-- (`get_plan_capacity_map` of app/web/billing/controller.py).
pub mod Capacity
use backup_center_ajust_cons.Base.{
  ℕ, ◌+◌, ◌*◌, Bool, true, false, not, ◌&&◌, ◌||◌, List, [], ◌∷◌, Option, none, some, ltb,
  if◌then◌else◌, is_some, get_or,
}
use backup_center_ajust_cons.Base.Int.{ℤ, pos, pos_part, ltb_ℤ}
use backup_center_ajust_cons.Text.{Text, codes}
use backup_center_ajust_cons.Billing.{Moment, Plan, Tenant, int_or_zero}
use backup_center_ajust_cons.Billing.Policy.{us_per_day}
use backup_center_ajust_cons.Billing.Limits.{bytes_per_gb, storage_limit_bytes}

-- The `ValueError`s of `validate_plan_selection`.
pub data PlanError : Type 0 where
  invalid_plan : PlanError
  too_many_devices too_many_users : ℤ → ℕ → PlanError
  too_much_storage : ℕ → ℤ → PlanError

abbrev check_users : Plan → Option ℕ → Option PlanError
check_users p none = none
check_users p (some n) =
    if ltb_ℤ (int_or_zero p.max_users) (pos n)
    then some (too_many_users (int_or_zero p.max_users) n)
    else none

abbrev check_storage : Plan → Option ℕ → Option PlanError
check_storage p none = none
check_storage p (some n) =
    let gb = int_or_zero p.storage_quota_gb in
    if ltb_ℤ (pos 0) gb && ltb (pos_part gb * bytes_per_gb) n
    then some (too_much_storage n gb)
    else none

-- The first error.
abbrev or_error : Option PlanError → Option PlanError → Option PlanError
or_error none f = f
or_error (some e) f = some e

-- `validate_plan_selection`: none when it raises nothing
unfoldable pub validate_plan_selection : Option Plan → ℕ → Option ℕ → Option ℕ → Option PlanError
validate_plan_selection none devices users storage = some invalid_plan
validate_plan_selection (some p) devices users storage =
    if ltb_ℤ (int_or_zero p.max_devices) (pos devices)
    then some (too_many_devices (int_or_zero p.max_devices) devices)
    else or_error (check_users p users) (check_storage p storage)

-- `get_plan_display_name`
unfoldable pub plan_display_name : Option Text → Bool → Text
plan_display_name (some name) unlimited = name
plan_display_name none unlimited = if unlimited then codes "Acesso ilimitado" else codes "Sem plano"

-- `can_operate_without_plan`
unfoldable pub can_operate_without_plan : Tenant → Bool
can_operate_without_plan t = is_some t.plan_id || t.access_unlimited

-- `is_deleted`
unfoldable pub is_deleted : Tenant → Bool
is_deleted t = is_some t.deleted_at

-- `seed_trial_plan_fields`
unfoldable pub seed_trial_plan_fields : Moment → Option Plan → Tenant → Tenant
seed_trial_plan_fields now none t = t
seed_trial_plan_fields now (some p) t =
    let trial_days = int_or_zero p.trial_days in
    record t {
      plan_id = some p.id;
      plan = some p;
      subscription_status = some (codes "trial");
      trial_ends_at =
          if ltb_ℤ (pos 0) trial_days then some (now + pos_part trial_days * us_per_day) else none;
    }

-- `seed_pending_payment_plan_fields`
unfoldable pub seed_pending_payment_plan_fields : Option Plan → Tenant → Tenant
seed_pending_payment_plan_fields none t = t
seed_pending_payment_plan_fields (some p) t = record t {
  plan_id = some p.id;
  plan = some p;
  subscription_status = some (codes "pending_payment");
  trial_ends_at = none;
  current_period_end = none;
  billing_blocked_at = none;
  is_active = false;
}

-- An entry of the capacity table, and whether each limit is passed.
pub record PlanCapacity : Type 0 where
  pub eligible : Bool
  pub devices_over : Bool
  pub users_over : Bool
  pub storage_over : Bool

-- A limit of 0 or less is no limit.
abbrev pub is_over : ℤ → ℕ → Bool
is_over limit used = ltb_ℤ (pos 0) limit && ltb_ℤ limit (pos used)

-- The body of the loop of `get_plan_capacity_map`.
unfoldable pub plan_capacity : Plan → ℕ → ℕ → ℕ → PlanCapacity
unfolding storage_limit_bytes
plan_capacity p devices users storage =
    let d = is_over (int_or_zero p.max_devices) devices in
    let u = is_over (int_or_zero p.max_users) users in
    let s = ltb 0 (storage_limit_bytes (some p)) && ltb (storage_limit_bytes (some p)) storage in
    record { eligible = not (d || u || s); devices_over = d; users_over = u; storage_over = s }
