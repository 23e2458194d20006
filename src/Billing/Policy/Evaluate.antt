-- ===== src/Billing/Policy/Evaluate.antt =====
-- When a tenant is overdue, blocked or alerted, in terms of its due date.
use backup_center_ajust_cons.Base.{
  ℕ, ◌+◌, ◌-◌, ◌*◌, ◌≤◌, ◌<◌, ◌≡◌, ◌↔◌, true, false, not, ◌&&◌, Option, none, some, arith, is_some,
}
use backup_center_ajust_cons.Billing.{Moment, Tenant}
use backup_center_ajust_cons.Billing.Policy.{
  us_per_day, Evaluation, evaluate, evaluate_tenant, resolve_due_at, plan_grace_days,
  build_runtime_alert, Alert,
}

-- What an evaluation says of a due date.
pub record IsLate (now due grace : ℕ) (e : Evaluation) : Type 0 where
  pub overdue_iff : (e.overdue ≡ true) ↔ (due < now)
  pub block_iff : (e.should_block ≡ true) ↔ ((due < now) × (due + grace * us_per_day ≤ now))
  pub left_exact : due < now → e.should_block ≡ false → e.days_until_block + e.overdue_days ≡ grace
  pub days_exact :
      due < now
      → (due + (e.overdue_days - 1) * us_per_day ≤ now) × (now < due + e.overdue_days * us_per_day)

evaluate-IsLate : (now grace due : ℕ) → IsLate now due grace (evaluate now grace (some due))
unfolding evaluate
evaluate-IsLate now grace due = record {
  overdue_iff = (λ h. ground arith, λ h. ground arith);
  block_iff = (λ h. (ground arith, ground arith), λ h. ground arith);
  left_exact = λ h k. ground arith;
  days_exact = λ h. (ground arith, ground arith);
}

-- A tenant with a due date is overdue exactly when the date has passed, is to be blocked exactly
-- when its grace days have passed too, and otherwise the days left and the days overdue add up to
-- the grace; the days overdue count each started day.
pub evaluate_tenant-IsLate :
    (t : Tenant) (now due : Moment)
    → resolve_due_at t ≡ some due
    → IsLate now due (plan_grace_days t.plan) (evaluate_tenant t now)
unfolding evaluate_tenant
evaluate_tenant-IsLate t now due h = rw h (evaluate-IsLate now (plan_grace_days t.plan) due)

evaluate-days_left :
    (now grace : ℕ) (due : Option Moment)
    → let e = evaluate now grace due in
      e.overdue ≡ true → e.should_block ≡ false → e.days_until_block + e.overdue_days ≡ grace
unfolding evaluate
evaluate-days_left now grace none h k = cc
evaluate-days_left now grace (some due) h k = ground arith

days_left :
    (t : Tenant) (now : Moment)
    → let e = evaluate_tenant t now in
      e.overdue ≡ true
      → e.should_block ≡ false
      → e.days_until_block + e.overdue_days ≡ plan_grace_days t.plan
unfolding evaluate_tenant
days_left t now h k = evaluate-days_left now (plan_grace_days t.plan) (resolve_due_at t) h k

-- An alert is raised exactly for a tenant that pays by plan, is overdue and is not to be blocked
-- yet; it says that this is the last day exactly when the days overdue have reached the grace.
pub alert_iff :
    (t : Tenant) (now : Moment)
    → (is_some (build_runtime_alert t now) ≡ (
        not t.access_unlimited
        && (evaluate_tenant t now).overdue
        && not (evaluate_tenant t now).should_block))
      × ((a : Alert)
          → build_runtime_alert t now ≡ some a
          → (a.is_last_day ≡ true) ↔ (a.overdue_days ≡ plan_grace_days t.plan))
unfolding build_runtime_alert
alert_iff t now = (
  ground arith,
  λ a h. (λ l. ground (arith, days_left t now), λ l. ground (arith, days_left t now)),
)
