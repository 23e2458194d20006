-- ===== src/Billing/Policy.antt =====
-- When a tenant is overdue and when it is blocked (app/services/billing_policy_service.py).
-- `total_seconds() // 86400` is floating point in the code; it is the exact quotient for periods
-- below 270 years, which Python documents, and is written so here.
pub mod Evaluate
pub mod Enforce
pub mod Again
mod Tests
use backup_center_ajust_cons.Base.{
  ℕ, ◌+◌, ◌-◌, ◌*◌, ◌/◌, ◌≤◌, ◌<◌, ◌≡◌, Bool, true, false, not, ◌&&◌, ◌||◌, List, [], ◌∷◌, Option,
  none, some, leb, ltb, if◌then◌else◌, max, is_some, get_or, map,
}
use backup_center_ajust_cons.Base.Int.{ℤ, pos, leb_ℤ, ltb_ℤ, pos_part}
use backup_center_ajust_cons.Text.{Text, codes, normalize, text_eq, mem_text}
use backup_center_ajust_cons.Billing.{Moment, Plan, Tenant, int_or_zero}

abbrev pub us_per_day : ℕ
us_per_day = 86400 * 1000000

abbrev pub period_of : Option Plan → ℤ
period_of none = pos 0
period_of (some p) = int_or_zero p.billing_period_days

abbrev pub grace_of : Option Plan → ℤ
grace_of none = pos 0
grace_of (some p) = int_or_zero p.payment_grace_days

-- `plan_period_days`
unfoldable pub plan_period_days : Option Plan → ℕ
plan_period_days plan =
    let days = period_of plan in if ltb_ℤ (pos 0) days then pos_part days else 30

-- `plan_grace_days`
unfoldable pub plan_grace_days : Option Plan → ℕ
plan_grace_days plan = let days = grace_of plan in if leb_ℤ (pos 0) days then pos_part days else 3

-- `resolve_due_at`
unfoldable pub resolve_due_at : Tenant → Option Moment
resolve_due_at t =
    if is_some t.current_period_end
    then t.current_period_end
    else if is_some t.trial_ends_at
    then t.trial_ends_at
    else none

-- `BillingPolicyEvaluation`
pub record Evaluation : Type 0 where
  pub overdue : Bool
  pub should_block : Bool
  pub overdue_days : ℕ
  pub grace_days : ℕ
  pub days_until_block : ℕ
  pub due_at : Option Moment

abbrev pub on_time : ℕ → Option Moment → Evaluation
on_time grace due = record {
  overdue = false;
  should_block = false;
  overdue_days = 0;
  grace_days = grace;
  days_until_block = grace;
  due_at = due;
}

abbrev pub late : ℕ → ℕ → Moment → Evaluation
late grace days due = record {
  overdue = true;
  should_block = ltb grace days;
  overdue_days = days;
  grace_days = grace;
  days_until_block = grace - days;
  due_at = some due;
}

-- `evaluate_tenant`: `grace - days` stops at 0, as the code's `max(…, 0)` does.
unfoldable pub evaluate : Moment → ℕ → Option Moment → Evaluation
evaluate now grace none = on_time grace none
evaluate now grace (some due) =
    if leb now due
    then on_time grace (some due)
    else late grace (max ((now - due) / us_per_day + 1) 1) due

unfoldable pub evaluate_tenant : Tenant → Moment → Evaluation
unfolding evaluate resolve_due_at plan_grace_days
evaluate_tenant t now = evaluate now (plan_grace_days t.plan) (resolve_due_at t)

-- The dict of `build_runtime_alert`, without its texts: the alert says "last day" when no day is
-- left.
pub record Alert : Type 0 where
  pub overdue_days : ℕ
  pub days_until_block : ℕ
  pub is_last_day : Bool
  pub due_at : Option Moment

-- `build_runtime_alert`
unfoldable pub build_runtime_alert : Tenant → Moment → Option Alert
unfolding evaluate_tenant
build_runtime_alert t now =
    let e = evaluate_tenant t now in
    if t.access_unlimited
    then none
    else if not e.overdue || e.should_block
    then none
    else some (record {
      overdue_days = e.overdue_days;
      days_until_block = e.days_until_block;
      is_last_day = leb e.days_until_block 0;
      due_at = e.due_at;
    })

-- The counts that `enforce_access_policy` returns.
pub record Counts : Type 0 where
  pub processed : ℕ
  pub marked_past_due : ℕ
  pub blocked : ℕ
  pub reactivated : ℕ

abbrev pub payable_statuses : List Text
payable_statuses = codes "active" ∷ codes "trial" ∷ codes "past_due" ∷ []

abbrev pub is_past_due : Option Text → Bool
is_past_due none = false
is_past_due (some s) = text_eq s (codes "past_due")

abbrev pub count_if : Bool → ℕ → ℕ
count_if b n = if b then n + 1 else n

-- The branch of a tenant to be blocked.
unfoldable pub block : Moment → Tenant → Counts → Tenant × Counts
block now t c = (
  record t {
    is_active = false;
    subscription_status = some (codes "canceled");
    billing_blocked_at = some (get_or t.billing_blocked_at now);
  },
  record c { blocked = count_if t.is_active c.blocked },
)

-- The branch of an overdue tenant within its grace.
unfoldable pub mark_past_due : Tenant → Counts → Tenant × Counts
mark_past_due t c =
    let marks =
      mem_text (normalize (get_or t.subscription_status [])) payable_statuses
      && not (is_past_due t.subscription_status) in
    (
      record t {
        subscription_status = if marks then some (codes "past_due") else t.subscription_status;
      },
      record c { marked_past_due = count_if marks c.marked_past_due },
    )

-- The branch of a tenant that is not overdue.
unfoldable pub clear_block : Tenant → Counts → Tenant × Counts
clear_block t c =
    let clears = is_some t.billing_blocked_at && t.is_active in
    (
      record t { billing_blocked_at = if clears then none else t.billing_blocked_at },
      record c { reactivated = count_if clears c.reactivated },
    )

-- One round of the loop.
unfoldable pub enforce_tenant : Moment → Tenant → Counts → Tenant × Counts
unfolding evaluate_tenant block mark_past_due clear_block
enforce_tenant now t c =
    let e = evaluate_tenant t now in
    let c' = record c { processed = c.processed + 1 } in
    if e.should_block
    then block now t c'
    else if e.overdue
    then mark_past_due t c'
    else clear_block t c'

-- The filter of the query.
abbrev pub is_governed : Tenant → Bool
is_governed t = not t.access_unlimited && not (is_some t.deleted_at)

abbrev pub no_counts : Counts
no_counts = record { processed = 0; marked_past_due = 0; blocked = 0; reactivated = 0 }

-- A row of the table; one that the query does not select stays.
unfoldable pub enforce_row : Moment → Tenant → Counts → Tenant × Counts
unfolding enforce_tenant
enforce_row now t c = if is_governed t then enforce_tenant now t c else (t, c)

-- The loop over the rows.
unfoldable pub enforce_from : Moment → List Tenant → Counts → List Tenant × Counts
unfolding enforce_row
enforce_from now [] c = ([], c)
enforce_from now (t ∷ ts) c =
    let (t', c') = enforce_row now t c in let (ts', c'') = enforce_from now ts c' in (t' ∷ ts', c'')

-- `enforce_access_policy`
unfoldable pub enforce_access_policy : Moment → List Tenant → List Tenant × Counts
unfolding enforce_from
enforce_access_policy now ts = enforce_from now ts no_counts
