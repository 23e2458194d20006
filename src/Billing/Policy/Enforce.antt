-- ===== src/Billing/Policy/Enforce.antt =====
-- What a run of `enforce_access_policy` does to the tenants.
use backup_center_ajust_cons.Base.{◌≡◌, refl, true, false, [], none, some, arith, get_or}
use backup_center_ajust_cons.Text.{codes, text_eq, normalize, mem_text}
use backup_center_ajust_cons.Billing.{Moment, Tenant}
use backup_center_ajust_cons.Billing.Policy.{
  Counts, evaluate_tenant, resolve_due_at, block, mark_past_due, clear_block, enforce_tenant,
  payable_statuses, is_past_due,
}

-- The columns that decide the evaluation and the query.
pub record SameTerms (t u : Tenant) : Type 0 where
  pub same_plan : u.plan ≡ t.plan
  pub same_period : u.current_period_end ≡ t.current_period_end
  pub same_trial : u.trial_ends_at ≡ t.trial_ends_at
  pub same_access : u.access_unlimited ≡ t.access_unlimited
  pub same_deleted : u.deleted_at ≡ t.deleted_at

pub enforce_tenant-SameTerms :
    (now : Moment) (t : Tenant) (c : Counts) → SameTerms t (enforce_tenant now t c).0
unfolding enforce_tenant block mark_past_due clear_block
enforce_tenant-SameTerms now t c = ground arith

pub evaluate_of_SameTerms :
    (now : Moment) (t u : Tenant) → SameTerms t u → evaluate_tenant u now ≡ evaluate_tenant t now
unfolding evaluate_tenant resolve_due_at
evaluate_of_SameTerms now t u h = rw (h.same_plan, h.same_period, h.same_trial)

-- What the three branches leave: a blocked tenant, one marked, one that is in order.
pub record Enforced (now : Moment) (t u : Tenant) : Type 0 where
  pub terms : SameTerms t u
  pub blocked :
      (evaluate_tenant t now).should_block ≡ true
      → (u.is_active ≡ false)
        × (u.subscription_status ≡ some (codes "canceled"))
        × (u.billing_blocked_at ≡ some (get_or t.billing_blocked_at now))
  pub not_blocked : (evaluate_tenant t now).should_block ≡ false → u.is_active ≡ t.is_active
  pub overdue :
      (evaluate_tenant t now).should_block ≡ false
      → (evaluate_tenant t now).overdue ≡ true
      → (u.billing_blocked_at ≡ t.billing_blocked_at)
        × ((mem_text (normalize (get_or t.subscription_status [])) payable_statuses ≡ true
            → is_past_due u.subscription_status ≡ true))
  pub in_order :
      (evaluate_tenant t now).should_block ≡ false
      → (evaluate_tenant t now).overdue ≡ false
      → (u.subscription_status ≡ t.subscription_status)
        × (t.is_active ≡ true → u.billing_blocked_at ≡ none)
        × (t.is_active ≡ false → u.billing_blocked_at ≡ t.billing_blocked_at)

pub past_due_self : text_eq (codes "past_due") (codes "past_due") ≡ true
unfolding text_eq
past_due_self = refl
