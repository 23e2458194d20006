-- ===== src/Billing/Payment/Paid.antt =====
-- What a payment leaves in the database (`process_mercadopago_payment`).
use backup_center_ajust_cons.Base.{◌≤◌, ◌≡◌, refl, ap, ◌∙◌, true, false, [], ◌∷◌, none, some, arith}
use backup_center_ajust_cons.Base.Rows.{find, replace, find-replace, find_passes}
use backup_center_ajust_cons.Text.{Text, codes, strip, lower, is_empty, text_eq}
use backup_center_ajust_cons.Text.Laws.{text_eq_iff, text_eq_refl}
use backup_center_ajust_cons.Billing.{Moment, Plan, Tenant}
use backup_center_ajust_cons.Billing.Policy.{evaluate, evaluate_tenant, resolve_due_at}
use backup_center_ajust_cons.Billing.Payment.{
  InvoiceStatus, Invoice, Subscription, Db, active, cancel_existing, has_tenant_id, has_invoice_id,
  activated, activate_subscription,
}
use backup_center_ajust_cons.Billing.Payment.Process.{
  Payment, Outcome, handled, is_paid, is_lost, marked, start_of, end_of, choose_plan, settle,
  apply_to_tenant, invoice_of, process,
}
use backup_center_ajust_cons.Billing.Payment.Live.{
  live_count, live_count-cancel_existing, live_count-cancel_other, live_count-append,
  live_count_one,
}
use backup_center_ajust_cons.Billing.Payment.Steps.{
  plan_ref, status_of, with_marked, lost_unpaid, process_step, invoice_of_found,
}

-- The tenant `t` has been activated on the plan `p` to the end of a period.
pub record IsActivated (t : Tenant) (p : Plan) (period_end : Moment) (before after : Db)
    : Type 0 where
  pub row : find (has_tenant_id t.id) after.tenants ≡ some (activated p period_end t)
  pub one_subscription : live_count t.id after.subscriptions ≡ 1
  pub other_subscriptions :
      (u : Text)
      → text_eq u t.id ≡ false
      → live_count u after.subscriptions ≡ live_count u before.subscriptions
  pub in_order :
      (now : Moment)
      → now ≤ period_end
      → (evaluate_tenant (activated p period_end t) now).overdue ≡ false

activated_in_order :
    (p : Plan) (period_end : Moment) (t : Tenant) (now : Moment)
    → now ≤ period_end
    → (evaluate_tenant (activated p period_end t) now).overdue ≡ false
unfolding evaluate_tenant evaluate resolve_due_at
activated_in_order p period_end t now h = ground arith

activate_subscription-IsActivated :
    (now : Moment) (fresh id : Text) (t : Tenant) (p : Plan) (period_start period_end : Moment)
    (db : Db)
    → find (has_tenant_id id) db.tenants ≡ some t
    → IsActivated t p period_end db (activate_subscription now fresh t p period_start period_end db)
unfolding activate_subscription
activate_subscription-IsActivated now fresh id t p period_start period_end db h =
    let same : t.id ≡ id =
      (text_eq_iff t.id id).0 (find_passes (has_tenant_id id) t db.tenants h) in
    let kept = cancel_existing now t.id db.subscriptions in
    let new : Subscription = record {
      tenant_id = t.id;
      plan_id = p.id;
      status = active;
      current_period_start = period_start;
      current_period_end = period_end;
      cancel_at_period_end = false;
      canceled_at = none;
      provider_subscription_id = fresh;
    } in
    record {
      row =
          find-replace (has_tenant_id t.id) t (activated p period_end t) db.tenants
            (ap (λ x. find (has_tenant_id x) db.tenants) same ∙ h) (text_eq_refl t.id);
      one_subscription = omega (
        arith,
        live_count-append t.id kept (new ∷ []),
        live_count-cancel_existing now t.id db.subscriptions,
        (live_count_one t.id new refl).0 refl,
      );
      other_subscriptions = λ u ne. omega (
        arith,
        live_count-append u kept (new ∷ []),
        live_count-cancel_other now t.id u db.subscriptions ne,
        (live_count_one u new refl).1 ne,
      );
      in_order = activated_in_order p period_end t;
    }

pub process-IsActivated :
    (access_token : Text) (get_payment : Text → Payment) (now : Moment) (fresh payment_id : Text)
    (db : Db) (i : Invoice) (t : Tenant) (p : Plan)
    → is_empty (strip access_token) ≡ false
    → is_empty (strip payment_id) ≡ false
    → invoice_of (get_payment (strip payment_id)) db.invoices ≡ some i
    → find (has_tenant_id i.tenant_id) db.tenants ≡ some t
    → is_paid (status_of (get_payment (strip payment_id))) ≡ true
    → choose_plan (plan_ref (get_payment (strip payment_id))) t db.plans ≡ some p
    → IsActivated t p (end_of now i) db (process access_token get_payment now fresh payment_id db).1
unfolding apply_to_tenant settle
process-IsActivated access_token get_payment now fresh payment_id db i t p a b c d e f =
    let payment = get_payment (strip payment_id) in
    let db' = with_marked (strip payment_id) payment (status_of payment) now i db in
    let act =
      activate_subscription-IsActivated now fresh i.tenant_id t p (start_of now i) (end_of now i)
        db' d in
    rw (process_step access_token get_payment now fresh payment_id db i t a b c d, e, f)
      (record {
        row = act.row;
        one_subscription = act.one_subscription;
        other_subscriptions = act.other_subscriptions;
        in_order = act.in_order;
      })

apply_lost :
    (now : Moment) (fresh ref payment_status : Text) (i : Invoice) (status : InvoiceStatus)
    (t : Tenant) (before db : Db)
    → is_lost status ≡ true
    → apply_to_tenant now fresh ref payment_status i status t before db ≡ (
      handled i.id t.id payment_status status,
      record db {
        tenants =
            replace
              (has_tenant_id t.id)
              (record t { subscription_status = some (codes "past_due") })
              db.tenants;
      },
    )
unfolding apply_to_tenant
apply_lost now fresh ref payment_status i status t before db h = rw (lost_unpaid status h, h) refl

-- With payments configured and a payment id, a payment that failed, was cancelled or was given
-- back, of an invoice and a tenant that are found, marks the invoice with that status and the
-- tenant as past due, whatever the invoice's status was before: an invoice that an approved
-- payment has paid is no longer paid once the notification of another, failed attempt comes in.
pub process_lost :
    (access_token : Text) (get_payment : Text → Payment) (now : Moment) (fresh payment_id : Text)
    (db : Db) (i : Invoice) (t : Tenant)
    → is_empty (strip access_token) ≡ false
    → is_empty (strip payment_id) ≡ false
    → invoice_of (get_payment (strip payment_id)) db.invoices ≡ some i
    → find (has_tenant_id i.tenant_id) db.tenants ≡ some t
    → is_lost (status_of (get_payment (strip payment_id))) ≡ true
    → let status = status_of (get_payment (strip payment_id)) in
      let db' = (process access_token get_payment now fresh payment_id db).1 in
      (find (has_invoice_id i.id) db'.invoices
        ≡ some (marked (strip payment_id) (get_payment (strip payment_id)) status now i))
      × (find (has_tenant_id t.id) db'.tenants
          ≡ some (record t { subscription_status = some (codes "past_due") }))
process_lost access_token get_payment now fresh payment_id db i t a b c d e =
    let id = strip payment_id in
    let payment = get_payment id in
    let status = status_of payment in
    let same : t.id ≡ i.tenant_id =
      (text_eq_iff t.id i.tenant_id).0 (find_passes (has_tenant_id i.tenant_id) t db.tenants d) in
    let step =
      process_step access_token get_payment now fresh payment_id db i t a b c d
      ∙ apply_lost now fresh (plan_ref payment) (strip (lower payment.status)) i status t db
          (with_marked id payment status now i db) e in
    (
      ap (λ (r : Outcome × Db). find (has_invoice_id i.id) r.1.invoices) step
          ∙ find-replace (has_invoice_id i.id) i (marked id payment status now i) db.invoices
              (invoice_of_found payment db.invoices i c) (text_eq_refl i.id),
      ap (λ (r : Outcome × Db). find (has_tenant_id t.id) r.1.tenants) step
          ∙ find-replace (has_tenant_id t.id) t
              (record t { subscription_status = some (codes "past_due") }) db.tenants
              (ap (λ x. find (has_tenant_id x) db.tenants) same ∙ d) (text_eq_refl t.id),
    )
