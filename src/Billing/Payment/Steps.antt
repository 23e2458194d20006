-- ===== src/Billing/Payment/Steps.antt =====
-- `process_mercadopago_payment`, once the rows of a payment are found.
use backup_center_ajust_cons.Base.{
  ◌≡◌, refl, ap, ◌∙◌, true, false, List, some, inl, inr, Bool-cases, Option-cases,
}
use backup_center_ajust_cons.Base.Rows.{find, replace, find_passes}
use backup_center_ajust_cons.Text.{Text, codes, strip, lower, is_empty}
use backup_center_ajust_cons.Text.Laws.{text_eq_iff}
use backup_center_ajust_cons.Billing.{Moment, Tenant}
use backup_center_ajust_cons.Billing.Payment.{
  InvoiceStatus, paid, failed, cancelled, Invoice, Db, has_tenant_id, has_invoice_id,
  invoice_status_of, parse_external_reference,
}
use backup_center_ajust_cons.Billing.Payment.Process.{
  Payment, is_paid, is_lost, marked, apply_to_tenant, apply_to_invoice, invoice_of, process, ref_of,
  find_ref, parse_uuid,
}

-- The plan that a payment is for.
abbrev pub plan_ref : Payment → Text
plan_ref payment =
    ref_of (codes "plan") (codes "plan_id")
      (parse_external_reference (strip payment.external_reference))

abbrev pub status_of : Payment → InvoiceStatus
status_of payment = invoice_status_of (strip (lower payment.status))

abbrev pub with_marked : Text → Payment → InvoiceStatus → Moment → Invoice → Db → Db
with_marked id payment status now i db = record db {
  invoices = replace (has_invoice_id i.id) (marked id payment status now i) db.invoices;
}

pub lost_unpaid : (s : InvoiceStatus) → is_lost s ≡ true → is_paid s ≡ false
lost_unpaid paid h = cc
lost_unpaid failed h = refl
lost_unpaid cancelled h = refl
lost_unpaid s h = cc

process_found :
    (access_token : Text) (get_payment : Text → Payment) (now : Moment) (fresh payment_id : Text)
    (db : Db) (i : Invoice)
    → is_empty (strip access_token) ≡ false
    → is_empty (strip payment_id) ≡ false
    → invoice_of (get_payment (strip payment_id)) db.invoices ≡ some i
    → process access_token get_payment now fresh payment_id db
      ≡ apply_to_invoice now fresh (strip payment_id) (get_payment (strip payment_id)) i db
unfolding process
process_found access_token get_payment now fresh payment_id db i a b c = rw (a, b, c) refl

apply_found :
    (now : Moment) (fresh id : Text) (payment : Payment) (i : Invoice) (t : Tenant) (db : Db)
    → find (has_tenant_id i.tenant_id) db.tenants ≡ some t
    → apply_to_invoice now fresh id payment i db
      ≡ apply_to_tenant now fresh
          (plan_ref payment)
          (strip (lower payment.status))
          i
          (status_of payment)
          t
          db
          (with_marked id payment (status_of payment) now i db)
unfolding apply_to_invoice
apply_found now fresh id payment i t db d = rw (apply_to_invoice, d) refl

pub process_step :
    (access_token : Text) (get_payment : Text → Payment) (now : Moment) (fresh payment_id : Text)
    (db : Db) (i : Invoice) (t : Tenant)
    → is_empty (strip access_token) ≡ false
    → is_empty (strip payment_id) ≡ false
    → invoice_of (get_payment (strip payment_id)) db.invoices ≡ some i
    → find (has_tenant_id i.tenant_id) db.tenants ≡ some t
    → let payment = get_payment (strip payment_id) in
      process access_token get_payment now fresh payment_id db
      ≡ apply_to_tenant now fresh
          (plan_ref payment)
          (strip (lower payment.status))
          i
          (status_of payment)
          t
          db
          (with_marked (strip payment_id) payment (status_of payment) now i db)
process_step access_token get_payment now fresh payment_id db i t a b c d =
    process_found access_token get_payment now fresh payment_id db i a b c
    ∙ apply_found now fresh (strip payment_id) (get_payment (strip payment_id)) i t db d

find_ref_found :
    (ref : Text) (rows : List Invoice) (i : Invoice)
    → find_ref has_invoice_id ref rows ≡ some i
    → find (has_invoice_id i.id) rows ≡ some i
unfolding find_ref
find_ref_found ref rows i h = elim (Bool-cases (is_empty ref)) [
  | inl e ↦ cc (rw e at h)
  | inr e ↦ elim (Option-cases (parse_uuid ref)) [
    | inl n ↦ cc (rw (e, n) at h)
    | inr (u, q) ↦
        let hit : find (has_invoice_id u) rows ≡ some i = rw (e, q) at h in
        let same : i.id ≡ u = (text_eq_iff i.id u).0 (find_passes (has_invoice_id u) i rows hit) in
        ap (λ x. find (has_invoice_id x) rows) same ∙ hit
  ]
]

pub invoice_of_found :
    (payment : Payment) (rows : List Invoice) (i : Invoice)
    → invoice_of payment rows ≡ some i
    → find (has_invoice_id i.id) rows ≡ some i
unfolding invoice_of
invoice_of_found payment rows i h =
    find_ref_found
      (ref_of (codes "invoice") (codes "invoice_id")
        (parse_external_reference (strip payment.external_reference)))
      rows i h
