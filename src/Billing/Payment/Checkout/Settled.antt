-- ===== src/Billing/Payment/Checkout/Settled.antt =====
-- A checkout and the payment of it.
use backup_center_ajust_cons.Base.{
  ◌+◌, ◌*◌, ◌≤◌, ◌≡◌, refl, ap, ◌∙◌, Bool, true, false, List, [], ◌∷◌, ◌++◌, Option, none, some,
  arith, All, Bool-cases, inl, inr,
}
use mathlib.Core.Path.{subst}
use backup_center_ajust_cons.Base.Rows.{find}
use backup_center_ajust_cons.Base.Int.{ℤ}
use backup_center_ajust_cons.Text.{Text, codes, strip, is_empty, text_eq}
use backup_center_ajust_cons.Text.Laws.{text_eq_refl}
use backup_center_ajust_cons.Text.Dict.{Dict, lookup}
use backup_center_ajust_cons.Billing.{Moment, Plan, Tenant}
use backup_center_ajust_cons.Billing.Policy.{us_per_day, plan_period_days}
use backup_center_ajust_cons.Billing.Payment.{
  Invoice, Db, has_tenant_id, has_plan_id, has_invoice_id, new_external_reference,
  parse_external_reference, period_delta_days,
}
use backup_center_ajust_cons.Billing.Payment.Process.{
  Payment, process, invoice_of, choose_plan, find_ref, ref_of, parse_uuid, is_paid,
}
use backup_center_ajust_cons.Billing.Payment.Reference.{
  IsPlain, parse-new_external_reference, strip-new_external_reference,
}
use backup_center_ajust_cons.Billing.Payment.Steps.{status_of, plan_ref}
use backup_center_ajust_cons.Billing.Payment.Paid.{IsActivated, process-IsActivated}
use backup_center_ajust_cons.Billing.Access.{PlanError, validate_plan_selection}
use backup_center_ajust_cons.Billing.Payment.{plan_amount_cents}
use backup_center_ajust_cons.Billing.Payment.Checkout.{
  Request, Preference, invoice_for, reference_for, Checkout, raised, ready, open_checkout,
  select_checkout_url, with_preference, with_amount, with_selection,
}

-- The period of an invoice is the plan's billing period, and at least a day: the cycle plays no part, so a
-- payment for a year buys no longer a period than one for a month.
pub period_ignores_cycle :
    (p : Plan) (cycle other : Text)
    → (period_delta_days p cycle ≡ period_delta_days p other)
      × (period_delta_days p cycle ≡ plan_period_days (some p))
      × (1 ≤ period_delta_days p cycle)
unfolding period_delta_days plan_period_days
period_ignores_cycle p cycle other = (ground arith, ground arith, ground arith)

-- The text of an id, as the database writes it.
pub record IsId (id : Text) : Type 0 where
  pub plain : All IsPlain id
  pub canonical : parse_uuid id ≡ some id

nonempty : (id : Text) → IsId id → is_empty id ≡ false
unfolding parse_uuid
nonempty [] h = cc (h.canonical)
nonempty (c ∷ id) h = refl

find_append :
    {A : Type 0} (test : A → Bool) (a : A) (rows : List A)
    → find test rows ≡ none
    → test a ≡ true
    → find test (rows ++ a ∷ []) ≡ some a
unfolding find
find_append test a [] h ok = rw ok refl
find_append test a (b ∷ rows) h ok = elim (Bool-cases (test b)) [
  | inl e ↦ cc (rw e at h)
  | inr e ↦ rw e (find_append test a rows (rw e at h) ok)
]

-- The database after a checkout that went through.
abbrev with_invoice : Request → Tenant → Plan → Db → ℤ → Text → Db
with_invoice r t p db amount gateway_id = record db {
  invoices = db.invoices ++ invoice_for r t p amount gateway_id ∷ [];
}

abbrev IsReady : Request → Tenant → Plan → Db → Checkout × Db → Type 0
IsReady r t p db (raised e, after) = Unit
IsReady r t p db (ready url id gateway_id, after) =
    (amount : ℤ) × (after ≡ with_invoice r t p db amount gateway_id)

with_preference-IsReady :
    (r : Request) (t : Tenant) (p : Plan) (amount : ℤ) (o : Option Preference) (db : Db)
    → IsReady r t p db (with_preference r t p amount o db)
unfolding with_preference
with_preference-IsReady r t p amount none db = tt
with_preference-IsReady r t p amount (some pref) db =
    elim (Bool-cases (is_empty (select_checkout_url pref r.use_sandbox))) [
      | inl u ↦ rw u tt
      | inr u ↦ rw u (amount, refl)
    ]

with_amount-IsReady :
    (r : Request) (t : Tenant) (p : Plan) (o : Option ℤ) (db : Db)
    → IsReady r t p db (with_amount r t p o db)
unfolding with_amount
with_amount-IsReady r t p none db = tt
with_amount-IsReady r t p (some amount) db =
    with_preference-IsReady r t p amount (r.create_preference (reference_for r t p)) db

with_selection-IsReady :
    (r : Request) (t : Tenant) (p : Plan) (o : Option PlanError) (db : Db)
    → IsReady r t p db (with_selection r t p o db)
unfolding with_selection
with_selection-IsReady r t p (some e) db = tt
with_selection-IsReady r t p none db =
    with_amount-IsReady r t p (plan_amount_cents p r.billing_cycle) db

open_checkout-IsReady :
    (r : Request) (t : Tenant) (p : Plan) (db : Db) → IsReady r t p db (open_checkout r t p db)
unfolding open_checkout
open_checkout-IsReady r t p db =
    with_selection-IsReady r t p
      (validate_plan_selection (some p) r.device_count (some r.user_count) (some r.storage_used)) db

find_ref_of :
    {A : Type 0} (has_id : Text → A → Bool) (id : Text) (rows : List A)
    → IsId id
    → find_ref has_id id rows ≡ find (has_id id) rows
unfolding find_ref
find_ref_of has_id id rows h = rw (nonempty id h, h.canonical) refl

parts_of : Text → Text → Text → Dict Text
parts_of t p i = (codes "tenant", t) ∷ (codes "plan", p) ∷ (codes "invoice", i) ∷ []

plan_part_of :
    (t p i : Text) → IsId p → ref_of (codes "plan") (codes "plan_id") (parts_of t p i) ≡ p
unfolding ref_of lookup text_eq parts_of
plan_part_of t p i h = rw (nonempty p h) refl

invoice_part_of :
    (t p i : Text) → IsId i → ref_of (codes "invoice") (codes "invoice_id") (parts_of t p i) ≡ i
unfolding ref_of lookup text_eq parts_of
invoice_part_of t p i h = rw (nonempty i h) refl

parsed_reference :
    (payment : Payment) (t p i : Text)
    → IsId t
    → IsId p
    → IsId i
    → payment.external_reference ≡ new_external_reference t p i
    → parse_external_reference (strip payment.external_reference) ≡ parts_of t p i
unfolding parts_of
parsed_reference payment t p i ht hp hi e =
    ap parse_external_reference
      (ap strip e ∙ strip-new_external_reference t p i ht.plain hp.plain hi.plain)
    ∙ parse-new_external_reference t p i ht.plain hp.plain hi.plain

-- The invoice and the plan that the payment's reference names.
invoice_of_reference :
    (payment : Payment) (t p i : Text) (rows : List Invoice)
    → IsId t
    → IsId p
    → IsId i
    → payment.external_reference ≡ new_external_reference t p i
    → (invoice_of payment rows ≡ find (has_invoice_id i) rows) × (plan_ref payment ≡ p)
unfolding invoice_of
invoice_of_reference payment t p i rows ht hp hi e =
    let parsed = parsed_reference payment t p i ht hp hi e in
    (
      ap
            (λ (d : Dict Text).
              find_ref has_invoice_id (ref_of (codes "invoice") (codes "invoice_id") d) rows)
            parsed
          ∙ (ap (λ x. find_ref has_invoice_id x rows) (invoice_part_of t p i hi)
              ∙ find_ref_of has_invoice_id i rows hi),
      ap (ref_of (codes "plan") (codes "plan_id")) parsed ∙ plan_part_of t p i hp,
    )

chosen :
    (p : Plan) (t : Tenant) (plans : List Plan)
    → IsId p.id
    → find (has_plan_id p.id) plans ≡ some p
    → choose_plan p.id t plans ≡ some p
unfolding choose_plan
chosen p t plans hp h = rw (find_ref_of has_plan_id p.id plans hp, h) refl

-- A checkout that went through, followed by an approved payment with its reference, leaves the tenant
-- active on the plan of the checkout, with one live subscription, to the end of a period that began with the
-- checkout. The ids are in the form of the database, the plan is the only one with its id, and the id of the
-- new invoice is fresh.
pub checkout_settles :
    (r : Request) (db after : Db) (t : Tenant) (p : Plan) (url id gateway_id : Text)
    (get_payment : Text → Payment) (now : Moment) (fresh payment_id : Text)
    → open_checkout r t p db ≡ (ready url id gateway_id, after)
    → is_empty (strip r.access_token) ≡ false
    → is_empty (strip payment_id) ≡ false
    → IsId t.id
    → IsId p.id
    → IsId r.invoice_id
    → find (has_tenant_id t.id) db.tenants ≡ some t
    → find (has_plan_id p.id) db.plans ≡ some p
    → find (has_invoice_id r.invoice_id) db.invoices ≡ none
    → (get_payment (strip payment_id)).external_reference ≡ reference_for r t p
    → is_paid (status_of (get_payment (strip payment_id))) ≡ true
    → IsActivated t p
        (r.now + period_delta_days p r.billing_cycle * us_per_day)
        after
        (process r.access_token get_payment now fresh payment_id after).1
checkout_settles r db after t p url id gateway_id get_payment now fresh payment_id opened tok pid ht
      hp hi ft fp fi ref ok =
    let payment = get_payment (strip payment_id) in
    let (amount, same) : IsReady r t p db (ready url id gateway_id, after) =
      subst (IsReady r t p db) opened (open_checkout-IsReady r t p db) in
    let i = invoice_for r t p amount gateway_id in
    let (inv, plan) =
      invoice_of_reference payment t.id p.id r.invoice_id after.invoices ht hp hi ref in
    process-IsActivated r.access_token get_payment now fresh payment_id after i t p tok pid
      (inv
        ∙ (ap (λ (d : Db). find (has_invoice_id r.invoice_id) d.invoices) same
            ∙ find_append (has_invoice_id r.invoice_id) i db.invoices fi
                (text_eq_refl r.invoice_id)))
      (ap (λ (d : Db). find (has_tenant_id t.id) d.tenants) same ∙ ft) ok
      (ap (λ x. choose_plan x t after.plans) plan
        ∙ (ap (λ (d : Db). choose_plan p.id t d.plans) same ∙ chosen p t db.plans hp fp))
