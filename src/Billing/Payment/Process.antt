-- ===== src/Billing/Payment/Process.antt =====
-- `process_mercadopago_payment` of app/web/billing/controller.py.
use backup_center_ajust_cons.Base.{
  ℕ, suc, zero, ◌+◌, ◌-◌, ◌*◌, Bool, true, false, not, ◌&&◌, ◌||◌, List, [], ◌∷◌, ◌++◌, Option,
  none, some, if◌then◌else◌, get_or, leb, ◌==◌, length, filter,
}
use backup_center_ajust_cons.Base.Int.{leb_ℤ}
use backup_center_ajust_cons.Base.Rows.{find, replace}
use backup_center_ajust_cons.Text.{Text, codes, strip, lower, is_empty, text_eq, starts_with}
use backup_center_ajust_cons.Text.Dict.{Dict, lookup}
use backup_center_ajust_cons.Billing.{Moment, Plan, Tenant}
use backup_center_ajust_cons.Billing.Policy.{us_per_day}
use backup_center_ajust_cons.Billing.Payment.{
  InvoiceStatus, paid, failed, cancelled, Invoice, Db, has_tenant_id, has_plan_id, has_invoice_id,
  parse_external_reference, invoice_status_of, activate_subscription,
}

-- `text.replace(needle, "")`, with the characters to skip
abbrev remove_from : Text → ℕ → Text → Text
unfolding starts_with
remove_from needle skip [] = []
remove_from needle (suc n) (c ∷ s) = remove_from needle n s
remove_from needle zero (c ∷ s) = elim (starts_with needle (c ∷ s)) [
  | true ↦ remove_from needle (length needle - 1) s
  | false ↦ c ∷ remove_from needle 0 s
]

abbrev is_hex : ℕ → Bool
is_hex c = (leb 48 c && leb c 57) || (leb 65 c && leb c 70) || (leb 97 c && leb c 102)

abbrev is_brace : ℕ → Bool
is_brace c = c == 123 || c == 125

abbrev drop_braces : Text → Text
drop_braces [] = []
drop_braces (c ∷ s) = let rest = drop_braces s in if is_brace c then rest else c ∷ rest

-- `s.strip("{}")`
abbrev strip_braces : Text → Text
strip_braces [] = []
strip_braces (c ∷ s) =
    let rest = strip_braces s in if is_brace c && is_empty (drop_braces s) then [] else c ∷ rest

abbrev lead_braces : Text → Text
lead_braces [] = []
lead_braces (c ∷ s) = let rest = lead_braces s in if is_brace c then rest else c ∷ s

abbrev dashed : ℕ → Text → Text
dashed n [] = []
dashed n (c ∷ s) =
    let rest = dashed (n + 1) s in
    if n == 8 || n == 12 || n == 16 || n == 20 then 45 ∷ c ∷ rest else c ∷ rest

-- `str(uuid.UUID(text))`: none when it raises. The digits that `int` takes beside the hexadecimal ones
-- (as underscores) are not read.
unfoldable pub parse_uuid : Text → Option Text
unfolding lower starts_with
parse_uuid text =
    let clean = remove_from (codes "uuid:") 0 (remove_from (codes "urn:") 0 text) in
    let hex = filter (λ c. not (c == 45)) (strip_braces (lead_braces clean)) in
    if length hex == 32 && length (filter is_hex hex) == 32
    then some (dashed 0 (lower hex))
    else none

-- The fields of the payment that the service returns; a missing text is empty.
pub record Payment : Type 0 where
  pub status : Text
  pub external_reference : Text
  pub payment_type_id : Text
  pub payment_method_id : Text

pub data Failure : Type 0 where
  not_configured no_payment_id no_active_plan : Failure

-- What the function returns, or the error that it raises.
pub data Outcome : Type 0 where
  raised : Failure → Outcome
  invoice_not_found tenant_not_found : Outcome
  handled : Text → Text → Text → InvoiceStatus → Outcome

abbrev or_text : Text → Text → Text
or_text a b = if is_empty a then b else a

-- `refs.get(name) or refs.get(name_id)`, empty for none
unfoldable pub ref_of : Text → Text → Dict Text → Text
unfolding lookup
ref_of name name_id refs = or_text (get_or (lookup name refs) []) (get_or (lookup name_id refs) [])

-- A row by the id in a reference; an empty one, or one that is no id, finds none.
unfoldable pub find_ref : {A : Type 0} → (Text → A → Bool) → Text → List A → Option A
unfolding parse_uuid find
find_ref has_id ref rows =
    if is_empty ref
    then none
    else elim (parse_uuid ref) [ none ↦ none | some id ↦ find (has_id id) rows ]

-- The cheapest active plan; of equal ones the first.
unfoldable pub cheapest : List Plan → Option Plan
cheapest [] = none
cheapest (p ∷ ps) =
    let rest = cheapest ps in
    if p.is_active
    then elim rest [
      | none ↦ some p
      | some q ↦ if leb_ℤ p.price_monthly q.price_monthly then some p else some q
    ]
    else rest

abbrev pub or_plan : Option Plan → Option Plan → Option Plan
or_plan none q = q
or_plan (some p) q = some p

abbrev plan_of_tenant : Option Text → List Plan → Option Plan
unfolding find text_eq
plan_of_tenant none plans = none
plan_of_tenant (some id) plans = find (has_plan_id id) plans

-- The plan of the reference, else the tenant's, else the cheapest.
unfoldable pub choose_plan : Text → Tenant → List Plan → Option Plan
unfolding find_ref cheapest find text_eq
choose_plan ref t plans =
    or_plan (find_ref has_plan_id ref plans)
      (or_plan (plan_of_tenant t.plan_id plans) (cheapest plans))

abbrev pub is_paid : InvoiceStatus → Bool
is_paid paid = true
is_paid s = false

abbrev pub is_lost : InvoiceStatus → Bool
is_lost failed = true
is_lost cancelled = true
is_lost s = false

-- The invoice, marked with the payment.
abbrev pub marked : Text → Payment → InvoiceStatus → Moment → Invoice → Invoice
marked payment_id payment status now i = record i {
  status = status;
  payment_gateway_id = payment_id;
  payment_method =
      codes "mercado_pago:"
      ++ or_text (or_text payment.payment_type_id payment.payment_method_id) (codes "unknown");
  paid_at = if is_paid status then some now else i.paid_at;
}

abbrev pub start_of : Moment → Invoice → Moment
start_of now i = get_or i.period_start now

abbrev pub end_of : Moment → Invoice → Moment
end_of now i = get_or i.period_end (start_of now i + 30 * us_per_day)

-- The part for an approved payment: without a plan it raises, and the transaction is rolled back.
unfoldable pub settle :
    Moment → Text → Text → Invoice → Tenant → Outcome → Option Plan → Db → Db → Outcome × Db
unfolding activate_subscription
settle now fresh ref i t answer none before db = (raised no_active_plan, before)
settle now fresh ref i t answer (some p) before db =
    (answer, activate_subscription now fresh t p (start_of now i) (end_of now i) db)

-- The part for the tenant of the invoice.
unfoldable pub apply_to_tenant :
    Moment → Text → Text → Text → Invoice → InvoiceStatus → Tenant → Db → Db → Outcome × Db
unfolding settle choose_plan replace text_eq
apply_to_tenant now fresh ref payment_status i status t before db =
    let answer = handled i.id t.id payment_status status in
    if is_paid status
    then settle now fresh ref i t answer (choose_plan ref t db.plans) before db
    else if is_lost status
    then (
      answer,
      record db {
        tenants =
            replace (has_tenant_id t.id)
              (record t { subscription_status = some (codes "past_due") }) db.tenants;
      },
    )
    else (answer, db)

-- The part for the invoice that the payment refers to.
unfoldable pub apply_to_invoice : Moment → Text → Text → Payment → Invoice → Db → Outcome × Db
unfolding apply_to_tenant find replace text_eq invoice_status_of parse_external_reference ref_of
    strip lower
apply_to_invoice now fresh payment_id payment i before =
    let payment_status = strip (lower payment.status) in
    let status = invoice_status_of payment_status in
    let refs = parse_external_reference (strip payment.external_reference) in
    let db = record before {
      invoices =
          replace (has_invoice_id i.id) (marked payment_id payment status now i) before.invoices;
    } in
    elim (find (has_tenant_id i.tenant_id) db.tenants) [
      | none ↦ (tenant_not_found, db)
      | some t ↦
          apply_to_tenant now fresh (ref_of (codes "plan") (codes "plan_id") refs) payment_status i
            status t before db
    ]

-- The invoice of a payment.
unfoldable pub invoice_of : Payment → List Invoice → Option Invoice
unfolding find_ref ref_of parse_external_reference strip text_eq
invoice_of payment invoices =
    find_ref has_invoice_id
      (ref_of (codes "invoice") (codes "invoice_id")
        (parse_external_reference (strip payment.external_reference)))
      invoices

-- `process_mercadopago_payment`: `access_token` is the setting, `get_payment` the service
unfoldable pub process : Text → (Text → Payment) → Moment → Text → Text → Db → Outcome × Db
unfolding apply_to_invoice invoice_of strip
process access_token get_payment now fresh payment_id db =
    let id = strip payment_id in
    if is_empty (strip access_token)
    then (raised not_configured, db)
    else if is_empty id
    then (raised no_payment_id, db)
    else elim (invoice_of (get_payment id) db.invoices) [
      | none ↦ (invoice_not_found, db)
      | some i ↦ apply_to_invoice now fresh id (get_payment id) i db
    ]
