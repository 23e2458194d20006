-- ===== src/Billing/Payment/Checkout.antt =====
-- `create_checkout_for_plan` of app/web/billing/controller.py. The counts of the tenant, the clock, the
-- fresh ids and the answer of Mercado Pago are arguments; of the payload only the reference is modelled.
pub mod Settled
use backup_center_ajust_cons.Base.{
  ℕ, ◌+◌, ◌*◌, ◌≡◌, Bool, true, false, ◌&&◌, List, [], ◌∷◌, ◌++◌, Option, none, some, if◌then◌else◌,
}
use backup_center_ajust_cons.Base.Int.{ℤ}
use backup_center_ajust_cons.Base.Rows.{find}
use backup_center_ajust_cons.Text.{Text, codes, strip, is_empty, text_eq}
use backup_center_ajust_cons.Billing.{Moment, Plan, Tenant}
use backup_center_ajust_cons.Billing.Access.{PlanError, validate_plan_selection}
use backup_center_ajust_cons.Billing.Policy.{us_per_day}
use backup_center_ajust_cons.Billing.Payment.{
  pending, Invoice, Db, has_tenant_id, has_plan_id, plan_amount_cents, period_delta_days,
  new_external_reference,
}
use backup_center_ajust_cons.Billing.Payment.Process.{parse_uuid}

-- The preference that the service returns; a missing text is empty.
pub record Preference : Type 0 where
  pub id : Text
  pub init_point : Text
  pub sandbox_init_point : Text

abbrev or_text : Text → Text → Text
or_text a b = if is_empty a then b else a

-- `select_checkout_url` of app/services/mercadopago_service.py
unfoldable pub select_checkout_url : Preference → Bool → Text
select_checkout_url p use_sandbox =
    if use_sandbox
    then or_text p.sandbox_init_point p.init_point
    else or_text p.init_point p.sandbox_init_point

pub data Refusal : Type 0 where
  not_configured invalid_id tenant_not_found plan_not_found no_yearly_price service_failed no_url :
      Refusal
  selection_refused : PlanError → Refusal

-- What is given: the request, the settings, the counts of the tenant, the fresh values, and the service.
pub record Request : Type 0 where
  pub access_token : Text
  pub use_sandbox : Bool
  pub tenant_id : Text
  pub plan_id : Text
  pub billing_cycle : Text
  pub device_count : ℕ
  pub user_count : ℕ
  pub storage_used : ℕ
  pub now : Moment
  pub invoice_id : Text
  pub invoice_number : Text
  pub create_preference : Text → Option Preference

-- The function raises, or it returns the URL, the invoice's id and the preference's.
pub data Checkout : Type 0 where
  raised : Refusal → Checkout
  ready : Text → Text → Text → Checkout

abbrev pub has_active_plan_id : Text → Plan → Bool
has_active_plan_id id p = text_eq p.id id && p.is_active

-- The invoice of a checkout.
abbrev pub invoice_for : Request → Tenant → Plan → ℤ → Text → Invoice
invoice_for r t p amount gateway_id = record {
  id = r.invoice_id;
  tenant_id = t.id;
  invoice_number = r.invoice_number;
  amount = amount;
  due_date = r.now + us_per_day;
  period_start = some r.now;
  period_end = some (r.now + period_delta_days p r.billing_cycle * us_per_day);
  status = pending;
  paid_at = none;
  payment_method = codes "mercado_pago";
  payment_gateway_id = gateway_id;
}

-- The reference that the payload carries.
abbrev pub reference_for : Request → Tenant → Plan → Text
reference_for r t p = new_external_reference t.id p.id r.invoice_id

unfoldable pub with_preference :
    Request → Tenant → Plan → ℤ → Option Preference → Db → Checkout × Db
unfolding select_checkout_url
with_preference r t p amount none db = (raised service_failed, db)
with_preference r t p amount (some pref) db =
    let url = select_checkout_url pref r.use_sandbox in
    if is_empty url then (raised no_url, db) else (
      ready url r.invoice_id pref.id,
      record db { invoices = db.invoices ++ invoice_for r t p amount pref.id ∷ [] },
    )

unfoldable pub with_amount : Request → Tenant → Plan → Option ℤ → Db → Checkout × Db
unfolding with_preference
with_amount r t p none db = (raised no_yearly_price, db)
with_amount r t p (some amount) db =
    with_preference r t p amount (r.create_preference (reference_for r t p)) db

unfoldable pub with_selection : Request → Tenant → Plan → Option PlanError → Db → Checkout × Db
unfolding with_amount plan_amount_cents
with_selection r t p (some e) db = (raised (selection_refused e), db)
with_selection r t p none db = with_amount r t p (plan_amount_cents p r.billing_cycle) db

-- The part for the rows that were found; an error rolls the transaction back.
unfoldable pub open_checkout : Request → Tenant → Plan → Db → Checkout × Db
unfolding with_selection validate_plan_selection
open_checkout r t p db =
    with_selection r t p
      (validate_plan_selection (some p) r.device_count (some r.user_count) (some r.storage_used)) db

unfoldable pub find_plan : Request → Tenant → Text → Db → Checkout × Db
unfolding open_checkout find text_eq
find_plan r t plan_id db = elim (find (has_active_plan_id plan_id) db.plans) [
  | none ↦ (raised plan_not_found, db)
  | some p ↦ open_checkout r t p db
]

unfoldable pub find_tenant : Request → Text → Text → Db → Checkout × Db
unfolding find_plan find text_eq
find_tenant r tenant_id plan_id db = elim (find (has_tenant_id tenant_id) db.tenants) [
  | none ↦ (raised tenant_not_found, db)
  | some t ↦ find_plan r t plan_id db
]

unfoldable pub with_ids : Request → Option Text → Option Text → Db → Checkout × Db
unfolding find_tenant
with_ids r none o db = (raised invalid_id, db)
with_ids r (some tenant_id) none db = (raised invalid_id, db)
with_ids r (some tenant_id) (some plan_id) db = find_tenant r tenant_id plan_id db

-- `create_checkout_for_plan`
unfoldable pub create_checkout : Request → Db → Checkout × Db
unfolding with_ids parse_uuid strip
create_checkout r db =
    if is_empty (strip r.access_token)
    then (raised not_configured, db)
    else with_ids r (parse_uuid r.tenant_id) (parse_uuid r.plan_id) db
