-- ===== src/Billing/Payment.antt =====
-- What a payment does (app/web/billing/controller.py): the reference that a checkout gives to Mercado
-- Pago, and `process_mercadopago_payment`, which a notification of Mercado Pago calls. The payment that
-- the service returns is an argument; so are the clock and the fresh ids. A row that the queries find
-- by its id is the first with the id.
pub mod Reference
pub mod Process
pub mod Live
pub mod Steps
pub mod Paid
pub mod Checkout
mod Tests
use backup_center_ajust_cons.Base.{
  ℕ, ◌+◌, ◌*◌, ◌≡◌, Bool, true, false, not, ◌&&◌, ◌||◌, List, [], ◌∷◌, ◌++◌, Option, none, some,
  if◌then◌else◌, get_or, ltb, is_some, map,
}
use backup_center_ajust_cons.Base.Int.{ℤ, pos, leb_ℤ, ltb_ℤ, pos_part}
use backup_center_ajust_cons.Base.Rows.{find, replace}
use backup_center_ajust_cons.Text.{
  Text, codes, strip, lower, normalize, is_empty, text_eq, mem_text,
}
use backup_center_ajust_cons.Text.Split.{split_on, split_once}
use backup_center_ajust_cons.Text.Dict.{Dict, lookup, insert}
use backup_center_ajust_cons.Billing.{Moment, Plan, Tenant}
use backup_center_ajust_cons.Billing.Policy.{us_per_day, plan_period_days}

-- `_plan_amount_cents`: none when it raises
unfoldable pub plan_amount_cents : Plan → Text → Option ℤ
unfolding normalize text_eq
plan_amount_cents p billing_cycle =
    if text_eq (normalize (if is_empty billing_cycle then codes "monthly" else billing_cycle))
      (codes "yearly")
    then elim p.price_yearly [
      | none ↦ none
      | some price ↦ if leb_ℤ price (pos 0) then none else some price
    ]
    else some p.price_monthly

-- `_period_delta_days`
unfoldable pub period_delta_days : Plan → Text → ℕ
unfolding plan_period_days normalize text_eq
period_delta_days p billing_cycle =
    let custom_period = plan_period_days (some p) in
    if ltb 0 custom_period
    then custom_period
    else if text_eq (normalize billing_cycle) (codes "yearly")
    then 365
    else 30

-- `_new_external_reference`
unfoldable pub new_external_reference : Text → Text → Text → Text
new_external_reference tenant_id plan_id invoice_id =
    codes "tenant:"
    ++ (tenant_id ++ (codes "|plan:" ++ (plan_id ++ (codes "|invoice:" ++ invoice_id))))

abbrev pub add_part : Option (Text × Text) → Dict Text → Dict Text
unfolding insert strip
add_part none parts = parts
add_part (some (key, value)) parts = insert (strip key) (strip value) parts

unfoldable pub add_parts : List Text → Dict Text → Dict Text
unfolding insert strip split_once
add_parts [] parts = parts
add_parts (item ∷ items) parts = add_parts items (add_part (split_once 58 item) parts)

-- `_parse_external_reference`
unfoldable pub parse_external_reference : Text → Dict Text
unfolding add_parts strip split_on
parse_external_reference reference =
    let raw = strip reference in if is_empty raw then [] else add_parts (split_on 124 raw) []

pub data InvoiceStatus : Type 0 where
  draft pending paid failed cancelled : InvoiceStatus

-- `_invoice_status_from_payment_status`
unfoldable pub invoice_status_of : Text → InvoiceStatus
unfolding normalize text_eq mem_text
invoice_status_of payment_status =
    let status = normalize payment_status in
    if text_eq status (codes "approved")
    then paid
    else if mem_text status
        (codes "pending" ∷ codes "in_process" ∷ codes "in_mediation" ∷ codes "authorized" ∷ [])
    then pending
    else if mem_text status (
        codes "cancelled"
        ∷ codes "cancelled_by_user"
        ∷ codes "refunded"
        ∷ codes "charged_back"
        ∷ [])
    then cancelled
    else failed

pub record Invoice : Type 0 where
  pub id : Text
  pub tenant_id : Text
  pub invoice_number : Text
  pub amount : ℤ
  pub due_date : Moment
  pub period_start : Option Moment
  pub period_end : Option Moment
  pub status : InvoiceStatus
  pub paid_at : Option Moment
  pub payment_method : Text
  pub payment_gateway_id : Text

pub data SubscriptionStatus : Type 0 where
  active past_due canceled trial : SubscriptionStatus

pub record Subscription : Type 0 where
  pub tenant_id : Text
  pub plan_id : Text
  pub status : SubscriptionStatus
  pub current_period_start : Moment
  pub current_period_end : Moment
  pub cancel_at_period_end : Bool
  pub canceled_at : Option Moment
  pub provider_subscription_id : Text

pub record Db : Type 0 where
  pub tenants : List Tenant
  pub plans : List Plan
  pub invoices : List Invoice
  pub subscriptions : List Subscription

-- The statuses that `_cancel_existing_subscriptions` asks for.
abbrev pub is_live : SubscriptionStatus → Bool
is_live active = true
is_live past_due = true
is_live trial = true
is_live canceled = false

unfoldable pub is_live_of : Text → Subscription → Bool
unfolding text_eq
is_live_of tenant_id s = text_eq s.tenant_id tenant_id && is_live s.status

unfoldable pub cancel_one : Moment → Text → Subscription → Subscription
unfolding is_live_of
cancel_one now tenant_id s =
    if is_live_of tenant_id s
    then (record s { status = canceled; canceled_at = some now; cancel_at_period_end = false })
    else s

-- `_cancel_existing_subscriptions`
unfoldable pub cancel_existing : Moment → Text → List Subscription → List Subscription
unfolding cancel_one
cancel_existing now tenant_id subs = map (cancel_one now tenant_id) subs

abbrev pub has_tenant_id : Text → Tenant → Bool
has_tenant_id id t = text_eq t.id id

abbrev pub has_plan_id : Text → Plan → Bool
has_plan_id id p = text_eq p.id id

abbrev pub has_invoice_id : Text → Invoice → Bool
has_invoice_id id i = text_eq i.id id

-- The tenant that `_activate_subscription` leaves.
abbrev pub activated : Plan → Moment → Tenant → Tenant
activated p period_end t = record t {
  plan_id = some p.id;
  plan = some p;
  subscription_status = some (codes "active");
  current_period_end = some period_end;
  is_active = true;
  billing_blocked_at = none;
}

-- `_activate_subscription`
unfoldable pub activate_subscription : Moment → Text → Tenant → Plan → Moment → Moment → Db → Db
unfolding cancel_existing replace text_eq
activate_subscription now fresh t p period_start period_end db = record db {
  subscriptions =
      cancel_existing now t.id db.subscriptions
      ++ (record {
        tenant_id = t.id;
        plan_id = p.id;
        status = active;
        current_period_start = period_start;
        current_period_end = period_end;
        cancel_at_period_end = false;
        canceled_at = none;
        provider_subscription_id = fresh;
      })
        ∷ [];
  tenants = replace (has_tenant_id t.id) (activated p period_end t) db.tenants;
}
