-- ===== src/Billing/Payment/Tests.antt =====
-- Payments at concrete invoices.
use backup_center_ajust_cons.Base.{◌≡◌, refl, true, false, none, some, [], ◌∷◌}
use backup_center_ajust_cons.Base.Int.{pos}
use backup_center_ajust_cons.Base.Rows.{find}
use backup_center_ajust_cons.Text.{Text, codes, strip, lower}
use backup_center_ajust_cons.Billing.{Plan, Tenant}
use backup_center_ajust_cons.Billing.Payment.{
  Invoice, paid, pending, failed, Db, activated, new_external_reference, parse_external_reference,
  invoice_status_of, has_invoice_id, has_tenant_id,
}
use backup_center_ajust_cons.Billing.Payment.Reference.{IsPlain, parse-new_external_reference}
use backup_center_ajust_cons.Billing.Payment.Process.{
  Payment, process, invoice_of, marked, parse_uuid,
}
use backup_center_ajust_cons.Billing.Payment.Paid.{IsActivated, process_lost}
use backup_center_ajust_cons.Base.{ℕ, Bool, All, ◌+◌, ◌*◌, ◌==◌, ◌||◌, any, arith}
use backup_center_ajust_cons.Text.{is_space, text_eq}
use backup_center_ajust_cons.Billing.Policy.{us_per_day}
use backup_center_ajust_cons.Billing.Payment.{period_delta_days}
use backup_center_ajust_cons.Billing.Payment.Checkout.{
  Preference, Request, ready, open_checkout, create_checkout, reference_for,
}
use backup_center_ajust_cons.Billing.Payment.Checkout.Settled.{IsId, checkout_settles}

abbrev tenant_id : Text
tenant_id = codes "00000000-0000-0000-0000-00000000000a"

abbrev plan_id : Text
plan_id = codes "00000000-0000-0000-0000-00000000000b"

abbrev invoice_id : Text
invoice_id = codes "00000000-0000-0000-0000-00000000000c"

abbrev plan : Plan
plan = record {
  id = plan_id;
  price_monthly = pos 4990;
  price_yearly = none;
  trial_days = some (pos 7);
  billing_period_days = some (pos 30);
  payment_grace_days = some (pos 3);
  max_devices = some (pos 2);
  max_users = some (pos 1);
  storage_quota_gb = some (pos 1);
  download_quota_gb_month = some (pos 1);
  is_active = true;
}

abbrev tenant : Tenant
tenant = record {
  id = tenant_id;
  plan_id = none;
  plan = none;
  is_active = false;
  subscription_status = some (codes "canceled");
  trial_ends_at = none;
  current_period_end = none;
  billing_blocked_at = some 7;
  deleted_at = none;
  access_unlimited = false;
}

abbrev invoice : Invoice
invoice = record {
  id = invoice_id;
  tenant_id = tenant_id;
  invoice_number = codes "INV-1";
  amount = pos 4990;
  due_date = 1500;
  period_start = some 1000;
  period_end = some 2000;
  status = pending;
  paid_at = none;
  payment_method = codes "mercado_pago";
  payment_gateway_id = [];
}

abbrev db : Db
db = record {
  tenants = tenant ∷ [];
  plans = plan ∷ [];
  invoices = invoice ∷ [];
  subscriptions = [];
}

abbrev payment : Text → Payment
payment status = record {
  status = status;
  external_reference =
      codes
        "tenant:00000000-0000-0000-0000-00000000000a|plan:0000000000000000000000000000000b|invoice:00000000-0000-0000-0000-00000000000C";
  payment_type_id = codes "pix";
  payment_method_id = [];
}

abbrev approved : Text → Payment
approved id = payment (codes "Approved")

abbrev rejected : Text → Payment
rejected id = payment (codes "rejected")

uuid_read : parse_uuid (codes "{0000000000000000000000000000000B}") ≡ some plan_id
unfolding parse_uuid
uuid_read = refl

invoice_found : invoice_of (payment (codes "approved")) (invoice ∷ []) ≡ some invoice
unfolding invoice_of
invoice_found = refl

abbrev one : Text
one = codes " 1 "

abbrev paid_invoice : Invoice
paid_invoice = record invoice { status = paid; paid_at = some 1500 }

abbrev paid_db : Db
paid_db = record db { invoices = paid_invoice ∷ []; tenants = activated plan 2000 tenant ∷ [] }

-- A failed attempt is notified after the invoice has been paid.
process_lost_example :
    let db' = (process (codes "token") rejected 1600 (codes "f") one paid_db).1 in
    (find (has_invoice_id invoice_id) db'.invoices
      ≡ some (marked (strip one) (payment (codes "rejected")) failed 1600 paid_invoice))
    × (find (has_tenant_id tenant_id) db'.tenants
        ≡ some
            (record (activated plan 2000 tenant) { subscription_status = some (codes "past_due") }))
unfolding strip lower invoice_of find invoice_status_of
process_lost_example =
    process_lost (codes "token") rejected 1600 (codes "f") one paid_db paid_invoice
      (activated plan 2000 tenant) refl refl refl refl refl

parse-new_external_reference_example :
    parse_external_reference (new_external_reference (codes "a-1") (codes "b-2") (codes "c-3"))
    ≡ (codes "tenant", codes "a-1")
      ∷ (codes "plan", codes "b-2")
      ∷ (codes "invoice", codes "c-3")
      ∷ []
parse-new_external_reference_example =
    parse-new_external_reference (codes "a-1") (codes "b-2") (codes "c-3")
      ((refl, refl, refl), ((refl, refl, refl), ((refl, refl, refl), tt)))
      ((refl, refl, refl), ((refl, refl, refl), ((refl, refl, refl), tt)))
      ((refl, refl, refl), ((refl, refl, refl), ((refl, refl, refl), tt)))

-- A character that no id has.
abbrev is_bad : ℕ → Bool
is_bad c = c == 58 || (c == 124 || is_space c)

id_chars : (s : Text) → any is_bad s ≡ false → All IsPlain s
id_chars [] h = tt
id_chars (c ∷ s) h = ((ground arith, ground arith, ground arith), id_chars s (ground arith))

tenant_id-IsId : IsId tenant_id
unfolding parse_uuid
tenant_id-IsId = record { plain = id_chars tenant_id refl; canonical = refl }

plan_id-IsId : IsId plan_id
unfolding parse_uuid
plan_id-IsId = record { plain = id_chars plan_id refl; canonical = refl }

invoice_id-IsId : IsId invoice_id
unfolding parse_uuid
invoice_id-IsId = record { plain = id_chars invoice_id refl; canonical = refl }

abbrev preference : Preference
preference = record {
  id = codes "pref";
  init_point = codes "https://mp/1";
  sandbox_init_point = [];
}

abbrev request : Request
request = record {
  access_token = codes "token";
  use_sandbox = true;
  tenant_id = tenant_id;
  plan_id = plan_id;
  billing_cycle = codes "yearly";
  device_count = 1;
  user_count = 1;
  storage_used = 0;
  now = 1000;
  invoice_id = invoice_id;
  invoice_number = codes "INV-2";
  create_preference = λ ref. some preference;
}

abbrev yearly_plan : Plan
yearly_plan = record plan { price_yearly = some (pos 49900) }

abbrev empty_db : Db
empty_db = record db { plans = yearly_plan ∷ []; invoices = [] }

abbrev after_checkout : Db
after_checkout = (open_checkout request tenant yearly_plan empty_db).1

went_through :
    open_checkout request tenant yearly_plan empty_db
    ≡ (ready (codes "https://mp/1") invoice_id (codes "pref"), after_checkout)
unfolding open_checkout
went_through = refl

whole_checkout :
    create_checkout request empty_db ≡ open_checkout request tenant yearly_plan empty_db
unfolding create_checkout
whole_checkout = refl

abbrev settled : Text → Payment
settled id = record (payment (codes "approved")) {
  external_reference = reference_for request tenant yearly_plan;
}

checkout_settles_example :
    IsActivated tenant yearly_plan
      (1000 + period_delta_days yearly_plan (codes "yearly") * us_per_day)
      after_checkout
      (process (codes "token") settled 1500 (codes "f") one after_checkout).1
unfolding strip lower find invoice_status_of text_eq
checkout_settles_example =
    checkout_settles request empty_db after_checkout tenant yearly_plan (codes "https://mp/1")
      invoice_id (codes "pref") settled 1500 (codes "f") one went_through refl refl tenant_id-IsId
      plan_id-IsId invoice_id-IsId refl refl refl refl refl
