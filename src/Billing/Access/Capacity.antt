-- ===== src/Billing/Access/Capacity.antt =====
-- The capacity table against the check of a plan's selection.
use backup_center_ajust_cons.Base.{ℕ, ◌<◌, ◌≡◌, ◌↔◌, true, false, none, some, arith}
use backup_center_ajust_cons.Base.Int.{ℤ, pos, ltb_ℤ}
use backup_center_ajust_cons.Billing.{Plan, int_or_zero}
use backup_center_ajust_cons.Billing.Access.{
  too_many_devices, validate_plan_selection, plan_capacity,
}

-- For a plan with positive limits of devices and users and a storage quota that is not NULL, the
-- table calls the plan eligible exactly when the check of its selection raises nothing.
pub plan_capacity_agrees :
    (p : Plan) (devices users storage : ℕ) (quota : ℤ)
    → ltb_ℤ (pos 0) (int_or_zero p.max_devices) ≡ true
    → ltb_ℤ (pos 0) (int_or_zero p.max_users) ≡ true
    → p.storage_quota_gb ≡ some quota
    → ((plan_capacity p devices users storage).eligible ≡ true)
      ↔ (validate_plan_selection (some p) devices (some users) (some storage) ≡ none)
unfolding plan_capacity validate_plan_selection
plan_capacity_agrees p devices users storage quota d u q = (λ h. ground arith, λ h. ground arith)

-- A limit of 0 devices is no limit for the table, but the check refuses every tenant that has a
-- device.
pub zero_limit_refused :
    (p : Plan) (devices users storage : ℕ)
    → int_or_zero p.max_devices ≡ pos 0
    → 0 < devices
    → ((plan_capacity p devices users storage).devices_over ≡ false)
      × (validate_plan_selection (some p) devices (some users) (some storage)
          ≡ some (too_many_devices (pos 0) devices))
unfolding plan_capacity validate_plan_selection
zero_limit_refused p devices users storage z h = (ground arith, ground arith)
