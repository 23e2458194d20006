-- ===== src/Billing/Limits/Download.antt =====
-- The monthly downloads of a tenant against its limit (`consume_download_bytes`).
use backup_center_ajust_cons.Base.{
  ℕ, zero, suc, ◌+◌, ◌≤◌, ◌<◌, ◌≡◌, refl, sym, true, false, ◌&&◌, List, [], ◌∷◌, Option, some,
  arith, inl, inr, Bool-cases, is_some, if◌then◌else◌, leb,
}
use mathlib.Core.Path.{subst}
use backup_center_ajust_cons.Base.Int.{ℤ, pos}
use backup_center_ajust_cons.Text.{Text, text_eq}
use backup_center_ajust_cons.Text.Laws.{text_eq_refl, text_eq_iff}
use backup_center_ajust_cons.Billing.{Tenant}
use backup_center_ajust_cons.Billing.Limits.{
  LimitCheck, Metric, refuse_no_plan, is_metric_of, download_used_bytes, has_metric, ensure_metric,
  add_download, consume_from, consume_download_bytes, monthly_download_limit_bytes, as_int,
}

used-ensure_metric :
    (tenant period u q : Text) (ms : List Metric)
    → download_used_bytes u q (ensure_metric tenant period ms) ≡ download_used_bytes u q ms
unfolding download_used_bytes ensure_metric
used-ensure_metric tenant period u q [] = ground arith
used-ensure_metric tenant period u q (m ∷ ms) =
    ground (arith, used-ensure_metric tenant period u q ms)

has-ensure_metric :
    (tenant period : Text) (ms : List Metric)
    → has_metric tenant period (ensure_metric tenant period ms) ≡ true
unfolding has_metric ensure_metric
has-ensure_metric tenant period [] = ground (arith, text_eq_refl tenant, text_eq_refl period)
has-ensure_metric tenant period (m ∷ ms) = ground (arith, has-ensure_metric tenant period ms)

used-add_download :
    (tenant period : Text) (size : ℕ) (ms : List Metric)
    → has_metric tenant period ms ≡ true
    → download_used_bytes tenant period (add_download tenant period size ms)
      ≡ download_used_bytes tenant period ms + size
unfolding download_used_bytes add_download has_metric
used-add_download tenant period size [] h = cc
used-add_download tenant period size (m ∷ ms) h =
    ground (arith, used-add_download tenant period size ms)

-- Another tenant or another month.
abbrev pub IsOther : Text → Text → Text → Text → Type 0
IsOther tenant period u q = (text_eq tenant u && text_eq period q) ≡ false

other_row :
    (tenant period u q : Text) (m : Metric)
    → IsOther tenant period u q
    → is_metric_of tenant period m ≡ true
    → is_metric_of u q m ≡ false
other_row tenant period u q m o h =
    ground (arith, text_eq_iff m.tenant_id tenant, text_eq_iff m.period_key period)

used-add_download_ne :
    (tenant period u q : Text) (size : ℕ) (ms : List Metric)
    → IsOther tenant period u q
    → download_used_bytes u q (add_download tenant period size ms) ≡ download_used_bytes u q ms
unfolding download_used_bytes add_download
used-add_download_ne tenant period u q size [] o = refl
used-add_download_ne tenant period u q size (m ∷ ms) o =
    ground
      (arith, other_row tenant period u q m o, used-add_download_ne tenant period u q size ms o)

-- What a request of `size` bytes does to the table.
pub record Consumed (t : Tenant) (period : Text) (size : ℕ) (before : List Metric)
    (r : LimitCheck × List Metric) : Type 0 where
  pub counted :
      r.0.allowed ≡ true
      → download_used_bytes t.id period r.1 ≡ download_used_bytes t.id period before + size
  pub refused :
      r.0.allowed ≡ false
      → download_used_bytes t.id period r.1 ≡ download_used_bytes t.id period before
  pub within :
      0 < monthly_download_limit_bytes t.plan
      → r.0.allowed ≡ true
      → 0 < size
      → download_used_bytes t.id period r.1 ≤ monthly_download_limit_bytes t.plan
  pub exact :
      0 < size
      → (r.0.allowed ≡ false)
      → (is_some t.plan ≡ true)
      → (0 < monthly_download_limit_bytes t.plan)
        × (monthly_download_limit_bytes t.plan < download_used_bytes t.id period before + size)
  pub others :
      (u q : Text)
      → IsOther t.id period u q
      → download_used_bytes u q r.1 ≡ download_used_bytes u q before

consume_from-Consumed :
    (t : Tenant) (period : Text) (size : ℕ) (ms : List Metric)
    → Consumed t period size ms (consume_from t period size (ensure_metric t.id period ms))
unfolding consume_from
consume_from-Consumed t period size ms =
    let ms' = ensure_metric t.id period ms in
    let same = used-ensure_metric t.id period t.id period ms in
    let grown = used-add_download t.id period size ms' (has-ensure_metric t.id period ms) in
    record {
      counted = λ h. ground (arith, same, grown);
      refused = λ h. ground (arith, same);
      within = λ l h p. ground (arith, same, grown);
      exact = λ p h s. (ground (arith, same), ground (arith, same));
      others = λ u q o. ground (
        arith,
        used-ensure_metric t.id period u q ms,
        used-add_download_ne t.id period u q size ms' o,
      );
    }

paid_step :
    (t : Tenant) (period : Text) (download_size : Option ℤ) (ms : List Metric)
    → t.access_unlimited ≡ false
    → leb (as_int download_size 0) 0 ≡ false
    → consume_download_bytes t period download_size ms ≡ (
        if is_some t.plan
        then consume_from t period (as_int download_size 0) (ensure_metric t.id period ms)
        else (refuse_no_plan, ms))
unfolding consume_download_bytes
paid_step t period download_size ms u z = ground arith

-- A request of a tenant that pays by plan is counted in full if it is allowed, and not at all if it
-- is refused; an allowed one leaves the month's bytes within the plan's limit, when there is one;
-- with a plan it is refused only if it would pass the limit; and no other tenant or month changes.
pub consume_download_bytes-Consumed :
    (t : Tenant) (period : Text) (download_size : Option ℤ) (ms : List Metric)
    → t.access_unlimited ≡ false
    → Consumed t period
        (as_int download_size 0)
        ms
        (consume_download_bytes t period download_size ms)
unfolding consume_download_bytes
consume_download_bytes-Consumed t period download_size ms u =
    elim (Bool-cases (leb (as_int download_size 0) 0)) [
      | inl z ↦ rw z (record {
        counted = λ h. ground arith;
        refused = λ h. refl;
        within = λ l h p. ground arith;
        exact = λ p h s. cc;
        others = λ v q o. refl;
      })
      | inr z ↦
          subst (Consumed t period (as_int download_size 0) ms)
            (sym (paid_step t period download_size ms u z))
            (elim (Bool-cases (is_some t.plan)) [
              | inl s ↦ rw s (consume_from-Consumed t period (as_int download_size 0) ms)
              | inr s ↦ rw s (record {
                counted = λ h. cc;
                refused = λ h. refl;
                within = λ l h p. cc;
                exact = λ p h w. cc;
                others = λ v q o. refl;
              })
            ])
    ]

-- Requests in the same month, one after another, with the sum of the bytes that were allowed.
unfoldable pub consume_all : Tenant → Text → List ℕ → List Metric → ℕ × List Metric
unfolding consume_download_bytes
consume_all t period [] ms = (0, ms)
consume_all t period (size ∷ sizes) ms =
    let (r, ms') = consume_download_bytes t period (some (pos size)) ms in
    let (sum, ms'') = consume_all t period sizes ms' in
    ((if r.allowed then size else 0) + sum, ms'')

consume_all_lem :
    (t : Tenant) (period : Text) (sizes : List ℕ) (ms : List Metric)
    → t.access_unlimited ≡ false
    → let (sum, ms') = consume_all t period sizes ms in
      (download_used_bytes t.id period ms' ≡ download_used_bytes t.id period ms + sum)
      × (0 < monthly_download_limit_bytes t.plan
          → download_used_bytes t.id period ms ≤ monthly_download_limit_bytes t.plan
          → download_used_bytes t.id period ms' ≤ monthly_download_limit_bytes t.plan)
unfolding consume_all
consume_all_lem t period [] ms u = (omega arith, λ l h. h)
consume_all_lem t period (size ∷ sizes) ms u =
    let r = consume_download_bytes t period (some (pos size)) ms in
    let c = consume_download_bytes-Consumed t period (some (pos size)) ms u in
    let (grows, bounded) = consume_all_lem t period sizes r.1 u in
    elim (Bool-cases r.0.allowed) [
      | inl e ↦
          rw e (omega (arith, grows, c.counted e), λ l h. bounded l (step_within size c e l h))
      | inr e ↦
          rw e (omega (arith, grows, c.refused e), λ l h. bounded l (omega (arith, c.refused e, h)))
    ]
  where
    step_within :
        (n : ℕ)
        → Consumed t period n ms (consume_download_bytes t period (some (pos n)) ms)
        → (consume_download_bytes t period (some (pos n)) ms).0.allowed ≡ true
        → 0 < monthly_download_limit_bytes t.plan
        → download_used_bytes t.id period ms ≤ monthly_download_limit_bytes t.plan
        → download_used_bytes t.id period (consume_download_bytes t period (some (pos n)) ms).1
          ≤ monthly_download_limit_bytes t.plan
    step_within zero c e l h = omega (arith, c.counted e, h)
    step_within (suc n) c e l h = c.within l e (omega arith)

-- Over any sequence of requests in one month, of a tenant that pays by plan and whose plan limits its
-- downloads, the table grows by exactly the bytes that were allowed and stays within the limit, if it was
-- within it at the start.
pub consume_all_bounded :
    (t : Tenant) (period : Text) (sizes : List ℕ) (ms : List Metric)
    → t.access_unlimited ≡ false
    → 0 < monthly_download_limit_bytes t.plan
    → download_used_bytes t.id period ms ≤ monthly_download_limit_bytes t.plan
    → let (sum, ms') = consume_all t period sizes ms in
      (download_used_bytes t.id period ms' ≡ download_used_bytes t.id period ms + sum)
      × (download_used_bytes t.id period ms' ≤ monthly_download_limit_bytes t.plan)
consume_all_bounded t period sizes ms u l h =
    let (grows, bounded) = consume_all_lem t period sizes ms u in (grows, bounded l h)
