-- ===== src/Billing/Payment/Live.antt =====
-- The live subscriptions of a tenant, counted.
use backup_center_ajust_cons.Base.{
  ℕ, ◌+◌, ◌≡◌, refl, false, List, [], ◌∷◌, ◌++◌, arith, length, filter,
}
use backup_center_ajust_cons.Text.{Text, text_eq}
use backup_center_ajust_cons.Text.Laws.{text_eq_iff, text_eq_refl}
use backup_center_ajust_cons.Billing.{Moment}
use backup_center_ajust_cons.Billing.Payment.{
  Subscription, is_live_of, active, cancel_one, cancel_existing,
}

-- The live subscriptions of a tenant.
abbrev pub live_count : Text → List Subscription → ℕ
live_count tenant_id subs = length (filter (is_live_of tenant_id) subs)

cancel_one_dead :
    (now : Moment) (id : Text) (s : Subscription) → is_live_of id (cancel_one now id s) ≡ false
unfolding cancel_one is_live_of
cancel_one_dead now id s = ground arith

cancel_one_other :
    (now : Moment) (id u : Text) (s : Subscription)
    → text_eq u id ≡ false
    → is_live_of u (cancel_one now id s) ≡ is_live_of u s
unfolding cancel_one is_live_of
cancel_one_other now id u s h =
    ground (arith, text_eq_iff s.tenant_id id, text_eq_iff s.tenant_id u, text_eq_refl id)

pub live_count-cancel_existing :
    (now : Moment) (id : Text) (subs : List Subscription)
    → live_count id (cancel_existing now id subs) ≡ 0
unfolding cancel_existing
live_count-cancel_existing now id [] = refl
live_count-cancel_existing now id (s ∷ subs) =
    rw (cancel_one_dead now id s) (live_count-cancel_existing now id subs)

pub live_count-cancel_other :
    (now : Moment) (id u : Text) (subs : List Subscription)
    → text_eq u id ≡ false
    → live_count u (cancel_existing now id subs) ≡ live_count u subs
unfolding cancel_existing
live_count-cancel_other now id u [] h = refl
live_count-cancel_other now id u (s ∷ subs) h =
    rw (cancel_one_other now id u s h) (ground (arith, live_count-cancel_other now id u subs h))

pub live_count-append :
    (u : Text) (xs ys : List Subscription)
    → live_count u (xs ++ ys) ≡ live_count u xs + live_count u ys
live_count-append u [] ys = omega arith
live_count-append u (x ∷ xs) ys = ground (arith, live_count-append u xs ys)

-- A subscription of another tenant is not counted, and an active one of the tenant is.
pub live_count_one :
    (u : Text) (s : Subscription)
    → s.status ≡ active
    → (u ≡ s.tenant_id → live_count u (s ∷ []) ≡ 1)
      × (text_eq u s.tenant_id ≡ false → live_count u (s ∷ []) ≡ 0)
unfolding is_live_of
live_count_one u s h =
    let self = text_eq_refl u in
    (λ e. rw (h, ← e, self), λ e. ground (arith, text_eq_iff s.tenant_id u, self))
