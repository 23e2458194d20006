-- ===== src/Billing/Policy/Again.antt =====
-- Two runs of `enforce_access_policy` at the same moment.
use backup_center_ajust_cons.Base.{
  ℕ, ◌+◌, ◌≡◌, refl, ap, ◌∙◌, not, ◌&&◌, List, [], ◌∷◌, arith, inl, inr, Bool-cases, if◌then◌else◌,
  get_or,
}
use backup_center_ajust_cons.Text.{normalize, mem_text}
use backup_center_ajust_cons.Billing.{Moment, Tenant}
use backup_center_ajust_cons.Billing.Policy.{
  Counts, block, mark_past_due, clear_block, enforce_tenant, enforce_row, is_governed, enforce_from,
  enforce_access_policy, no_counts, payable_statuses, is_past_due,
}
use backup_center_ajust_cons.Billing.Policy.Enforce.{
  enforce_tenant-SameTerms, evaluate_of_SameTerms, past_due_self,
}

block_again :
    (now : Moment) (t : Tenant) (c d : Counts)
    → block now (block now t c).0 d ≡ ((block now t c).0, d)
unfolding block
block_again now t c d = refl

mark_past_due_again :
    (t : Tenant) (c d : Counts) → mark_past_due (mark_past_due t c).0 d ≡ ((mark_past_due t c).0, d)
unfolding mark_past_due
mark_past_due_again t c d =
    elim (Bool-cases (
      mem_text (normalize (get_or t.subscription_status [])) payable_statuses
      && not (is_past_due t.subscription_status))) [
        | inl e ↦ ground (arith, past_due_self)
        | inr e ↦ ground arith
      ]

clear_block_again :
    (t : Tenant) (c d : Counts) → clear_block (clear_block t c).0 d ≡ ((clear_block t c).0, d)
unfolding clear_block
clear_block_again t c d = ground arith

abbrev one_more : Counts → Counts
one_more d = record d { processed = d.processed + 1 }

enforce_tenant_again :
    (now : Moment) (t : Tenant) (c d : Counts)
    → enforce_tenant now (enforce_tenant now t c).0 d ≡ ((enforce_tenant now t c).0, one_more d)
unfolding enforce_tenant
enforce_tenant_again now t c d =
    let same =
      evaluate_of_SameTerms now t (enforce_tenant now t c).0 (enforce_tenant-SameTerms now t c) in
    ground (
      arith,
      same,
      block_again now t (one_more c) (one_more d),
      mark_past_due_again t (one_more c) (one_more d),
      clear_block_again t (one_more c) (one_more d),
    )

is_governed_again :
    (now : Moment) (t : Tenant) (c : Counts)
    → is_governed (enforce_tenant now t c).0 ≡ is_governed t
is_governed_again now t c =
    let h = enforce_tenant-SameTerms now t c in rw (h.same_access, h.same_deleted)

abbrev more : ℕ → Counts → Counts
more n d = record d { processed = d.processed + n }

-- 1 for a tenant that the query selects.
abbrev governed : Tenant → ℕ
governed t = if is_governed t then 1 else 0

enforce_row_again :
    (now : Moment) (t : Tenant) (c d : Counts)
    → enforce_row now (enforce_row now t c).0 d ≡ ((enforce_row now t c).0, more (governed t) d)
unfolding enforce_row
enforce_row_again now t c d = elim (Bool-cases (is_governed t)) [
  | inl e ↦ rw e (rw (is_governed_again now t c ∙ e) (enforce_tenant_again now t c d))
  | inr e ↦ rw e (rw e (ground arith))
]

abbrev governed_in : List Tenant → ℕ
governed_in [] = 0
governed_in (t ∷ ts) = governed t + governed_in ts

more-more : (m n : ℕ) (d : Counts) → more n (more m d) ≡ more (m + n) d
more-more m n d = ground arith

enforce_from_again :
    (now : Moment) (ts : List Tenant) (c d : Counts)
    → enforce_from now (enforce_from now ts c).0 d
      ≡ ((enforce_from now ts c).0, more (governed_in ts) d)
unfolding enforce_from
enforce_from_again now [] c d = ground arith
enforce_from_again now (t ∷ ts) c d =
    let c' = (enforce_row now t c).1 in
    rw (enforce_row_again now t c d) (
      rw (enforce_from_again now ts c' (more (governed t) d)) (
        ap (λ (x : Counts). ((enforce_row now t c).0 ∷ (enforce_from now ts c').0, x))
          (more-more (governed t) (governed_in ts) d)))

-- A second run at the same moment leaves the table as the first run left it, and marks, blocks and
-- reactivates no tenant.
pub enforce_access_policy_again :
    (now : Moment) (ts : List Tenant)
    → let ts' = (enforce_access_policy now ts).0 in
      let (ts'', c) = enforce_access_policy now ts' in
      (ts'' ≡ ts') × (c.marked_past_due ≡ 0) × (c.blocked ≡ 0) × (c.reactivated ≡ 0)
unfolding enforce_access_policy
enforce_access_policy_again now ts =
    rw (enforce_from_again now ts no_counts no_counts) (refl, refl, refl, refl)
