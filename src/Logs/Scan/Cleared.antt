-- ===== src/Logs/Scan/Cleared.antt =====
-- What the pages of the tenants see of the global log once it was cleared for one of them.
use backup_center_ajust_cons.Base.{
  ℕ, ◌<◌, ◌≡◌, refl, sym, ap, ◌∙◌, inl, inr, Bool, true, false, ◌&&◌, List, [], ◌∷◌, some, arith,
  filter, Bool-cases, Option-cases, if◌then◌else◌, ltb,
}
use backup_center_ajust_cons.Base.Slice.{keep_last, keep_last-nil}
use backup_center_ajust_cons.Text.{Text, text_eq, is_empty}
use backup_center_ajust_cons.Text.Laws.{text_eq_iff}
use backup_center_ajust_cons.Logs.{Entry, Raw, junk, other, object}
use backup_center_ajust_cons.Logs.Prune.{tenant_text, sift_tenant, clear_tenant}
use backup_center_ajust_cons.Logs.Prune.Agree.{is_kept, sift_tenant-filter}
use backup_center_ajust_cons.Logs.Scan.{Query, is_tenant, scan_recent}
use backup_center_ajust_cons.Logs.Scan.Walk.{entries_of, wanted, is_wanted}
use backup_center_ajust_cons.Logs.Scan.Newest.{scan_recent-newest}
use backup_center_ajust_cons.Logs.Write.Order.{Ordered, filter-Ordered}

and_false : (b : Bool) → (b && false) ≡ false
and_false true = refl
and_false false = refl

module _ (seq_of : Entry → ℕ) (q : Query) (tenant : Text) where
  wanted_gone :
      (log : List Raw)
      → is_empty tenant ≡ false
      → q.tenant ≡ tenant
      → wanted seq_of q (filter (is_kept tenant) log) ≡ []
  unfolding entries_of is_kept
  wanted_gone [] h e = refl
  wanted_gone (junk ∷ log) h e = wanted_gone log h e
  wanted_gone (other ∷ log) h e = wanted_gone log h e
  wanted_gone (object x ∷ log) h e = elim (Bool-cases (text_eq (tenant_text x) tenant)) [
    | inl k ↦ rw k (wanted_gone log h e)
    | inr k ↦ rw k (rw (not_theirs x k) (wanted_gone log h e))
  ]
    where
      not_theirs :
          (x : Entry) → text_eq (tenant_text x) tenant ≡ false → is_wanted seq_of q x ≡ false
      not_theirs x k =
          unfold is_wanted is_tenant in rw (e, h, k) (and_false (ltb q.after_seq (seq_of x)))

  wanted_same :
      (log : List Raw)
      → is_empty q.tenant ≡ false
      → text_eq tenant q.tenant ≡ false
      → wanted seq_of q (filter (is_kept tenant) log) ≡ wanted seq_of q log
  unfolding entries_of is_kept
  wanted_same [] h e = refl
  wanted_same (junk ∷ log) h e = wanted_same log h e
  wanted_same (other ∷ log) h e = wanted_same log h e
  wanted_same (object x ∷ log) h e = elim (Bool-cases (text_eq (tenant_text x) tenant)) [
    | inl k ↦ rw k (rw (theirs x k) (wanted_same log h e))
    | inr k ↦ rw k (elim (Bool-cases (is_wanted seq_of q x)) [
      | inl w ↦ rw w (ap (◌∷◌ x) (wanted_same log h e))
      | inr w ↦ rw w (wanted_same log h e)
    ])
  ]
    where
      theirs : (x : Entry) → text_eq (tenant_text x) tenant ≡ true → is_wanted seq_of q x ≡ false
      theirs x k =
          unfold is_wanted is_tenant in
          rw (h, (text_eq_iff (tenant_text x) tenant).0 k, e)
            (and_false (ltb q.after_seq (seq_of x)))

  cleared_log :
      (n : ℕ) (log : List Raw)
      → is_empty tenant ≡ false
      → (clear_tenant tenant log).0 ≡ some n
      → (clear_tenant tenant log).1 ≡ filter (is_kept tenant) log
  unfolding clear_tenant
  cleared_log n log h c = elim (Option-cases (sift_tenant tenant log)) [
    | inl e ↦ ground (arith, h, e)
    | inr (p, e) ↦ ground (arith, h, e, sift_tenant-filter tenant p.0 log p.1 e)
  ]

  -- On a log whose numbers grow up to the counter, once it was cleared for a tenant without an error, a
  -- page that asks for at least one entry of that tenant is shown nothing, and one that asks for those
  -- of another tenant is shown what it was shown before.
  pub scan_recent-clear :
      (latest n : ℕ) (log : List Raw)
      → Ordered seq_of latest log
      → is_empty tenant ≡ false
      → is_empty q.tenant ≡ false
      → (clear_tenant tenant log).0 ≡ some n
      → 0 < q.limit
      → (scan_recent seq_of latest q (clear_tenant tenant log).1).0
        ≡ (if text_eq tenant q.tenant then [] else (scan_recent seq_of latest q log).0)
  scan_recent-clear latest n log o h f c l =
      let o' = filter-Ordered seq_of (is_kept tenant) latest log o in
      let after : (scan_recent seq_of latest q (clear_tenant tenant log).1).0
          ≡ keep_last q.limit (wanted seq_of q (filter (is_kept tenant) log)) =
        rw (cleared_log n log h c) (scan_recent-newest seq_of latest q _ o'.0 o'.1 l) in
      elim (Bool-cases (text_eq tenant q.tenant)) [
        | inl e ↦ rw e (
            after
            ∙ ap (keep_last q.limit) (wanted_gone log h (sym ((text_eq_iff tenant q.tenant).0 e)))
            ∙ keep_last-nil q.limit)
        | inr e ↦ rw e (
            after
            ∙ ap (keep_last q.limit) (wanted_same log f e)
            ∙ sym (scan_recent-newest seq_of latest q log o.0 o.1 l))
      ]
