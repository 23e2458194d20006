-- ===== src/Logs/Scan/Newest.antt =====
-- A scan of a log whose numbers grow answers with the newest entries that are asked for.
use mathlib.Core.List.{append-nil, reverse-reverse}
use backup_center_ajust_cons.Base.{
  ℕ, suc, ◌-◌, ◌<◌, ◌≡◌, refl, sym, ap, ◌∙◌, inl, inr, true, false, ◌&&◌, List, [], reverse, arith,
  ltb, leb, length, Bool-cases, filter,
}
use backup_center_ajust_cons.Base.Slice.{
  take, take_all, take-nil, keep_last, reverse-take-reverse, filter-reverse,
}
use backup_center_ajust_cons.Logs.{Entry, Raw}
use backup_center_ajust_cons.Logs.Scan.{Query, Found, is_done, walk, chunk_size, scan_recent}
use backup_center_ajust_cons.Logs.Scan.Walk.{
  Falls, Under, entries_of, entries_of-reverse, wanted, is_wanted, none_wanted, walk-wanted,
}
use backup_center_ajust_cons.Logs.Scan.Whole.{chunks_whole}

sub_zero : (k : ℕ) → k - 0 ≡ k
sub_zero k = omega arith

module _ (seq_of : Entry → ℕ) where
  initial : Query → Found
  initial q = record { entries = []; last_seq = q.after_seq; reached_boundary = false }

  scan_walk :
      (latest : ℕ) (q : Query) (log : List Raw)
      → 0 < q.limit
      → (ltb 0 latest && leb latest q.after_seq) ≡ false
      → scan_recent seq_of latest q log ≡ (
        (walk seq_of q (initial q) (reverse log)).entries,
        (walk seq_of q (initial q) (reverse log)).last_seq,
      )
  unfolding scan_recent initial
  scan_walk latest q log h c = rw c (
      rw
        (
          chunks_whole seq_of q (chunk_size q) (length log) (length log) log (initial q)
              (unfold chunk_size in omega arith) (omega arith) (unfold is_done in ground arith),
          take_all (length log) log (omega arith),
        )
        refl)

  walk-initial :
      (q : Query) (raws : List Raw)
      → Falls seq_of raws
      → 0 < q.limit
      → (walk seq_of q (initial q) raws).entries ≡ reverse (take q.limit (wanted seq_of q raws))
  unfolding initial
  walk-initial q raws d h =
      walk-wanted seq_of q (initial q) raws d h
      ∙ append-nil _
      ∙ ap (λ (k : ℕ). reverse (take k (wanted seq_of q raws))) (sub_zero q.limit)

  newest_reverse :
      (q : Query) (log : List Raw)
      → keep_last q.limit (wanted seq_of q log)
        ≡ reverse (take q.limit (wanted seq_of q (reverse log)))
  newest_reverse q log =
      sym (reverse-take-reverse q.limit (wanted seq_of q log))
      ∙ ap (λ (es : List Entry). reverse (take q.limit es))
          (sym (filter-reverse (is_wanted seq_of q) (entries_of log))
            ∙ ap (filter (is_wanted seq_of q)) (sym (entries_of-reverse log)))

  scan_early :
      (latest : ℕ) (q : Query) (log : List Raw)
      → (ltb 0 latest && leb latest q.after_seq) ≡ true
      → scan_recent seq_of latest q log ≡ ([], latest)
  unfolding scan_recent
  scan_early latest q log c = rw c refl

  -- In a log whose numbers grow up to the counter's value, a scan for at least one entry finds, in the
  -- order of the log, the newest entries of those after the number asked for, and of the tenant asked
  -- for, as many as the limit allows.
  pub scan_recent-newest :
      (latest : ℕ) (q : Query) (log : List Raw)
      → Falls seq_of (reverse log)
      → Under seq_of (suc latest) (reverse log)
      → 0 < q.limit
      → (scan_recent seq_of latest q log).0 ≡ keep_last q.limit (wanted seq_of q log)
  scan_recent-newest latest q log d u h =
      elim (Bool-cases (ltb 0 latest && leb latest q.after_seq)) [
        | inl c ↦
            ap (λ (p : List Entry × ℕ). p.0) (scan_early latest q log c)
            ∙ ap reverse (sym (take-nil q.limit))
            ∙ ap (λ (es : List Entry). reverse (take q.limit es))
                (sym (none_wanted seq_of q (suc latest) (reverse log) (ground arith) u))
            ∙ sym (newest_reverse q log)
        | inr c ↦
            ap (λ (p : List Entry × ℕ). p.0) (scan_walk latest q log h c)
            ∙ walk-initial q (reverse log) d h
            ∙ sym (newest_reverse q log)
      ]

  -- The next question of a page: from the number that the scan answered with.
  abbrev pub again : ℕ → Query → List Raw → Query
  again latest q log = record q { after_seq = (scan_recent seq_of latest q log).1 }

  pub none-reverse :
      (q : Query) (log : List Raw) → wanted seq_of q (reverse log) ≡ [] → wanted seq_of q log ≡ []
  none-reverse q log h =
      sym (reverse-reverse _)
      ∙ ap reverse (
          sym (filter-reverse (is_wanted seq_of q) (entries_of log))
          ∙ ap (filter (is_wanted seq_of q)) (sym (entries_of-reverse log))
          ∙ h)
