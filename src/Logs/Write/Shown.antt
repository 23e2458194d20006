-- ===== src/Logs/Write/Shown.antt =====
-- A line that is written is what a page that polls the global log is shown next.
use backup_center_ajust_cons.Base.{
  ℕ, suc, ◌-◌, ◌<◌, ◌≡◌, refl, ap, ◌∙◌, inl, inr, true, false, List, [], ◌∷◌, ◌++◌, reverse, filter,
  arith, length, Bool-cases, ltb,
}
use backup_center_ajust_cons.Base.Slice.{
  drop, keep_last, keep_last-snoc, keep_last-one, filter-append,
}
use backup_center_ajust_cons.Text.{Text, is_empty}
use backup_center_ajust_cons.Logs.{Entry, Raw, object, State}
use backup_center_ajust_cons.Logs.Prune.{fresh, age_of, age_of_stamp, prune_head, maybe_prune}
use backup_center_ajust_cons.Logs.Prune.Agree.{prune_head-drop, prune_head-snoc}
use backup_center_ajust_cons.Logs.Scan.{Query, is_tenant, get_global_logs}
use backup_center_ajust_cons.Logs.Scan.Walk.{
  entries_of, entries_of-append, wanted, is_wanted, none_wanted,
}
use backup_center_ajust_cons.Logs.Scan.Newest.{scan_recent-newest, none-reverse}
use backup_center_ajust_cons.Logs.Write.{
  Settings, Clock, entry_of, push_entry, trim_global, append_log,
}
use backup_center_ajust_cons.Logs.Write.Order.{Ordered, drop-Ordered}
use backup_center_ajust_cons.Logs.Write.Poll.{IsNumbered, call_step, append, call_step-IsNumbered}

module _ (cfg : Settings) (clock : Clock) (task device message level : Text) (s : State) where
  abbrev pub entry : Entry
  entry = entry_of clock task device message level s

  entry-fresh : age_of (clock.now - cfg.retention) (object entry) ≡ fresh
  unfolding age_of age_of_stamp entry_of
  entry-fresh = ground arith

  pruned_ends :
      (k : ℕ) × ((maybe_prune cfg.prune_interval clock.mono
          (clock.now - cfg.retention)
          (push_entry cfg entry s)).global
        ≡ drop k s.global ++ object entry ∷ [])
  unfolding maybe_prune push_entry
  pruned_ends = elim (Bool-cases (ltb clock.mono s.prune_until)) [
    | inl e ↦ (0, rw e refl)
    | inr e ↦ (
      (prune_head (clock.now - cfg.retention) s.global).removed,
      ground (
        arith,
        e,
        prune_head-snoc (clock.now - cfg.retention) s.global (object entry) entry-fresh,
        prune_head-drop (clock.now - cfg.retention) s.global,
      ),
    )
  ]

  -- The log ends with the line, after what was left of the lines before.
  append_ends :
      is_empty task ≡ false
      → 0 < cfg.global_max
      → (j k : ℕ) × ((append_log cfg clock task device message level s).global
          ≡ drop j (drop k s.global) ++ object entry ∷ [])
  unfolding append_log trim_global
  append_ends e h =
      let (k, p) = pruned_ends in
      (
        length (drop k s.global ++ object entry ∷ []) - cfg.global_max,
        k,
        rw (e, p) (keep_last-snoc cfg.global_max (drop k s.global) (object entry) h),
      )

  only_entry :
      (q : Query) (old : List Raw)
      → Ordered (λ e. e.global_seq) s.global_seq old
      → q.after_seq ≡ s.global_seq
      → is_tenant q entry ≡ true
      → wanted (λ e. e.global_seq) q (old ++ object entry ∷ []) ≡ entry ∷ []
  unfolding entries_of
  only_entry q old (d, u) a t =
      ap (filter (is_wanted (λ e. e.global_seq) q)) (entries_of-append old (object entry ∷ []))
      ∙ filter-append (is_wanted (λ e. e.global_seq) q) (entries_of old) (entry ∷ [])
      ∙ rw
          (
            none-reverse (λ e. e.global_seq) q old
                (none_wanted (λ e. e.global_seq) q (suc s.global_seq) (reverse old) (omega arith)
                  u),
            wanted_entry,
          )
          refl
    where
      wanted_entry : is_wanted (λ e. e.global_seq) q entry ≡ true
      wanted_entry = unfold is_wanted entry_of in ground (arith, t)

  append-Ordered :
      IsNumbered cfg s
      → Ordered
          (λ e. e.global_seq)
          (append_log cfg clock task device message level s).global_seq
          (append_log cfg clock task device message level s).global
  append-Ordered v =
      unfold call_step in
      (call_step-IsNumbered cfg s (append clock task device message level) v).global_ordered

  -- On logs whose numbers are in order, with room for at least one entry, a page that asks the global
  -- log for at least one entry, from the counter's value before a line of a task was written, for every
  -- tenant or that of the line, is answered with exactly that line.
  pub line_shown :
      (limit : ℕ) (tenant : Text)
      → IsNumbered cfg s
      → is_empty task ≡ false
      → 0 < cfg.global_max
      → 0 < limit
      → is_tenant (record { after_seq = s.global_seq; limit = limit; tenant = tenant }) entry ≡ true
      → (get_global_logs s.global_seq limit tenant
          (append_log cfg clock task device message level s)).0
        ≡ entry ∷ []
  unfolding get_global_logs
  line_shown limit tenant v e g l t =
      let (j, k, p) = append_ends e g in
      let o = append-Ordered v in
      scan_recent-newest (λ e. e.global_seq)
        (append_log cfg clock task device message level s).global_seq
        (record { after_seq = s.global_seq; limit = limit; tenant = tenant })
        (append_log cfg clock task device message level s).global o.0 o.1 l
      ∙ ap (keep_last limit) (
          rw p (
            only_entry (record { after_seq = s.global_seq; limit = limit; tenant = tenant })
              (drop j (drop k s.global))
              (drop-Ordered (λ e. e.global_seq) j s.global_seq (drop k s.global)
                (drop-Ordered (λ e. e.global_seq) k s.global_seq s.global v.global_ordered))
              refl t))
      ∙ keep_last-one limit entry l
