-- ===== src/Logs/Write/Poll.antt =====
-- The logs over a history of calls: their numbers grow, they stay within their limits, and a line
-- that is written is what a page that polls is shown next.
use backup_center_ajust_cons.Base.{
  ℕ, suc, ◌-◌, ◌≤◌, ◌≡◌, ◌⊎◌, inl, inr, Bool, List, [], ◌∷◌, ◌++◌, arith, filter, length-filter-le,
  length, get_or, Bool-cases, Option-cases, ltb,
}
use backup_center_ajust_cons.Base.Slice.{drop, length-keep_last}
use backup_center_ajust_cons.Text.{Text, text_eq, is_empty}
use backup_center_ajust_cons.Text.Dict.{lookup, lookup-insert_self, lookup-insert_ne}
use backup_center_ajust_cons.Text.Laws.{text_eq_iff}
use backup_center_ajust_cons.Logs.{Entry, Raw, object, State}
use backup_center_ajust_cons.Logs.Prune.{
  prune_head, maybe_prune, sift, prune_all, sift_tenant, clear_tenant,
}
use backup_center_ajust_cons.Logs.Prune.Agree.{
  prune_head-drop, is_fresh, sift-filter, is_kept, sift_tenant-filter,
}
use backup_center_ajust_cons.Logs.Write.{
  Settings, Clock, entry_of, push_entry, trim_global, append_log,
}
use backup_center_ajust_cons.Logs.Write.Order.{
  Ordered, keep_last-Ordered, drop-Ordered, filter-Ordered, snoc-Ordered,
}

-- The calls that change the logs.
pub data Call : Type 0 where
  append : Clock → (task device message level : Text) → Call
  prune : (dry_run : Bool) → (cutoff : ℕ) → Call
  clear : Text → Call

unfoldable pub call_step : Settings → State → Call → State
unfolding append_log prune_all clear_tenant
call_step cfg s (append clock task device message level) =
    append_log cfg clock task device message level s
call_step cfg s (prune dry_run cutoff) = record s { global = (prune_all dry_run cutoff s.global).1 }
call_step cfg s (clear tenant) = record s { global = (clear_tenant tenant s.global).1 }

unfoldable pub run : Settings → State → List Call → State
unfolding call_step
run cfg s [] = s
run cfg s (c ∷ cs) = run cfg (call_step cfg s c) cs

abbrev pub task_log : Text → State → List Raw
task_log task s = get_or (lookup task s.tasks) []

abbrev pub task_seq : Text → State → ℕ
task_seq task s = get_or (lookup task s.task_seqs) 0

-- The numbers of the global log and of each task's log grow up to the counter, and both are within
-- their limits.
pub record IsNumbered (cfg : Settings) (s : State) : Type 0 where
  pub global_ordered : Ordered (λ e. e.global_seq) s.global_seq s.global
  pub global_bounded : length s.global ≤ cfg.global_max
  pub task_ordered : (task : Text) → Ordered (λ e. e.seq) (task_seq task s) (task_log task s)
  pub task_bounded : (task : Text) → length (task_log task s) ≤ cfg.task_max

abbrev GlobalOrdered : State → Type 0
GlobalOrdered s = Ordered (λ e. e.global_seq) s.global_seq s.global

maybe_prune_drops :
    (interval mono cutoff : ℕ) (s : State)
    → (m : ℕ) × ((maybe_prune interval mono cutoff s).global ≡ drop m s.global)
      × ((maybe_prune interval mono cutoff s).global_seq ≡ s.global_seq)
      × ((maybe_prune interval mono cutoff s).tasks ≡ s.tasks)
      × ((maybe_prune interval mono cutoff s).task_seqs ≡ s.task_seqs)
unfolding maybe_prune
maybe_prune_drops interval mono cutoff s = elim (Bool-cases (ltb mono s.prune_until)) [
  | inl e ↦ (0, ground (arith, e), ground (arith, e), ground (arith, e), ground (arith, e))
  | inr e ↦ (
    (prune_head cutoff s.global).removed,
    ground (arith, e, prune_head-drop cutoff s.global),
    ground (arith, e),
    ground (arith, e),
    ground (arith, e),
  )
]

-- A log that stays, or keeps the entries that pass a test.
abbrev Filtered : (Raw → Bool) → List Raw → List Raw → Type 0
Filtered p log log' = (log' ≡ log) ⊎ (log' ≡ filter p log)

prune_all-Filtered :
    (dry_run : Bool) (cutoff : ℕ) (log : List Raw)
    → Filtered (is_fresh cutoff) log (prune_all dry_run cutoff log).1
unfolding prune_all
prune_all-Filtered dry_run cutoff log = elim (Option-cases (sift cutoff log)) [
  | inl e ↦ inl (ground (arith, e))
  | inr (p, e) ↦ elim (Bool-cases dry_run) [
    | inl d ↦ inl (ground (arith, e, d))
    | inr d ↦ inr (ground (arith, e, d, sift-filter cutoff p.0 log p.1 e))
  ]
]

clear_tenant-Filtered :
    (tenant : Text) (log : List Raw) → Filtered (is_kept tenant) log (clear_tenant tenant log).1
unfolding clear_tenant
clear_tenant-Filtered tenant log = elim (Bool-cases (is_empty tenant)) [
  | inl b ↦ inl (ground (arith, b))
  | inr b ↦ elim (Option-cases (sift_tenant tenant log)) [
    | inl e ↦ inl (ground (arith, b, e))
    | inr (p, e) ↦ inr (ground (arith, b, e, sift_tenant-filter tenant p.0 log p.1 e))
  ]
]

Filtered-IsNumbered :
    (cfg : Settings) (s : State) (p : Raw → Bool) (log : List Raw)
    → Filtered p s.global log
    → IsNumbered cfg s
    → IsNumbered cfg (record s { global = log })
Filtered-IsNumbered cfg s p log (inl e) v = record {
  global_ordered = rw e v.global_ordered;
  global_bounded = rw e v.global_bounded;
  task_ordered = v.task_ordered;
  task_bounded = v.task_bounded;
}
Filtered-IsNumbered cfg s p log (inr e) v = record {
  global_ordered =
      rw e (filter-Ordered (λ e. e.global_seq) p s.global_seq s.global v.global_ordered);
  global_bounded = rw e (omega (arith, length-filter-le p s.global, v.global_bounded));
  task_ordered = v.task_ordered;
  task_bounded = v.task_bounded;
}

push_entry-tasks :
    (cfg : Settings) (e : Entry) (s : State) (t : Text)
    → e.seq ≡ suc (task_seq e.task_id s)
    → Ordered (λ e. e.seq) (task_seq t s) (task_log t s)
    → Ordered (λ e. e.seq) (task_seq t (push_entry cfg e s)) (task_log t (push_entry cfg e s))
unfolding push_entry
push_entry-tasks cfg e s t h o = elim (Bool-cases (text_eq t e.task_id)) [
  | inl q ↦
      rw
        (
          (text_eq_iff t e.task_id).0 q,
          lookup-insert_self e.task_id _ s.tasks,
          lookup-insert_self e.task_id e.seq s.task_seqs,
        )
        (keep_last-Ordered (λ e. e.seq) cfg.task_max e.seq (task_log e.task_id s ++ object e ∷ [])
          (snoc-Ordered (λ e. e.seq) (task_seq e.task_id s) (task_log e.task_id s) e h
            (rw ((text_eq_iff t e.task_id).0 q) at o)))
  | inr q ↦
      rw
        (lookup-insert_ne t e.task_id _ s.tasks q, lookup-insert_ne t e.task_id e.seq s.task_seqs q)
        o
]

push_entry-bounded :
    (cfg : Settings) (e : Entry) (s : State) (t : Text)
    → length (task_log t s) ≤ cfg.task_max
    → length (task_log t (push_entry cfg e s)) ≤ cfg.task_max
unfolding push_entry
push_entry-bounded cfg e s t h = elim (Bool-cases (text_eq t e.task_id)) [
  | inl q ↦
      rw ((text_eq_iff t e.task_id).0 q, lookup-insert_self e.task_id _ s.tasks)
        (omega (
          arith,
          length-keep_last cfg.task_max (get_or (lookup e.task_id s.tasks) [] ++ object e ∷ []),
        ))
  | inr q ↦ rw (lookup-insert_ne t e.task_id _ s.tasks q) h
]

push_entry-global :
    (cfg : Settings) (clock : Clock) (task device message level : Text) (s : State)
    → GlobalOrdered s
    → GlobalOrdered (push_entry cfg (entry_of clock task device message level s) s)
unfolding push_entry
push_entry-global cfg clock task device message level s o =
    snoc-Ordered (λ e. e.global_seq) s.global_seq s.global
      (entry_of clock task device message level s) (unfold entry_of in omega arith) o

entry_seq :
    (clock : Clock) (task device message level : Text) (s : State)
    → (entry_of clock task device message level s).seq ≡ suc (task_seq task s)
unfolding entry_of
entry_seq clock task device message level s = omega arith

-- The end of a call, from the pruning on, keeps the order and brings the log within its limit.
finish-IsNumbered :
    (cfg : Settings) (mono cutoff : ℕ) (s : State)
    → GlobalOrdered s
    → ((t : Text) → Ordered (λ e. e.seq) (task_seq t s) (task_log t s))
    → ((t : Text) → length (task_log t s) ≤ cfg.task_max)
    → IsNumbered cfg (trim_global cfg (maybe_prune cfg.prune_interval mono cutoff s))
unfolding trim_global
finish-IsNumbered cfg mono cutoff s o ts bs =
    let (m, g, n, t, q) = maybe_prune_drops cfg.prune_interval mono cutoff s in
    record {
      global_ordered =
          rw (g, n)
            (keep_last-Ordered (λ e. e.global_seq) cfg.global_max s.global_seq (drop m s.global)
              (drop-Ordered (λ e. e.global_seq) m s.global_seq s.global o));
      global_bounded = omega (
        arith,
        length-keep_last cfg.global_max (maybe_prune cfg.prune_interval mono cutoff s).global,
      );
      task_ordered = λ k. rw (t, q) (ts k);
      task_bounded = λ k. rw t (bs k);
    }

pub call_step-IsNumbered :
    (cfg : Settings) (s : State) (c : Call) → IsNumbered cfg s → IsNumbered cfg (call_step cfg s c)
unfolding call_step append_log
call_step-IsNumbered cfg s (append clock task device message level) v =
    elim (Bool-cases (is_empty task)) [
      | inl e ↦ rw e v
      | inr e ↦ rw e (
          finish-IsNumbered cfg clock.mono (clock.now - cfg.retention)
            (push_entry cfg (entry_of clock task device message level s) s)
            (push_entry-global cfg clock task device message level s v.global_ordered)
            (λ t.
              push_entry-tasks cfg (entry_of clock task device message level s) s t
                (entry_seq clock task device message level s) (v.task_ordered t))
            (λ t.
              push_entry-bounded cfg (entry_of clock task device message level s) s t
                (v.task_bounded t)))
    ]
call_step-IsNumbered cfg s (prune dry_run cutoff) v =
    Filtered-IsNumbered cfg s (is_fresh cutoff) _ (prune_all-Filtered dry_run cutoff s.global) v
call_step-IsNumbered cfg s (clear tenant) v =
    Filtered-IsNumbered cfg s (is_kept tenant) _ (clear_tenant-Filtered tenant s.global) v

-- Whatever is written, pruned and cleared, the numbers in the global log and in the log of each task
-- grow up to their counters, and the logs hold no more entries than their limits.
pub run-IsNumbered :
    (cfg : Settings) (s : State) (cs : List Call) → IsNumbered cfg s → IsNumbered cfg (run cfg s cs)
unfolding run
run-IsNumbered cfg s [] v = v
run-IsNumbered cfg s (c ∷ cs) v =
    run-IsNumbered cfg (call_step cfg s c) cs (call_step-IsNumbered cfg s c v)
