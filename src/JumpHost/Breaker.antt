-- ===== src/JumpHost/Breaker.antt =====
-- The circuit breaker of a jump host (app/tasks/backups.py): the outcomes of the backups that
-- went through it are kept in a Redis list, and a share of failures that is too high opens the
-- breaker for a time. `int((failures / total) * 100)` is floating point: it is a parameter, with
-- its rounding as a named hypothesis.
pub mod Window
pub mod Trip
pub mod Reset
mod Tests
use backup_center_ajust_cons.Base.{
  ℕ, ◌+◌, ◌-◌, ◌*◌, ◌≤◌, ◌≡◌, Bool, true, false, Option, none, some, List, [], ◌∷◌, leb, ltb,
  length, if◌then◌else◌,
}
use backup_center_ajust_cons.Text.{Text, is_empty, is_truthy}
use backup_center_ajust_cons.Redis.{Key, Entry, outcome, malformed, Redis, cb_open, cb_outcomes}
use backup_center_ajust_cons.Redis

-- The settings that `_env_int` reads when the module is loaded.
pub record Settings : Type 0 where
  pub window_seconds : ℕ
  pub threshold_percent : ℕ
  pub min_samples : ℕ
  pub open_seconds : ℕ

-- The text of the answer: empty, "ABERTO … {ttl}s", "ATIVADO … {pct}% ({failures}/{total})".
pub data Reason : Type 0 where
  no_reason : Reason
  still_open : Text → ℕ → Reason
  tripped : Text → ℕ → ℕ → ℕ → Reason

-- `(is_open, reason, retry_after_seconds)`
pub record Answer : Type 0 where
  pub is_open : Bool
  pub reason : Reason
  pub retry_after : ℕ

abbrev pub closed : Answer
closed = record { is_open = false; reason = no_reason; retry_after = 0 }

-- What the loop over the entries has gathered.
pub record Tally : Type 0 where
  pub valid_entries : List Entry
  pub successes : ℕ
  pub failures : ℕ

abbrev pub count_entry : ℕ → Bool → ℕ → Tally → Tally
count_entry cutoff_ms ok ts r =
    if leb cutoff_ms ts
    then (record {
      valid_entries = outcome ok ts ∷ r.valid_entries;
      successes = if ok then r.successes + 1 else r.successes;
      failures = if ok then r.failures else r.failures + 1;
    })
    else r

unfoldable pub scan_entries : ℕ → List Entry → Tally
scan_entries cutoff_ms [] = record { valid_entries = []; successes = 0; failures = 0 }
scan_entries cutoff_ms (malformed ∷ es) = scan_entries cutoff_ms es
scan_entries cutoff_ms (outcome ok ts ∷ es) =
    count_entry cutoff_ms ok ts (scan_entries cutoff_ms es)

module _ (redis : Redis) (percent : ℕ → ℕ → ℕ) (cfg : Settings) where
  open redis use {State, get, ttl, lrange, setex, delete, rpush, expire}

  -- Rewrites the list without the entries that are out of the window.
  unfoldable pub drop_expired : Key → List Entry → List Entry → State → State
  drop_expired outcomes_key entries [] s =
      if ltb 0 (length entries) then delete outcomes_key s else s
  drop_expired outcomes_key entries (e ∷ es) s =
      if ltb (length (e ∷ es)) (length entries)
      then expire outcomes_key (cfg.window_seconds + 60)
          (rpush outcomes_key (e ∷ es) (delete outcomes_key s))
      else s

  -- The decision on the counts.
  unfoldable pub decide_open : Text → ℕ → ℕ → State → Answer × State
  decide_open jump_label successes failures s =
      let total = successes + failures in
      let fail_pct = percent failures total in
      if ltb total cfg.min_samples
      then (closed, s)
      else if leb cfg.threshold_percent fail_pct
      then (
        record {
          is_open = true;
          reason = tripped jump_label fail_pct failures total;
          retry_after = cfg.open_seconds;
        },
        setex (cb_open jump_label) cfg.open_seconds (49 ∷ []) s,
      )
      else (closed, s)

  -- The part that reads the list; `now_ms` is the worker's monotonic clock. A cutoff below 0 and
  -- the cutoff 0 keep the same entries.
  unfoldable pub check_outcomes : Text → ℕ → List Entry → State → Answer × State
  unfolding scan_entries drop_expired decide_open
  check_outcomes jump_label now_ms [] s = (closed, s)
  check_outcomes jump_label now_ms (e ∷ es) s =
      let r = scan_entries (now_ms - cfg.window_seconds * 1000) (e ∷ es) in
      decide_open jump_label r.successes r.failures
        (drop_expired (cb_outcomes jump_label) (e ∷ es) r.valid_entries s)

  -- `_check_jump_host_circuit_breaker`
  unfoldable pub check : Bool → Text → ℕ → State → Answer × State
  unfolding check_outcomes
  check connected jump_label now_ms s =
      if is_empty jump_label
      then (closed, s)
      else if connected
      then (if is_truthy (get (cb_open jump_label) s)
          then (
            record {
              is_open = true;
              reason = still_open jump_label (ttl (cb_open jump_label) s);
              retry_after = ttl (cb_open jump_label) s;
            },
            s,
          )
          else check_outcomes jump_label now_ms (lrange (cb_outcomes jump_label) s) s)
      else (closed, s)

  -- `_record_jump_host_outcome`
  unfoldable pub record_outcome : Bool → Text → Bool → ℕ → State → State
  record_outcome connected jump_label success now_ms s =
      if is_empty jump_label
      then s
      else if connected
      then expire (cb_outcomes jump_label) (cfg.window_seconds + 60)
          (rpush (cb_outcomes jump_label) (outcome success now_ms ∷ []) s)
      else s

abbrev pub is_open_key : Key → Bool
is_open_key (cb_open l) = true
is_open_key k = false

abbrev pub is_outcomes_key : Key → Bool
is_outcomes_key (cb_outcomes l) = true
is_outcomes_key k = false

abbrev pub is_adaptive_key : Key → Bool
is_adaptive_key (Redis.adaptive_fail l) = true
is_adaptive_key (Redis.adaptive_success l) = true
is_adaptive_key (Redis.adaptive_cooldown l) = true
is_adaptive_key k = false

module _ (redis : Redis) where
  open redis use {State, delete, scan_iter}

  unfoldable pub delete_all : List Key → State → State
  delete_all [] s = s
  delete_all (k ∷ ks) s = delete_all ks (delete k s)

  -- `client.scan_iter(pattern)` and `client.delete(*keys)`, with the number of keys.
  unfoldable pub clear_matching : (Key → Bool) → State → ℕ × State
  unfolding delete_all
  clear_matching p s = let keys = scan_iter p s in (length keys, delete_all keys s)

  -- The counts that the function returns, and the state: `reset_circuit_breakers_for_new_batch`.
  unfoldable pub reset : Bool → State → Option (ℕ × ℕ × ℕ) × State
  unfolding clear_matching
  reset connected s =
      if connected
      then (let a = clear_matching is_open_key s in
          let b = clear_matching is_outcomes_key a.1 in
          let c = clear_matching is_adaptive_key b.1 in (some (a.0, b.0, c.0), c.1))
      else (none, s)
