-- ===== src/JumpHost/Breaker/Reset.antt =====
-- What `reset_circuit_breakers_for_new_batch` clears, and what it leaves.
use backup_center_ajust_cons.Base.{
  ℕ, ◌+◌, ◌-◌, ◌*◌, ◌<◌, ◌≡◌, ◌≢◌, refl, ap, ◌∙◌, inl, inr, Bool, true, false, none, List, [], ◌∷◌,
  ◌++◌, length, arith, length-append, length-filter-le, Bool-cases,
}
use backup_center_ajust_cons.Text.{Text, is_truthy}
use backup_center_ajust_cons.Redis.{Key, outcome, Redis, In, cb_open, cb_outcomes}
use backup_center_ajust_cons.JumpHost.Breaker.{
  Settings, check, record_outcome, delete_all, clear_matching, reset, is_open_key, is_outcomes_key,
  is_adaptive_key,
}
use backup_center_ajust_cons.JumpHost.Breaker.Window.{is_recent}
use backup_center_ajust_cons.JumpHost.Breaker.Trip.{IsPercent, check-Decides}

module _ (redis : Redis) where
  open redis use {State, get, lrange, hget, delete, scan_iter}

  get-delete_all-none :
      (k : Key) (ks : List Key) (s : State) → get k s ≡ none → get k (delete_all redis ks s) ≡ none
  unfolding delete_all
  get-delete_all-none k [] s e = e
  get-delete_all-none k (j ∷ ks) s e =
      get-delete_all-none k ks (delete j s) (redis.get-delete_none k j s e)

  get-delete_all :
      (k : Key) (ks : List Key) (s : State) → In k ks → get k (delete_all redis ks s) ≡ none
  unfolding delete_all
  get-delete_all k [] s i = absurd i
  get-delete_all k (j ∷ ks) s (inl e) =
      get-delete_all-none k ks (delete j s) (rw e (redis.get-delete j s))
  get-delete_all k (j ∷ ks) s (inr i) = get-delete_all k ks (delete j s) i

  lrange-delete_all_nil :
      (k : Key) (ks : List Key) (s : State)
      → lrange k s ≡ []
      → lrange k (delete_all redis ks s) ≡ []
  unfolding delete_all
  lrange-delete_all_nil k [] s e = e
  lrange-delete_all_nil k (j ∷ ks) s e =
      lrange-delete_all_nil k ks (delete j s) (redis.lrange-delete_nil k j s e)

  lrange-delete_all :
      (k : Key) (ks : List Key) (s : State) → In k ks → lrange k (delete_all redis ks s) ≡ []
  unfolding delete_all
  lrange-delete_all k [] s i = absurd i
  lrange-delete_all k (j ∷ ks) s (inl e) =
      lrange-delete_all_nil k ks (delete j s) (rw e (redis.lrange-delete j s))
  lrange-delete_all k (j ∷ ks) s (inr i) = lrange-delete_all k ks (delete j s) i

  hget-delete_all :
      (l : Text) (ks : List Key) (s : State) → hget l (delete_all redis ks s) ≡ hget l s
  unfolding delete_all
  hget-delete_all l [] s = refl
  hget-delete_all l (k ∷ ks) s = hget-delete_all l ks (delete k s) ∙ redis.hget-delete l k s

  -- A key that the pattern matches is gone.
  clear_matching-gone :
      (p : Key → Bool) (k : Key) (s : State)
      → p k ≡ true
      → (get k (clear_matching redis p s).1 ≡ none) × (lrange k (clear_matching redis p s).1 ≡ [])
  unfolding clear_matching
  clear_matching-gone p k s h = elim (redis.scan_complete p k s h) [
    | inl i ↦ (get-delete_all k (scan_iter p s) s i, lrange-delete_all k (scan_iter p s) s i)
    | inr (g, l, c) ↦
        (get-delete_all-none k (scan_iter p s) s g, lrange-delete_all_nil k (scan_iter p s) s l)
  ]

  clear_matching_keeps :
      (p : Key → Bool) (k : Key) (s : State)
      → (get k s ≡ none → get k (clear_matching redis p s).1 ≡ none)
        × (lrange k s ≡ [] → lrange k (clear_matching redis p s).1 ≡ [])
  unfolding clear_matching
  clear_matching_keeps p k s =
      (get-delete_all-none k (scan_iter p s) s, lrange-delete_all_nil k (scan_iter p s) s)

  clear_matching-hget :
      (p : Key → Bool) (l : Text) (s : State) → hget l (clear_matching redis p s).1 ≡ hget l s
  unfolding clear_matching
  clear_matching-hget p l s = hget-delete_all l (scan_iter p s) s

  -- After a reset no label has a mark or an outcome.
  reset_clears :
      (l : Text) (s : State)
      → (get (cb_open l) (reset redis true s).1 ≡ none)
        × (lrange (cb_outcomes l) (reset redis true s).1 ≡ [])
  unfolding reset
  reset_clears l s =
      let a = (clear_matching redis is_open_key s).1 in
      let b = (clear_matching redis is_outcomes_key a).1 in
      (
        (clear_matching_keeps is_adaptive_key (cb_open l) b).0 (
            (clear_matching_keeps is_outcomes_key (cb_open l) a).0
              (clear_matching-gone is_open_key (cb_open l) s refl).0),
        (clear_matching_keeps is_adaptive_key (cb_outcomes l) b).1
            (clear_matching-gone is_outcomes_key (cb_outcomes l) a refl).1,
      )

  -- A reset leaves every field of the hash of adaptive slots as it was, although its documentation
  -- says that it clears the reductions of slots.
  pub reset_keeps_slots :
      (connected : Bool) (l : Text) (s : State) → hget l (reset redis connected s).1 ≡ hget l s
  unfolding reset
  reset_keeps_slots false l s = refl
  reset_keeps_slots true l s =
      let a = (clear_matching redis is_open_key s).1 in
      let b = (clear_matching redis is_outcomes_key a).1 in
      clear_matching-hget is_adaptive_key l b
      ∙ clear_matching-hget is_outcomes_key l a
      ∙ clear_matching-hget is_open_key l s

-- The outcomes that workers report, one after another, each with its clock.
abbrev pub record_all :
    (redis : Redis) (percent : ℕ → ℕ → ℕ) (cfg : Settings)
    → Text
    → List (Bool × ℕ)
    → redis.State
    → redis.State
record_all redis percent cfg l [] s = s
record_all redis percent cfg l ((ok, ms) ∷ os) s =
    record_all redis percent cfg l os (record_outcome redis percent cfg true l ok ms s)

module _ (redis : Redis) (percent : ℕ → ℕ → ℕ) (cfg : Settings) where
  open redis use {State, get, lrange, rpush}

  record_outcome_lem :
      (l : Text) (ok : Bool) (ms : ℕ) (s : State)
      → l ≢ []
      → (get (cb_open l) (record_outcome redis percent cfg true l ok ms s) ≡ get (cb_open l) s)
        × (lrange (cb_outcomes l) (record_outcome redis percent cfg true l ok ms s)
            ≡ lrange (cb_outcomes l) s ++ outcome ok ms ∷ [])
  unfolding record_outcome
  record_outcome_lem [] ok ms s ne = absurd (ne refl)
  record_outcome_lem (c ∷ l) ok ms s ne =
      let key = cb_outcomes (c ∷ l) in
      let pushed = rpush key (outcome ok ms ∷ []) s in
      let ttl = cfg.window_seconds + 60 in
      (
        redis.get-expire (cb_open (c ∷ l)) key ttl pushed (omega arith)
            ∙ redis.get-rpush (cb_open (c ∷ l)) key (outcome ok ms ∷ []) s (λ e. cc),
        redis.lrange-expire key key ttl pushed (omega arith)
            ∙ redis.lrange-rpush key (outcome ok ms ∷ []) s,
      )

  record_all_lem :
      (l : Text) (os : List (Bool × ℕ)) (s : State)
      → l ≢ []
      → (get (cb_open l) (record_all redis percent cfg l os s) ≡ get (cb_open l) s)
        × (length (lrange (cb_outcomes l) (record_all redis percent cfg l os s))
            ≡ length (lrange (cb_outcomes l) s) + length os)
  record_all_lem l [] s ne = (refl, omega arith)
  record_all_lem l ((ok, ms) ∷ os) s ne =
      let s' = record_outcome redis percent cfg true l ok ms s in
      let (same, longer) = record_all_lem l os s' ne in
      let (g, r) = record_outcome_lem l ok ms s ne in
      (
        same ∙ g,
        omega (
          arith,
          longer,
          ap length r,
          length-append (lrange (cb_outcomes l) s) (outcome ok ms ∷ []),
        ),
      )

  -- After a reset on a connected client, with a percentage rounded as `IsPercent` says, the
  -- breaker of a label that is not empty stays closed as long as fewer outcomes of the new batch
  -- than `min_samples`, which is positive, have been recorded, whatever they are.
  pub reset_needs_samples :
      (l : Text) (os : List (Bool × ℕ)) (now_ms : ℕ) (s : State)
      → IsPercent percent
      → 0 < cfg.min_samples
      → l ≢ []
      → length os < cfg.min_samples
      → (check redis percent cfg true l now_ms
          (record_all redis percent cfg l os (reset redis true s).1)).0.is_open
        ≡ false
  reset_needs_samples l os now_ms s p m ne few =
      let s' = record_all redis percent cfg l os (reset redis true s).1 in
      let (no_mark, no_outcome) = reset_clears redis l s in
      let (same, long) = record_all_lem l os (reset redis true s).1 ne in
      let cutoff_ms = now_ms - cfg.window_seconds * 1000 in
      let decided =
        check-Decides redis percent cfg l now_ms s' p m ne (ap is_truthy (same ∙ no_mark)) in
      elim (Bool-cases (check redis percent cfg true l now_ms s').0.is_open) [
        | inr e ↦ e
        | inl e ↦ absurd (
            omega (
              arith,
              (decided.0 e).0,
              long,
              ap length no_outcome,
              length-filter-le (is_recent cutoff_ms) (lrange (cb_outcomes l) s'),
            ))
      ]
