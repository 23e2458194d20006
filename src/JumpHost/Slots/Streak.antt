-- ===== src/JumpHost/Slots/Streak.antt =====
-- Runs of outcomes, and the limit of their jump host (`_adapt_jump_host_slots`).
use backup_center_ajust_cons.Base.{
  ℕ, ◌+◌, ◌≤◌, ◌<◌, ◌≡◌, ◌≢◌, refl, ◌∙◌, Bool, true, false, ◌&&◌, ◌||◌, some, List, [], ◌∷◌, arith,
  leb, ltb, length,
}
use backup_center_ajust_cons.Text.{Text, strip}
use backup_center_ajust_cons.Text.Dict.{Dict}
use backup_center_ajust_cons.Redis.{Key, Redis, adaptive_fail, adaptive_success}
use backup_center_ajust_cons.JumpHost.Slots.{
  Settings, LockInfo, effective_slots, adapt_success, adapt_failure, adapt_outcome, adapt, base_of,
  indicates_severe,
}
use backup_center_ajust_cons.JumpHost.Slots.Adapt.{hget-counted}
use backup_center_ajust_cons.JumpHost.Slots.Bounds.{effective_slots_same}

-- The backups of one jump host, one after another: whether each went through, and its text.
abbrev pub adapt_all :
    (redis : Redis) → Settings → Dict ℕ → LockInfo → List (Bool × Text) → redis.State → redis.State
adapt_all redis cfg overrides info [] s = s
adapt_all redis cfg overrides info ((success, message) ∷ os) s =
    adapt_all redis cfg overrides info os
      (adapt redis cfg true overrides (some info) success message s).1

module _ (redis : Redis) (cfg : Settings) where
  open redis use {State, get, counter, hget, setex, delete, expire, incr, hset}

  -- Both streaks are short of their thresholds by more than `n`.
  pub record IsShort (label : Text) (n : ℕ) (s : State) : Type 0 where
    pub few_successes : counter (adaptive_success label) s + n < cfg.success_streak
    pub few_failures : counter (adaptive_fail label) s + n < cfg.fail_streak
    pub few_severe : counter (adaptive_fail label) s + n < cfg.severe_fail_streak

  counter-counted :
      (j k : Key) (t : ℕ) (s : State)
      → k ≢ j
      → 0 < t
      → (counter k (delete j (expire k t (incr k s))) ≡ counter k s + 1)
        × (counter j (delete j (expire k t (incr k s))) ≡ 0)
  counter-counted j k t s ne pos =
      let up = incr k s in
      (
        redis.counter-delete_ne k j (expire k t up) ne
            ∙ redis.counter-expire k k t up pos
            ∙ redis.counter-incr k s,
        redis.counter-delete j (expire k t up),
      )

  -- The step of one outcome while the streaks are short.
  abbrev Quiet : Text → State → State → Type 0
  Quiet label s s' =
      (hget label s' ≡ hget label s)
      × (counter (adaptive_success label) s' ≤ counter (adaptive_success label) s + 1)
      × (counter (adaptive_fail label) s' ≤ counter (adaptive_fail label) s + 1)

  adapt_success-Quiet :
      (label : Text) (n base current : ℕ) (s : State)
      → IsShort label (n + 1) s
      → 0 < cfg.streak_ttl_seconds
      → Quiet label s (adapt_success redis cfg label base current s).1
  unfolding adapt_success
  adapt_success-Quiet label n base current s h t =
      let j = adaptive_fail label in
      let k = adaptive_success label in
      let (up, zeroed) = counter-counted j k cfg.streak_ttl_seconds s (λ q. cc) t in
      let small : leb cfg.success_streak (counter k (incr k s)) ≡ false =
        ground (arith, h.few_successes, redis.counter-incr k s) in
      rw small (
        hget-counted redis cfg label j k cfg.streak_ttl_seconds s,
        omega (arith, up),
        omega (arith, zeroed),
      )

  adapt_failure-Quiet :
      (severe : Bool) (label : Text) (n current : ℕ) (s : State)
      → IsShort label (n + 1) s
      → 0 < cfg.streak_ttl_seconds
      → Quiet label s (adapt_failure redis cfg severe label current s).1
  unfolding adapt_failure
  adapt_failure-Quiet severe label n current s h t =
      let j = adaptive_success label in
      let k = adaptive_fail label in
      let (up, zeroed) = counter-counted j k cfg.streak_ttl_seconds s (λ q. cc) t in
      let streak = counter k (incr k s) in
      let quiet : (ltb 1 current
            && (leb cfg.fail_streak streak || (severe && leb cfg.severe_fail_streak streak)))
          ≡ false =
        ground (arith, h.few_failures, h.few_severe, redis.counter-incr k s) in
      rw quiet (
        hget-counted redis cfg label j k cfg.streak_ttl_seconds s,
        omega (arith, zeroed),
        omega (arith, up),
      )

  adapt_outcome-Quiet :
      (success : Bool) (message label : Text) (n base current : ℕ) (s : State)
      → IsShort label (n + 1) s
      → 0 < cfg.streak_ttl_seconds
      → Quiet label s (adapt_outcome redis cfg success message label base current s).1
  unfolding adapt_outcome
  adapt_outcome-Quiet success message label n base current s h t = ground (
    arith,
    adapt_success-Quiet label n base current s h t,
    adapt_failure-Quiet (indicates_severe message) label n current s h t,
  )

  adapt-Quiet :
      (overrides : Dict ℕ) (info : LockInfo) (success : Bool) (message : Text) (n : ℕ) (s : State)
      → IsShort (strip info.label) (n + 1) s
      → 0 < cfg.streak_ttl_seconds
      → Quiet (strip info.label) s (adapt redis cfg true overrides (some info) success message s).1
  unfolding adapt
  adapt-Quiet overrides info success message n s h t = ground (
    arith,
    adapt_outcome-Quiet success message (strip info.label) n (base_of redis cfg info)
        (effective_slots redis cfg true overrides (strip info.label) (base_of redis cfg info) s) s h
        t,
  )

  hget-adapt_all :
      (overrides : Dict ℕ) (info : LockInfo) (os : List (Bool × Text)) (s : State)
      → IsShort (strip info.label) (length os) s
      → 0 < cfg.streak_ttl_seconds
      → hget (strip info.label) (adapt_all redis cfg overrides info os s)
        ≡ hget (strip info.label) s
  hget-adapt_all overrides info [] s h t = refl
  hget-adapt_all overrides info ((success, message) ∷ os) s h t =
      let s' = (adapt redis cfg true overrides (some info) success message s).1 in
      let short : IsShort (strip info.label) (length os + 1) s = record {
        few_successes = omega (arith, h.few_successes);
        few_failures = omega (arith, h.few_failures);
        few_severe = omega (arith, h.few_severe);
      } in
      let (same, ups, downs) = adapt-Quiet overrides info success message (length os) s short t in
      let rest : IsShort (strip info.label) (length os) s' = record {
        few_successes = omega (arith, ups, h.few_successes);
        few_failures = omega (arith, downs, h.few_failures);
        few_severe = omega (arith, downs, h.few_severe);
      } in
      hget-adapt_all overrides info os s' rest t ∙ same

  -- On a connected client, the limit of a jump host does not move while fewer outcomes have been
  -- seen than any of the three thresholds asks for, counted from the streaks that Redis holds at
  -- the start, if the streaks live for at least a second.
  pub adapt_all_unchanged :
      (overrides : Dict ℕ) (info : LockInfo) (os : List (Bool × Text)) (s : State)
      → IsShort (strip info.label) (length os) s
      → 0 < cfg.streak_ttl_seconds
      → effective_slots redis cfg true overrides
          (strip info.label)
          (base_of redis cfg info)
          (adapt_all redis cfg overrides info os s)
        ≡ effective_slots redis cfg true overrides (strip info.label) (base_of redis cfg info) s
  adapt_all_unchanged overrides info os s h t =
      effective_slots_same redis cfg true overrides (strip info.label) (base_of redis cfg info)
        (adapt_all redis cfg overrides info os s) s (hget-adapt_all overrides info os s h t)
