-- ===== src/Task/Run/Feed.antt =====
-- What a run tells the circuit breaker of its jump host.
use backup_center_ajust_cons.Base.{
  ℕ, ◌+◌, ◌<◌, ◌≡◌, ◌≢◌, refl, ap, sym, ◌∙◌, Bool, true, false, ◌||◌, ◌&&◌, List, [], ◌∷◌, ◌++◌,
  Option, none, some, arith, Bool-cases, inl, inr, leb, ltb,
}
use backup_center_ajust_cons.Text.{Text, codes, text_eq, mem_text, strip, is_empty}
use backup_center_ajust_cons.Text.Dict.{Dict}
use backup_center_ajust_cons.Redis.{
  Key, Entry, outcome, Redis, cb_outcomes, adaptive_fail, adaptive_success, adaptive_cooldown,
}
use backup_center_ajust_cons.JumpHost.Breaker.{record_outcome}
use backup_center_ajust_cons.JumpHost.Slots
use backup_center_ajust_cons.JumpHost.Slots.{
  LockInfo, adapt, adapt_outcome, adapt_success, adapt_failure, effective_slots, base_of,
  indicates_severe, indicates_saturation,
}
use backup_center_ajust_cons.Diagnostics.Classify.{
  Category, circuit_breaker, banner_timeout, jump_session_closed, timeout, connection, port_refused,
  no_ping, auth, vpn, script, unknown, category_text, classify_failure,
}
use backup_center_ajust_cons.Task.Outcome.{
  Execution, returned, raised, Input, World, Settings, returned_text, feed_breaker, finish,
}
use backup_center_ajust_cons.Task.Run.{run_returned, run_raised, run_executed}

module _ (redis : Redis) (cfg : Slots.Settings) where
  open redis use {State, get, counter, hget, lrange, setex, delete, expire, incr, hset}

  lrange-counted :
      (l : Text) (j k : Key) (t : ℕ) (s : State)
      → cb_outcomes l ≢ j
      → cb_outcomes l ≢ k
      → 0 < t
      → lrange (cb_outcomes l) (delete j (expire k t (incr k s))) ≡ lrange (cb_outcomes l) s
  lrange-counted l j k t s nj nk pos =
      redis.lrange-delete_ne (cb_outcomes l) j (expire k t (incr k s)) nj
      ∙ redis.lrange-expire (cb_outcomes l) k t (incr k s) pos
      ∙ redis.lrange-incr (cb_outcomes l) k s nk

  lrange-stored :
      (l label : Text) (n t : ℕ) (k : Key) (s : State)
      → cb_outcomes l ≢ k
      → lrange
          (cb_outcomes l)
          (delete k (setex (adaptive_cooldown label) t (codes "1") (hset label n s)))
        ≡ lrange (cb_outcomes l) s
  lrange-stored l label n t k s nk =
      redis.lrange-delete_ne (cb_outcomes l) k
        (setex (adaptive_cooldown label) t (codes "1") (hset label n s)) nk
      ∙ redis.lrange-setex (cb_outcomes l) (adaptive_cooldown label) t (codes "1") (hset label n s)
          (λ q. cc)
      ∙ redis.lrange-hset (cb_outcomes l) label n s

  lrange-adapt_success :
      (l label : Text) (base current : ℕ) (s : State)
      → 0 < cfg.streak_ttl_seconds
      → lrange (cb_outcomes l) (adapt_success redis cfg label base current s).1
        ≡ lrange (cb_outcomes l) s
  unfolding adapt_success
  lrange-adapt_success l label base current s h =
      let up = adaptive_success label in
      let down = adaptive_fail label in
      let t = cfg.streak_ttl_seconds in
      let counted = delete down (expire up t (incr up s)) in
      let same = lrange-counted l down up t s (λ q. cc) (λ q. cc) h in
      let limit = Slots.allowed_max redis cfg base in
      elim (Bool-cases (leb cfg.success_streak (counter up (incr up s)) && ltb current limit)) [
        | inl e ↦ rw e (lrange-stored l label _ cfg.cooldown_seconds up counted (λ q. cc) ∙ same)
        | inr e ↦ rw e same
      ]

  lrange-adapt_failure :
      (severe : Bool) (l label : Text) (current : ℕ) (s : State)
      → 0 < cfg.streak_ttl_seconds
      → lrange (cb_outcomes l) (adapt_failure redis cfg severe label current s).1
        ≡ lrange (cb_outcomes l) s
  unfolding adapt_failure
  lrange-adapt_failure severe l label current s h =
      let up = adaptive_fail label in
      let down = adaptive_success label in
      let t = cfg.streak_ttl_seconds in
      let counted = delete down (expire up t (incr up s)) in
      let same = lrange-counted l down up t s (λ q. cc) (λ q. cc) h in
      let streak = counter up (incr up s) in
      let deep = severe && leb cfg.severe_fail_streak streak in
      elim (Bool-cases (ltb 1 current && (leb cfg.fail_streak streak || deep))) [
        | inl e ↦ rw e (lrange-stored l label _ _ up counted (λ q. cc) ∙ same)
        | inr e ↦ rw e same
      ]

  lrange-adapt_outcome :
      (ok : Bool) (message l label : Text) (base current : ℕ) (s : State)
      → 0 < cfg.streak_ttl_seconds
      → lrange (cb_outcomes l) (adapt_outcome redis cfg ok message label base current s).1
        ≡ lrange (cb_outcomes l) s
  unfolding adapt_outcome
  lrange-adapt_outcome ok message l label base current s h = ground (
    arith,
    lrange-adapt_success l label base current s h,
    lrange-adapt_failure (indicates_severe message) l label current s h,
  )

  -- The adaptation of the slots leaves the outcomes that the breaker counts alone.
  pub lrange-adapt :
      (connected : Bool) (overrides : Dict ℕ) (lock : Option LockInfo) (ok : Bool)
      (message l : Text) (s : State)
      → 0 < cfg.streak_ttl_seconds
      → lrange (cb_outcomes l) (adapt redis cfg connected overrides lock ok message s).1
        ≡ lrange (cb_outcomes l) s
  unfolding adapt
  lrange-adapt connected overrides none ok message l s h = refl
  lrange-adapt connected overrides (some i) ok message l s h = ground (
    arith,
    lrange-adapt_outcome ok message l (strip i.label) (base_of redis cfg i)
        (effective_slots redis cfg true overrides (strip i.label) (base_of redis cfg i) s) s h,
  )

-- What the breaker is told of a failure of a category: an overloaded banner counts as a success, the
-- failures of the way to the device count as failures, and the others do not count.
abbrev pub told_of : Category → ℕ → List Entry
told_of banner_timeout ms = outcome true ms ∷ []
told_of timeout ms = outcome false ms ∷ []
told_of connection ms = outcome false ms ∷ []
told_of jump_session_closed ms = outcome false ms ∷ []
told_of port_refused ms = outcome false ms ∷ []
told_of no_ping ms = outcome false ms ∷ []
told_of c ms = []

-- What the breaker is told of what the executor did.
abbrev pub told : Execution → ℕ → List Entry
told (returned true text) ms = outcome true ms ∷ []
told (returned false text) ms = told_of (classify_failure (returned_text false (strip text))) ms
told (raised txt name) ms = []

append_nil {ℓ} : {A : Type ℓ} (xs : List A) → xs ++ [] ≡ xs
append_nil [] = refl
append_nil (x ∷ xs) = ap (λ ys. x ∷ ys) (append_nil xs)

module _ (redis : Redis) (percent : ℕ → ℕ → ℕ) (cfg : Settings) where
  open redis use {State, lrange}

  lrange-record_outcome :
      (l : Text) (ok : Bool) (ms : ℕ) (s : State)
      → cfg.connected ≡ true
      → is_empty l ≡ false
      → lrange (cb_outcomes l) (record_outcome redis percent cfg.breaker cfg.connected l ok ms s)
        ≡ lrange (cb_outcomes l) s ++ outcome ok ms ∷ []
  unfolding record_outcome
  lrange-record_outcome l ok ms s c ne =
      rw (c, ne)
        (redis.lrange-expire (cb_outcomes l) (cb_outcomes l) (cfg.breaker.window_seconds + 60)
            (redis.rpush (cb_outcomes l) (outcome ok ms ∷ []) s) (omega arith)
          ∙ redis.lrange-rpush (cb_outcomes l) (outcome ok ms ∷ []) s)

  -- The label is one that the breaker counts for, on a connected client.
  pub record IsCounted (l : Text) : Type 0 where
    pub client : cfg.connected ≡ true
    pub named : is_empty l ≡ false
    pub indirect : text_eq l (codes "direct") ≡ false

  feed_success :
      (l category : Text) (ms : ℕ) (s : State)
      → IsCounted l
      → lrange (cb_outcomes l) (feed_breaker redis percent cfg l true category ms s)
        ≡ lrange (cb_outcomes l) s ++ outcome true ms ∷ []
  unfolding feed_breaker
  feed_success l category ms s h =
      rw h.indirect (lrange-record_outcome l true ms s h.client h.named)

  feed_category :
      (c : Category) (l : Text) (ms : ℕ) (s : State)
      → IsCounted l
      → lrange (cb_outcomes l) (feed_breaker redis percent cfg l false (category_text c) ms s)
        ≡ lrange (cb_outcomes l) s ++ told_of c ms
  unfolding feed_breaker text_eq mem_text
  feed_category circuit_breaker l ms s h =
      rw h.indirect (sym (append_nil (lrange (cb_outcomes l) s)))
  feed_category banner_timeout l ms s h =
      rw h.indirect (lrange-record_outcome l true ms s h.client h.named)
  feed_category jump_session_closed l ms s h =
      rw h.indirect (lrange-record_outcome l false ms s h.client h.named)
  feed_category timeout l ms s h =
      rw h.indirect (lrange-record_outcome l false ms s h.client h.named)
  feed_category connection l ms s h =
      rw h.indirect (lrange-record_outcome l false ms s h.client h.named)
  feed_category port_refused l ms s h =
      rw h.indirect (lrange-record_outcome l false ms s h.client h.named)
  feed_category no_ping l ms s h =
      rw h.indirect (lrange-record_outcome l false ms s h.client h.named)
  feed_category auth l ms s h = rw h.indirect (sym (append_nil (lrange (cb_outcomes l) s)))
  feed_category vpn l ms s h = rw h.indirect (sym (append_nil (lrange (cb_outcomes l) s)))
  feed_category script l ms s h = rw h.indirect (sym (append_nil (lrange (cb_outcomes l) s)))
  feed_category unknown l ms s h = rw h.indirect (sym (append_nil (lrange (cb_outcomes l) s)))

  lrange-adapt_in :
      (lock : Option LockInfo) (ok : Bool) (message l : Text) (s : State)
      → 0 < cfg.slots.streak_ttl_seconds
      → lrange
          (cb_outcomes l)
          (adapt redis cfg.slots cfg.connected cfg.overrides lock ok message s).1
        ≡ lrange (cb_outcomes l) s
  lrange-adapt_in lock ok message l s t =
      lrange-adapt redis cfg.slots cfg.connected cfg.overrides lock ok message l s t

  -- Once the executor has been called, the outcomes that the breaker of the jump host counts grow
  -- by exactly what the result says: a success, and a failure with an overloaded banner, count as
  -- successes; a failure of the categories timeout, connection, jump_session_closed, port_refused
  -- and no_ping counts as a failure; other failures, and errors that the executor raises, do not
  -- count. This is for a client that is connected, a label that is neither empty nor `direct`, and
  -- streaks of the slots that live for at least a second.
  pub run_executed_tells :
      (input : Input) (label : Text) (lock : Option LockInfo) (w : World State) (e : Execution)
      → IsCounted label
      → 0 < cfg.slots.streak_ttl_seconds
      → lrange (cb_outcomes label) (run_executed redis percent cfg input label lock w e).1.store
        ≡ lrange (cb_outcomes label) w.store ++ told e input.recorded_ms
  unfolding run_executed run_returned run_raised finish
  run_executed_tells input label lock w (returned true text) h t =
      feed_success label (codes "none") input.recorded_ms _ h
      ∙ ap (λ es. es ++ outcome true input.recorded_ms ∷ [])
          (lrange-adapt_in lock true (strip text) label w.store t)
  run_executed_tells input label lock w (returned false text) h t =
      let message = returned_text false (strip text) in
      feed_category (classify_failure message) label input.recorded_ms _ h
      ∙ ap (λ es. es ++ told_of (classify_failure message) input.recorded_ms)
          (lrange-adapt_in lock false message label w.store t)
  run_executed_tells input label lock w (raised txt name) h t =
      lrange-adapt_in _ false _ label w.store t
      ∙ sym (append_nil (lrange (cb_outcomes label) w.store))
