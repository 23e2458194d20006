-- ===== src/JumpHost/Breaker/Trip.antt =====
-- When `check` finds the breaker open (`_check_jump_host_circuit_breaker`).
use backup_center_ajust_cons.Base.{
  ℕ, ◌+◌, ◌-◌, ◌*◌, ◌≤◌, ◌<◌, ◌≡◌, ◌≢◌, refl, inl, inr, Bool, true, false, List, [], ◌∷◌, length,
  arith, Bool-cases,
}
use mathlib.Core.Path.{subst₂}
use backup_center_ajust_cons.Text.{Text, is_truthy}
use backup_center_ajust_cons.Redis.{Entry, Redis, cb_open, cb_outcomes}
use backup_center_ajust_cons.JumpHost.Breaker.{
  Settings, scan_entries, drop_expired, decide_open, check_outcomes, check,
}
use backup_center_ajust_cons.JumpHost.Breaker.Window.{recent, failures_of, scan_entries-IsTallyOf}

-- `int((failures / total) * 100)` in double precision: the exact percentage rounded down, or one
-- less where the exact percentage is a whole number.
pub record IsPercent (percent : ℕ → ℕ → ℕ) : Type 0 where
  pub not_above : (f t : ℕ) → 0 < t → percent f t * t ≤ f * 100
  pub not_far_below : (f t : ℕ) → 0 < t → f * 100 ≤ (percent f t + 1) * t

-- How the answer depends on the samples and the failures in the window.
abbrev pub Decides : Settings → Bool → ℕ → ℕ → Type 0
Decides cfg is_open total bad =
    (is_open ≡ true → (cfg.min_samples ≤ total) × (cfg.threshold_percent * total ≤ bad * 100))
    × (cfg.min_samples ≤ total → cfg.threshold_percent * total < bad * 100 → is_open ≡ true)

mul_le : (a b t x : ℕ) → a ≤ b → b * t ≤ x → a * t ≤ x
mul_le a b t x h k = grind arith

mul_le_suc : (a b t x : ℕ) → b < a → x ≤ (b + 1) * t → x ≤ a * t
mul_le_suc a b t x h k = grind arith

module _ (redis : Redis) (percent : ℕ → ℕ → ℕ) (cfg : Settings) where
  open redis use {State, get, ttl, lrange, setex}

  decide_open-Decides :
      (l : Text) (ok bad : ℕ) (s : State)
      → IsPercent percent
      → 0 < cfg.min_samples
      → Decides cfg (decide_open redis percent cfg l ok bad s).0.is_open (ok + bad) bad
  unfolding decide_open
  decide_open-Decides l ok bad s p m = ground (
    arith,
    p.not_above bad (ok + bad),
    p.not_far_below bad (ok + bad),
    mul_le cfg.threshold_percent (percent bad (ok + bad)) (ok + bad) (bad * 100),
    mul_le_suc cfg.threshold_percent (percent bad (ok + bad)) (ok + bad) (bad * 100),
  )

  check_outcomes-Decides :
      (l : Text) (now_ms : ℕ) (es : List Entry) (s : State)
      → IsPercent percent
      → 0 < cfg.min_samples
      → let window = recent (now_ms - cfg.window_seconds * 1000) es in
        Decides cfg
          (check_outcomes redis percent cfg l now_ms es s).0.is_open
          (length window)
          (failures_of window)
  unfolding check_outcomes
  check_outcomes-Decides l now_ms [] s p m = ground arith
  check_outcomes-Decides l now_ms (e ∷ es) s p m =
      let cutoff_ms = now_ms - cfg.window_seconds * 1000 in
      let r = scan_entries cutoff_ms (e ∷ es) in
      let exact = scan_entries-IsTallyOf cutoff_ms (e ∷ es) in
      let s' = drop_expired redis percent cfg (cb_outcomes l) (e ∷ es) r.valid_entries s in
      subst₂ (Decides cfg (decide_open redis percent cfg l r.successes r.failures s').0.is_open)
        exact.total_exact exact.failures_exact (decide_open-Decides l r.successes r.failures s' p m)

  -- While the key that marks the breaker open is there, every check says so and changes nothing.
  check_of_open :
      (l : Text) (now_ms : ℕ) (s : State)
      → l ≢ []
      → is_truthy (get (cb_open l) s) ≡ true
      → ((check redis percent cfg true l now_ms s).0.is_open ≡ true)
        × ((check redis percent cfg true l now_ms s).1 ≡ s)
  unfolding check
  check_of_open l now_ms s h e = ground arith

  decide_open-marks :
      (l : Text) (ok bad : ℕ) (s : State)
      → (decide_open redis percent cfg l ok bad s).0.is_open ≡ true
      → is_truthy (get (cb_open l) (decide_open redis percent cfg l ok bad s).1) ≡ true
  unfolding decide_open
  decide_open-marks l ok bad s h =
      ground (arith, redis.get-setex (cb_open l) cfg.open_seconds (49 ∷ []) s)

  check_outcomes-marks :
      (l : Text) (now_ms : ℕ) (es : List Entry) (s : State)
      → (check_outcomes redis percent cfg l now_ms es s).0.is_open ≡ true
      → is_truthy (get (cb_open l) (check_outcomes redis percent cfg l now_ms es s).1) ≡ true
  unfolding check_outcomes
  check_outcomes-marks l now_ms [] s h = cc
  check_outcomes-marks l now_ms (e ∷ es) s h =
      let cutoff_ms = now_ms - cfg.window_seconds * 1000 in
      let r = scan_entries cutoff_ms (e ∷ es) in
      decide_open-marks l r.successes r.failures
        (drop_expired redis percent cfg (cb_outcomes l) (e ∷ es) r.valid_entries s) h

  -- On a connected client and a label that is not empty, with a percentage rounded as `IsPercent`
  -- says, at least one sample asked for, and no mark that the breaker is open, the check opens it
  -- only if the window holds at least `min_samples` outcomes of which at least the threshold's
  -- share failed, and it does open it if that many outcomes are there and more than that share
  -- failed.
  pub check-Decides :
      (l : Text) (now_ms : ℕ) (s : State)
      → IsPercent percent
      → 0 < cfg.min_samples
      → l ≢ []
      → is_truthy (get (cb_open l) s) ≡ false
      → let window = recent (now_ms - cfg.window_seconds * 1000) (lrange (cb_outcomes l) s) in
        Decides cfg
          (check redis percent cfg true l now_ms s).0.is_open
          (length window)
          (failures_of window)
  unfolding check
  check-Decides [] now_ms s p m ne e = absurd (ne refl)
  check-Decides (c ∷ l) now_ms s p m ne e =
      rw e (check_outcomes-Decides (c ∷ l) now_ms (lrange (cb_outcomes (c ∷ l)) s) s p m)

  check-marks :
      (l : Text) (now_ms : ℕ) (s : State)
      → (check redis percent cfg true l now_ms s).0.is_open ≡ true
      → (l ≢ []) × (is_truthy (get (cb_open l) (check redis percent cfg true l now_ms s).1) ≡ true)
  unfolding check
  check-marks [] now_ms s h = cc
  check-marks (c ∷ l) now_ms s h = elim (Bool-cases (is_truthy (get (cb_open (c ∷ l)) s))) [
    | inl e ↦ (λ x. cc, rw e e)
    | inr e ↦ (
      λ x. cc,
      rw e (check_outcomes-marks (c ∷ l) now_ms (lrange (cb_outcomes (c ∷ l)) s) s (rw e at h)),
    )
  ]

  -- Once a check has found the breaker open or has opened it, every later check of the label
  -- refuses too, whatever the clock of its worker says, and changes nothing, as long as the key
  -- lives.
  pub check_stays_open :
      (l : Text) (now_ms later_ms : ℕ) (s : State)
      → (check redis percent cfg true l now_ms s).0.is_open ≡ true
      → let s' = (check redis percent cfg true l now_ms s).1 in
        ((check redis percent cfg true l later_ms s').0.is_open ≡ true)
        × ((check redis percent cfg true l later_ms s').1 ≡ s')
  check_stays_open l now_ms later_ms s h =
      let (ne, mark) = check-marks l now_ms s h in
      check_of_open l later_ms (check redis percent cfg true l now_ms s).1 ne mark
