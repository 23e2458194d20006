-- ===== src/JumpHost/Slots/Adapt.antt =====
-- What one backup does to the limit of its jump host (`_adapt_jump_host_slots`).
use backup_center_ajust_cons.Base.{
  ℕ, ◌+◌, ◌≤◌, ◌<◌, ◌≡◌, ◌≢◌, refl, ap, sym, ◌∙◌, Bool, true, false, not, ◌&&◌, ◌||◌, Option, none,
  some, arith, Bool-cases, inl, inr, min, leb, ltb, if◌then◌else◌,
}
use backup_center_ajust_cons.Base.Int.{pos}
use backup_center_ajust_cons.Text.{Text, codes, is_empty, is_truthy, strip}
use backup_center_ajust_cons.Text.Dict.{Dict}
use backup_center_ajust_cons.Redis.{Key, Redis, adaptive_fail, adaptive_success, adaptive_cooldown}
use backup_center_ajust_cons.JumpHost.Slots.{
  Settings, LockInfo, Change, up, down, effective_slots, allowed_max, adapt_success, adapt_failure,
  adapt_outcome, adapt, dropped, base_of, indicates_saturation, indicates_severe,
}
use backup_center_ajust_cons.JumpHost.Slots.Bounds.{
  effective_slots_bounds, effective_slots_of_dynamic, effective_slots_same,
}

module _ (redis : Redis) (cfg : Settings) where
  open redis use {State, get, counter, hget, setex, delete, expire, incr, hset}

  -- The limit `n` is stored, and the label is in cooldown.
  abbrev pub IsStored : Text → ℕ → State → Type 0
  IsStored label n s =
      (hget label s ≡ some (some (pos n))) × (is_truthy (get (adaptive_cooldown label) s) ≡ true)

  store-IsStored :
      (label : Text) (n t : ℕ) (k : Key) (s : State)
      → adaptive_cooldown label ≢ k
      → IsStored label n (delete k (setex (adaptive_cooldown label) t (codes "1") (hset label n s)))
  store-IsStored label n t k s ne =
      let cd = adaptive_cooldown label in
      let set = hset label n s in
      let timed = setex cd t (codes "1") set in
      (
        redis.hget-delete label k timed
            ∙ redis.hget-setex label cd t (codes "1") set
            ∙ redis.hget-hset label n s,
        ap is_truthy (redis.get-delete_ne cd k timed ne ∙ redis.get-setex cd t (codes "1") set),
      )

  pub hget-counted :
      (label : Text) (j k : Key) (t : ℕ) (s : State)
      → hget label (delete j (expire k t (incr k s))) ≡ hget label s
  hget-counted label j k t s =
      redis.hget-delete label j (expire k t (incr k s))
      ∙ redis.hget-expire label k t (incr k s)
      ∙ redis.hget-incr label k s

  -- How an outcome changes the limit `current`: not at all; up by one, on a success and within
  -- what the boost allows; down, on a failure that points at the jump host, never below 1.
  abbrev pub Effect : Bool → Text → Text → ℕ → ℕ → State → Option Change × State → Type 0
  Effect success message label base current s (none, s') = hget label s' ≡ hget label s
  Effect success message label base current s (some (up a b), s') =
      (success ≡ true)
      × (a ≡ current)
      × (b ≡ current + 1)
      × (b ≤ allowed_max redis cfg base)
      × IsStored label b s'
  Effect success message label base current s (some (down a b), s') =
      (success ≡ false)
      × (indicates_saturation message ≡ true)
      × (a ≡ current)
      × (1 ≤ b)
      × (b < current)
      × IsStored label b s'

  dropped_pos : (severe : Bool) (current : ℕ) → 1 ≤ dropped redis cfg severe current
  dropped_pos severe current = ground arith

  dropped-lt :
      (severe : Bool) (current : ℕ) → 1 < current → dropped redis cfg severe current < current
  dropped-lt severe current h = ground arith

  adapt_success-Effect :
      (message label : Text) (base current : ℕ) (s : State)
      → Effect true message label base current s (adapt_success redis cfg label base current s)
  unfolding adapt_success
  adapt_success-Effect message label base current s =
      let limit = allowed_max redis cfg base in
      let streak = counter (adaptive_success label) (incr (adaptive_success label) s) in
      let counted = delete (adaptive_fail label) (
        expire (adaptive_success label) cfg.streak_ttl_seconds (incr (adaptive_success label) s)) in
      elim (Bool-cases (leb cfg.success_streak streak && ltb current limit)) [
        | inl e ↦ rw e (
          refl,
          refl,
          ground arith,
          ground arith,
          store-IsStored label (min limit (current + 1)) cfg.cooldown_seconds
              (adaptive_success label) counted (λ q. cc),
        )
        | inr e ↦ rw e (
            hget-counted label (adaptive_fail label) (adaptive_success label) cfg.streak_ttl_seconds
              s)
      ]

  adapt_failure-Effect :
      (severe : Bool) (message label : Text) (base current : ℕ) (s : State)
      → indicates_saturation message ≡ true
      → Effect false message label base current s (adapt_failure redis cfg severe label current s)
  unfolding adapt_failure
  adapt_failure-Effect severe message label base current s sat =
      let streak = counter (adaptive_fail label) (incr (adaptive_fail label) s) in
      let deep = severe && leb cfg.severe_fail_streak streak in
      let counted =
        delete (adaptive_success label)
          (expire (adaptive_fail label) cfg.streak_ttl_seconds (incr (adaptive_fail label) s)) in
      let cooldown = if deep then cfg.severe_cooldown_seconds else cfg.cooldown_seconds in
      elim (Bool-cases (ltb 1 current && (leb cfg.fail_streak streak || deep))) [
        | inl e ↦ rw e (
          refl,
          sat,
          refl,
          dropped_pos deep current,
          dropped-lt deep current (ground arith),
          store-IsStored label (dropped redis cfg deep current) cooldown (adaptive_fail label)
              counted (λ q. cc),
        )
        | inr e ↦ rw e (
            hget-counted label (adaptive_success label) (adaptive_fail label) cfg.streak_ttl_seconds
              s)
      ]

  adapt_outcome-Effect :
      (success : Bool) (message label : Text) (base current : ℕ) (s : State)
      → Effect success message label base current s
          (adapt_outcome redis cfg success message label base current s)
  unfolding adapt_outcome
  adapt_outcome-Effect success message label base current s =
      elim (Bool-cases (is_truthy (get (adaptive_cooldown label) s))) [
        | inl e ↦ rw e refl
        | inr e ↦ rw e (active success)
      ]
    where
      active :
          (success : Bool)
          → Effect success message label base current s (
              if success
              then adapt_success redis cfg label base current s
              else if indicates_saturation message
              then adapt_failure redis cfg (indicates_severe message) label current s
              else (none, s))
      active true = adapt_success-Effect message label base current s
      active false = elim (Bool-cases (indicates_saturation message)) [
        | inl e ↦
            rw e (adapt_failure-Effect (indicates_severe message) message label base current s e)
        | inr e ↦ rw e refl
      ]

  -- What an adaptation reports, and the limit after it.
  abbrev pub Moves : Bool → Text → Dict ℕ → LockInfo → State → Option Change × State → Type 0
  Moves success message overrides info s (none, s') =
      effective_slots redis cfg true overrides (strip info.label) (base_of redis cfg info) s'
      ≡ effective_slots redis cfg true overrides (strip info.label) (base_of redis cfg info) s
  Moves success message overrides info s (some (up a b), s') =
      let limit =
        effective_slots redis cfg true overrides (strip info.label) (base_of redis cfg info) in
      (success ≡ true)
      × (limit s ≡ a)
      × (limit s' ≡ b)
      × (b ≡ a + 1)
      × (b ≤ allowed_max redis cfg (base_of redis cfg info))
      × (is_truthy (get (adaptive_cooldown (strip info.label)) s') ≡ true)
  Moves success message overrides info s (some (down a b), s') =
      let limit =
        effective_slots redis cfg true overrides (strip info.label) (base_of redis cfg info) in
      (success ≡ false)
      × (indicates_saturation message ≡ true)
      × (limit s ≡ a)
      × (limit s' ≡ b)
      × (1 ≤ b)
      × (b < a)
      × (is_truthy (get (adaptive_cooldown (strip info.label)) s') ≡ true)

  Effect-Moves :
      (success : Bool) (message : Text) (overrides : Dict ℕ) (info : LockInfo) (s : State)
      (r : Option Change × State)
      → cfg.enabled ≡ true
      → Effect success message
          (strip info.label)
          (base_of redis cfg info)
          (effective_slots redis cfg true overrides (strip info.label) (base_of redis cfg info) s)
          s
          r
      → Moves success message overrides info s r
  Effect-Moves success message overrides info s (none, s') en e =
      effective_slots_same redis cfg true overrides (strip info.label) (base_of redis cfg info) s' s
        e
  Effect-Moves success message overrides info s (some (up a b), s') en (ok, ea, eb, le, st) =
      let l = strip info.label in
      let base = base_of redis cfg info in
      let (low, high) = effective_slots_bounds redis cfg true overrides l base s in
      (
        ok,
        sym ea,
        effective_slots_of_dynamic redis cfg overrides l base b s' en st.0 (omega arith)
            (ground arith),
        omega arith,
        le,
        st.1,
      )
  Effect-Moves success message overrides info s (some (down a b), s') en
        (bad, sat, ea, pb, lt, st) =
      let l = strip info.label in
      let base = base_of redis cfg info in
      let (low, high) = effective_slots_bounds redis cfg true overrides l base s in
      (
        bad,
        sat,
        sym ea,
        effective_slots_of_dynamic redis cfg overrides l base b s' en st.0 pb (omega arith),
        pb,
        omega arith,
        st.1,
      )

  -- With the adaptation switched on and a connected client, each backup moves the limit of its
  -- jump host by the rules: a reported rise is by one slot, after a success, and within the boost
  -- allowed; a reported drop follows a failure whose text points at the jump host, and leaves at
  -- least one slot; both start a cooldown; and without a report the limit is the same as before.
  pub adapt-Moves :
      (overrides : Dict ℕ) (info : LockInfo) (success : Bool) (message : Text) (s : State)
      → cfg.enabled ≡ true
      → Moves success message overrides info s
          (adapt redis cfg true overrides (some info) success message s)
  unfolding adapt
  adapt-Moves overrides info success message s en =
      elim (Bool-cases (not cfg.enabled || is_empty (strip info.label) || not true)) [
        | inl e ↦ rw e refl
        | inr e ↦ rw e (
            Effect-Moves success message overrides info s
              (adapt_outcome redis cfg success message (strip info.label) (base_of redis cfg info)
                (effective_slots redis cfg true overrides (strip info.label)
                  (base_of redis cfg info) s)
                s)
              en
              (adapt_outcome-Effect success message (strip info.label) (base_of redis cfg info)
                (effective_slots redis cfg true overrides (strip info.label)
                  (base_of redis cfg info) s)
                s))
      ]
