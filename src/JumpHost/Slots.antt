-- ===== src/JumpHost/Slots.antt =====
-- How many connections a jump host takes at once (app/tasks/backups.py): the limit from the
-- settings, the overrides and the adaptive value in Redis, and the adaptation after each backup.
pub mod Bounds
pub mod Adapt
pub mod Streak
pub mod Reset
mod Tests
use backup_center_ajust_cons.Base.{
  ℕ, ◌+◌, ◌-◌, ◌≤◌, ◌≡◌, Bool, true, false, not, ◌&&◌, ◌||◌, Option, none, some, List, [], ◌∷◌, leb,
  ltb, ◌==◌, if◌then◌else◌, is_some, min, max,
}
use backup_center_ajust_cons.Base.Int.{ℤ, pos, pos_part}
use backup_center_ajust_cons.Text.{
  Text, codes, is_empty, is_truthy, strip, normalize, any_in, contains,
}
use backup_center_ajust_cons.Text.Number.{parse_int}
use backup_center_ajust_cons.Text.Split.{split_on, split_once}
use backup_center_ajust_cons.Text.Dict.{Dict, lookup, insert}
use backup_center_ajust_cons.Redis.{Redis, adaptive_fail, adaptive_success, adaptive_cooldown}

-- `max(1, min(16, slots))`
abbrev pub clamp_slots : ℤ → ℕ
clamp_slots slots = max 1 (min 16 (pos_part slots))

abbrev add_override : Text × Text → Dict ℕ → Dict ℕ
unfolding insert parse_int
add_override (key, value) parsed = elim (parse_int value) [
  | none ↦ parsed
  | some n ↦ insert (strip key) (clamp_slots n) parsed
]

-- One chunk `label=slots`; anything else is passed over.
abbrev add_chunk : Text → Dict ℕ → Dict ℕ
unfolding insert parse_int split_once
add_chunk chunk parsed = elim (split_once 61 (strip chunk)) [
  | none ↦ parsed
  | some p ↦ add_override p parsed
]

add_chunks : List Text → Dict ℕ → Dict ℕ
unfolding insert parse_int split_once strip
add_chunks [] parsed = parsed
add_chunks (chunk ∷ chunks) parsed = add_chunks chunks (add_chunk chunk parsed)

-- `_parse_jump_host_slot_overrides` of the text in the environment, which is read once.
unfoldable pub parse_overrides : Text → Dict ℕ
unfolding add_chunks split_on
parse_overrides raw = if is_empty (strip raw) then [] else add_chunks (split_on 44 (strip raw)) []

abbrev saturation_markers : List Text
saturation_markers =
    codes "error reading ssh protocol banner"
    ∷ codes "timeout opening channel"
    ∷ codes "channelexception"
    ∷ codes "no existing session"
    ∷ codes "sessao com jump host encerrada"
    ∷ codes "sessão com jump host encerrada"
    ∷ codes "banner exchange"
    ∷ codes "kex_exchange_identification"
    ∷ codes "jump host"
    ∷ codes "slot do jump host"
    ∷ []

abbrev severe_markers : List Text
severe_markers =
    codes "sessao com jump host encerrada antes do shell ficar disponivel"
    ∷ codes "sessão com jump host encerrada antes do shell ficar disponivel"
    ∷ codes "nao foi possivel abrir shell interativo no jump host"
    ∷ codes "não foi possível abrir shell interativo no jump host"
    ∷ codes "error reading ssh protocol banner"
    ∷ codes "timeout opening channel"
    ∷ codes "kex_exchange_identification"
    ∷ codes "connection reset by peer"
    ∷ []

-- `_message_indicates_jump_host_saturation`
unfoldable pub indicates_saturation : Text → Bool
unfolding normalize any_in
indicates_saturation message =
    let text = normalize message in if is_empty text then false else any_in saturation_markers text

-- `_message_indicates_severe_jump_host_saturation`
unfoldable pub indicates_severe : Text → Bool
unfolding normalize any_in
indicates_severe message =
    let text = normalize message in if is_empty text then false else any_in severe_markers text

pub record Settings : Type 0 where
  pub enabled : Bool
  pub fail_streak : ℕ
  pub success_streak : ℕ
  pub cooldown_seconds : ℕ
  pub streak_ttl_seconds : ℕ
  pub max_boost : ℕ
  pub severe_fail_streak : ℕ
  pub severe_cooldown_seconds : ℕ
  pub severe_drop_to_one : Bool

-- The fields of `lock_info` that the adaptation reads; a missing number is 0.
pub record LockInfo : Type 0 where
  pub label : Text
  pub base_slots : ℕ
  pub max_slots : ℕ

-- `a or b` of two numbers
abbrev pub or_number : ℕ → ℕ → ℕ
or_number a b = if a == 0 then b else a

-- What the event `jump_host_slots_changed` reports.
pub data Change : Type 0 where
  up : ℕ → ℕ → Change
  down : ℕ → ℕ → Change

module _ (redis : Redis) (cfg : Settings) where
  open redis use {State, get, counter, hget, setex, delete, expire, incr, hset}

  abbrev pub override_of : Dict ℕ → Text → ℕ → ℕ
  unfolding lookup
  override_of overrides label base = elim (lookup label overrides) [
    | some n ↦ n
    | none ↦ elim (lookup (codes "default") overrides) [ some n ↦ n | none ↦ max 1 base ]
  ]

  -- `int(raw_dynamic)`, clamped; a missing value or one that `int` refuses changes nothing.
  abbrev pub dynamic_or : Option (Option ℤ) → ℕ → ℕ
  dynamic_or none effective = effective
  dynamic_or (some none) effective = effective
  dynamic_or (some (some n)) effective = clamp_slots n

  -- `_resolve_effective_jump_host_slots`
  unfoldable pub effective_slots : Bool → Dict ℕ → Text → ℕ → State → ℕ
  unfolding lookup
  effective_slots connected overrides label base s =
      let effective = override_of overrides label base in
      if not cfg.enabled || not connected
      then max 1 (min 16 effective)
      else max 1 (min 16 (dynamic_or (hget label s) effective))

  abbrev pub allowed_max : ℕ → ℕ
  allowed_max base = max 1 (min 16 (base + cfg.max_boost))

  -- A backup that went through, when its label is not in cooldown.
  unfoldable pub adapt_success : Text → ℕ → ℕ → State → Option Change × State
  adapt_success label base current s =
      let counted = delete (adaptive_fail label) (
        expire (adaptive_success label) cfg.streak_ttl_seconds (incr (adaptive_success label) s)) in
      let streak = counter (adaptive_success label) (incr (adaptive_success label) s) in
      if leb cfg.success_streak streak && ltb current (allowed_max base)
      then (let next = min (allowed_max base) (current + 1) in
          (
            some (up current next),
            delete (adaptive_success label) (
                setex (adaptive_cooldown label) cfg.cooldown_seconds (codes "1")
                  (hset label next counted)),
          ))
      else (none, counted)

  -- The limit after a drop.
  abbrev pub dropped : Bool → ℕ → ℕ
  dropped severe current =
      if severe
      then (if cfg.severe_drop_to_one then 1 else max 1 (current - 2))
      else max 1 (current - 1)

  -- A backup that failed with a text that points at the jump host.
  unfoldable pub adapt_failure : Bool → Text → ℕ → State → Option Change × State
  adapt_failure severe_text label current s =
      let counted =
        delete (adaptive_success label)
          (expire (adaptive_fail label) cfg.streak_ttl_seconds (incr (adaptive_fail label) s)) in
      let streak = counter (adaptive_fail label) (incr (adaptive_fail label) s) in
      let severe = severe_text && leb cfg.severe_fail_streak streak in
      let cooldown = if severe then cfg.severe_cooldown_seconds else cfg.cooldown_seconds in
      if ltb 1 current && (leb cfg.fail_streak streak || severe)
      then (
        some (down current (dropped severe current)),
        delete (adaptive_fail label) (
            setex (adaptive_cooldown label) cooldown (codes "1")
              (hset label (dropped severe current) counted)),
      )
      else (none, counted)

  unfoldable pub adapt_outcome : Bool → Text → Text → ℕ → ℕ → State → Option Change × State
  unfolding adapt_success adapt_failure
  adapt_outcome success message label base current s =
      if is_truthy (get (adaptive_cooldown label) s)
      then (none, s)
      else if success
      then adapt_success label base current s
      else if indicates_saturation message
      then adapt_failure (indicates_severe message) label current s
      else (none, s)

  abbrev pub base_of : LockInfo → ℕ
  base_of info = max 1 (or_number info.base_slots (or_number info.max_slots 1))

  -- `_adapt_jump_host_slots`
  unfoldable pub adapt :
      Bool → Dict ℕ → Option LockInfo → Bool → Text → State → Option Change × State
  unfolding adapt_outcome effective_slots strip
  adapt connected overrides none success message s = (none, s)
  adapt connected overrides (some info) success message s =
      let label = strip info.label in
      if not cfg.enabled || is_empty label || not connected
      then (none, s)
      else adapt_outcome success message label (base_of info)
          (effective_slots true overrides label (base_of info) s) s
