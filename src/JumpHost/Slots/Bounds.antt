-- ===== src/JumpHost/Slots/Bounds.antt =====
-- The range of the limit (`_resolve_effective_jump_host_slots`), and what it depends on.
use backup_center_ajust_cons.Base.{ℕ, ◌≤◌, ◌≡◌, Bool, true, some, arith}
use backup_center_ajust_cons.Base.Int.{pos}
use backup_center_ajust_cons.Text.{Text}
use backup_center_ajust_cons.Text.Dict.{Dict}
use backup_center_ajust_cons.Redis.{Redis}
use backup_center_ajust_cons.JumpHost.Slots.{Settings, effective_slots}

module _ (redis : Redis) (cfg : Settings) where
  open redis use {State, hget, hset}

  -- The limit of a label is at least 1 and at most 16.
  pub effective_slots_bounds :
      (connected : Bool) (overrides : Dict ℕ) (label : Text) (base : ℕ) (s : State)
      → let n = effective_slots redis cfg connected overrides label base s in (1 ≤ n) × (n ≤ 16)
  unfolding effective_slots
  effective_slots_bounds connected overrides label base s = ground arith

  -- A value between 1 and 16 that the adaptation has stored is the limit.
  pub effective_slots_of_dynamic :
      (overrides : Dict ℕ) (label : Text) (base n : ℕ) (s : State)
      → cfg.enabled ≡ true
      → hget label s ≡ some (some (pos n))
      → 1 ≤ n
      → n ≤ 16
      → effective_slots redis cfg true overrides label base s ≡ n
  unfolding effective_slots
  effective_slots_of_dynamic overrides label base n s e h low high = ground arith

  -- The limit depends on the stored value alone.
  pub effective_slots_same :
      (connected : Bool) (overrides : Dict ℕ) (label : Text) (base : ℕ) (s t : State)
      → hget label s ≡ hget label t
      → effective_slots redis cfg connected overrides label base s
        ≡ effective_slots redis cfg connected overrides label base t
  unfolding effective_slots
  effective_slots_same connected overrides label base s t e = rw e
