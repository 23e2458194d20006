-- ===== src/JumpHost/Slots/Reset.antt =====
-- The reset before a new batch, seen from the limits of the jump hosts.
use backup_center_ajust_cons.Base.{ℕ, ◌≡◌, Bool}
use backup_center_ajust_cons.Text.{Text}
use backup_center_ajust_cons.Text.Dict.{Dict}
use backup_center_ajust_cons.Redis.{Redis}
use backup_center_ajust_cons.JumpHost.Breaker.{reset}
use backup_center_ajust_cons.JumpHost.Breaker.Reset.{reset_keeps_slots}
use backup_center_ajust_cons.JumpHost.Slots.{Settings, effective_slots}
use backup_center_ajust_cons.JumpHost.Slots.Bounds.{effective_slots_same}

module _ (redis : Redis) (cfg : Settings) where
  -- The reset before a new batch changes the limit of no jump host: a limit that failures of an
  -- earlier batch have brought down stays down.
  pub reset_keeps_limit :
      (connected : Bool) (overrides : Dict ℕ) (label : Text) (base : ℕ) (s : redis.State)
      → effective_slots redis cfg connected overrides label base (reset redis connected s).1
        ≡ effective_slots redis cfg connected overrides label base s
  reset_keeps_limit connected overrides label base s =
      effective_slots_same redis cfg connected overrides label base (reset redis connected s).1 s
        (reset_keeps_slots redis connected label s)
