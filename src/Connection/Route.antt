-- ===== src/Connection/Route.antt =====
-- Which way a device is reached.
use backup_center_ajust_cons.Base.{◌≡◌, ◌≢◌, ◌↔◌, true, false, ◌&&◌, Option, some, arith}
use backup_center_ajust_cons.Connection.{
  unset, mode_of, Device, Group, Policy, device_override, is_mikrotik, group_mode, effective_mode,
  uses_jump_host, uses_vpn_tunnel,
}

-- A device of a group is always reached in one of the three ways, and never by both a jump host
-- and a VPN.
pub effective_mode_total :
    (policy : Policy) (g : Group) (device : Option Device)
    → (effective_mode policy (some g) device ≢ unset)
      × ((uses_jump_host policy (some g) device && uses_vpn_tunnel policy (some g) device) ≡ false)
unfolding effective_mode group_mode uses_jump_host uses_vpn_tunnel
effective_mode_total policy g device = ground arith

-- While the policy keeps MikroTik devices off jump hosts, such a device without an override goes
-- by the jump host exactly when its group names no connection type and only has the old flag
-- `uses_jump_host`.
pub mikrotik_jumps_iff :
    (policy : Policy) (g : Group) (device : Option Device)
    → policy.disable_jump ≡ true
    → is_mikrotik device ≡ true
    → device_override device ≡ unset
    → (uses_jump_host policy (some g) device ≡ true)
      ↔ ((mode_of g.connection_type ≡ unset) × (g.uses_jump_host ≡ true))
unfolding uses_jump_host effective_mode group_mode
mikrotik_jumps_iff policy g device p m o = (λ h. (ground arith, ground arith), λ h. ground arith)

-- An override decides, whatever the group and the policy say.
pub override_wins :
    (policy : Policy) (group : Option Group) (device : Option Device)
    → device_override device ≢ unset
    → effective_mode policy group device ≡ device_override device
unfolding effective_mode
override_wins policy group device h = ground arith
