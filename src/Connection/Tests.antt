-- ===== src/Connection/Tests.antt =====
-- The way to a device at concrete inputs.
use backup_center_ajust_cons.Base.{◌≡◌, ◌≢◌, ◌↔◌, refl, true, false, none, some, [], ◌∷◌}
use backup_center_ajust_cons.Text.{codes}
use backup_center_ajust_cons.Text.Dict.{Dict}
use backup_center_ajust_cons.Connection.{
  Value, null, text, unset, vpn, direct, mode_of, Device, DeviceType, Group, Policy,
  device_override, effective_mode, uses_jump_host, is_mikrotik,
}
use backup_center_ajust_cons.Connection.Route.{mikrotik_jumps_iff}

abbrev routeros : DeviceType
routeros = record { name = codes "RouterOS v7"; script_name = codes "ros" }

abbrev router : Device
router = record { name = codes "edge1"; device_type = some routeros; subgroup = none; extra = none }

abbrev policy : Policy
policy = record { disable_jump = true; prefer_vpn = true }

abbrev legacy : Group
legacy = record {
  connection_type = null;
  uses_jump_host = true;
  uses_vpn = false;
  vpn_server = [];
  vpn_username = [];
  vpn_password = none;
}

abbrev modern : Group
modern = record legacy {
  connection_type = text (codes "Jump_Host ");
  vpn_server = codes "vpn.example";
  vpn_username = codes "u";
  vpn_password = some (codes "p");
}

legacy_jumps : uses_jump_host policy (some legacy) (some router) ≡ true
unfolding uses_jump_host
legacy_jumps = refl

modern_uses_vpn : effective_mode policy (some modern) (some router) ≡ vpn
unfolding effective_mode
modern_uses_vpn = refl

abbrev extra : Dict Value
extra = (codes "connection_subgroup_type", text (codes "direct")) ∷ []

abbrev pinned : Device
pinned = record router { extra = some extra }

pinned-device_override : device_override (some pinned) ≡ direct
unfolding device_override
pinned-device_override = refl

pinned_set : device_override (some pinned) ≢ unset
pinned_set e = cc (e, pinned-device_override)

mikrotik_jumps_iff_example :
    (uses_jump_host policy (some legacy) (some router) ≡ true)
    ↔ ((mode_of legacy.connection_type ≡ unset) × (legacy.uses_jump_host ≡ true))
unfolding is_mikrotik device_override
mikrotik_jumps_iff_example = mikrotik_jumps_iff policy legacy (some router) refl refl refl
