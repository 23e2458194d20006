-- ===== src/Connection.antt =====
-- How a device is reached: directly, by VPN or by a jump host (app/services/connection_mode.py).
pub mod Override
pub mod Route
mod Tests
use backup_center_ajust_cons.Base.{
  ◌≡◌, Bool, true, false, not, ◌&&◌, ◌||◌, List, [], ◌∷◌, Option, none, some, if◌then◌else◌,
  is_some,
}
use backup_center_ajust_cons.Text.{
  Text, codes, is_empty, is_truthy, normalize, strip, lower, any_in, mem_text, text_eq, contains,
}
use backup_center_ajust_cons.Text.Dict.{Dict, lookup}

-- A value of the JSON column: any value that is no text, boolean or null comes with its truth and
-- its `str`.
pub data Value : Type 0 where
  null : Value
  boolean : Bool → Value
  text : Text → Value
  other : Bool → Text → Value

-- `bool(value)`
abbrev pub truth : Value → Bool
truth null = false
truth (boolean b) = b
truth (text t) = not (is_empty t)
truth (other b t) = b

-- `str(value or "").strip().lower()`
unfoldable pub clean : Value → Text
unfolding normalize
clean null = []
clean (boolean b) = if b then codes "true" else []
clean (text t) = normalize t
clean (other b t) = if b then normalize t else []

abbrev pub on_words : List Text
on_words = codes "1" ∷ codes "true" ∷ codes "on" ∷ codes "yes" ∷ codes "sim" ∷ []

-- `_truthy`
unfoldable pub is_on : Value → Bool
unfolding clean mem_text
is_on value = mem_text (clean value) on_words

-- The texts "", "jump_host", "vpn" and "direct".
pub data Mode : Type 0 where
  unset jump_host vpn direct : Mode

-- `_normalize_connection_type_value`
unfoldable pub mode_of : Value → Mode
unfolding clean mem_text text_eq
mode_of value =
    let raw = clean value in
    if mem_text raw (codes "jump" ∷ codes "jump_host" ∷ [])
    then jump_host
    else if text_eq raw (codes "vpn")
    then vpn
    else if text_eq raw (codes "direct")
    then direct
    else unset

pub record Subgroup : Type 0 where
  pub is_active : Bool
  pub connection_type : Value

-- The row of the device's type.
pub record DeviceType : Type 0 where
  pub name : Text
  pub script_name : Text

-- `extra_parameters` is a dict, or something else (or nothing).
pub record Device : Type 0 where
  pub name : Text
  pub device_type : Option DeviceType
  pub subgroup : Option Subgroup
  pub extra : Option (Dict Value)

pub record Group : Type 0 where
  pub connection_type : Value
  pub uses_jump_host : Bool
  pub uses_vpn : Bool
  pub vpn_server : Text
  pub vpn_username : Text
  pub vpn_password : Option Text

abbrev pub value_or_null : Option Value → Value
value_or_null none = null
value_or_null (some v) = v

-- `extra.get(key)`
abbrev pub get : Text → Dict Value → Value
get key extra = value_or_null (lookup key extra)

-- `key in extra`
abbrev pub has : Text → Dict Value → Bool
has key extra = is_some (lookup key extra)

-- `a or b`
abbrev pub or_value : Value → Value → Value
or_value a b = if truth a then a else b

abbrev pub is_jump_host : Mode → Bool
is_jump_host jump_host = true
is_jump_host m = false

abbrev pub is_set : Mode → Bool
is_set unset = false
is_set m = true

-- The part of `_normalized_device_connection_override` that reads the JSON column.
unfoldable pub extra_override : Dict Value → Mode
unfolding mode_of is_on lookup
extra_override extra =
    let override = mode_of (
      or_value (get (codes "connection_subgroup_type") extra)
        (get (codes "subgroup_connection_type") extra)) in
    let enabled = is_on (
      if has (codes "connection_subgroup_enabled") extra
      then get (codes "connection_subgroup_enabled") extra
      else get (codes "subgroup_connection_enabled") extra) in
    if is_set override
      && (enabled
          || has (codes "connection_subgroup_type") extra
          || has (codes "subgroup_connection_type") extra)
    then override
    else unset

abbrev extra_or_unset : Option (Dict Value) → Mode
extra_or_unset none = unset
extra_or_unset (some extra) = extra_override extra

-- The connection type of an active subgroup.
abbrev subgroup_mode : Option Subgroup → Mode
subgroup_mode none = unset
subgroup_mode (some g) = if g.is_active then mode_of g.connection_type else unset

-- `_normalized_device_connection_override`
unfoldable pub device_override : Option Device → Mode
unfolding extra_override mode_of
device_override none = unset
device_override (some d) =
    let m = subgroup_mode d.subgroup in if is_set m then m else extra_or_unset d.extra

abbrev pub mikrotik_words : List Text
mikrotik_words = codes "mikrotik" ∷ codes "routeros" ∷ []

abbrev type_is_mikrotik : Option DeviceType → Bool
type_is_mikrotik none = false
type_is_mikrotik (some t) =
    any_in mikrotik_words (normalize t.name) || any_in mikrotik_words (normalize t.script_name)

-- `_is_mikrotik_device`
unfoldable pub is_mikrotik : Option Device → Bool
unfolding any_in normalize
is_mikrotik none = false
is_mikrotik (some d) = type_is_mikrotik d.device_type || any_in mikrotik_words (normalize d.name)

-- `_group_has_vpn_credentials` of a group
unfoldable pub has_vpn_credentials : Group → Bool
unfolding strip
has_vpn_credentials g =
    not (is_empty (strip g.vpn_server))
    && not (is_empty (strip g.vpn_username))
    && is_truthy g.vpn_password

-- `BACKUP_MIKROTIK_DISABLE_JUMP_HOST` and `BACKUP_MIKROTIK_PREFER_VPN`, read by `is_on`.
pub record Policy : Type 0 where
  pub disable_jump : Bool
  pub prefer_vpn : Bool

-- The last part of `get_effective_connection_type`, for a group and no override.
unfoldable pub group_mode : Policy → Group → Option Device → Mode
unfolding mode_of is_mikrotik has_vpn_credentials
group_mode policy g device =
    let conn_type = mode_of g.connection_type in
    if policy.disable_jump && is_jump_host conn_type && is_mikrotik device
    then (if policy.prefer_vpn && has_vpn_credentials g then vpn else direct)
    else if is_set conn_type
    then conn_type
    else if g.uses_jump_host
    then jump_host
    else if g.uses_vpn
    then vpn
    else direct

-- `get_effective_connection_type`
unfoldable pub effective_mode : Policy → Option Group → Option Device → Mode
unfolding device_override group_mode
effective_mode policy group device =
    let override = device_override device in
    if is_set override
    then override
    else elim group [ none ↦ unset | some g ↦ group_mode policy g device ]

abbrev pub is_vpn : Mode → Bool
is_vpn vpn = true
is_vpn m = false

-- `uses_jump_host`
unfoldable pub uses_jump_host : Policy → Option Group → Option Device → Bool
unfolding effective_mode
uses_jump_host policy group device = is_jump_host (effective_mode policy group device)

-- `uses_vpn_tunnel`
unfoldable pub uses_vpn_tunnel : Policy → Option Group → Option Device → Bool
unfolding effective_mode
uses_vpn_tunnel policy group device = is_vpn (effective_mode policy group device)
