-- ===== src/Task/Gate.antt =====
-- What a backup task reads about its device before it runs (app/tasks/backups.py): the stop flags,
-- whether the device may be backed up, and the jump host in the way.
use backup_center_ajust_cons.Base.{
  ℕ, ◌+◌, ◌/◌, ◌%◌, Bool, true, false, not, ◌&&◌, [], ◌∷◌, ◌++◌, Option, none, some, suc, zero, ltb,
  if◌then◌else◌, get_or,
}
use backup_center_ajust_cons.Text.{Text, codes, is_empty, strip, normalize, text_eq}
use backup_center_ajust_cons.Redis.{Redis, force_stop}
use backup_center_ajust_cons.Connection
use backup_center_ajust_cons.Connection.{Policy, uses_jump_host}
use backup_center_ajust_cons.JumpHost.Slots.{LockInfo, or_number}

-- The digits of a number that has at most as many as the fuel.
abbrev digits : ℕ → ℕ → Text
digits zero n = []
digits (suc fuel) n = elim (ltb n 10) [
  | true ↦ (48 + n) ∷ []
  | false ↦ digits fuel (n / 10) ++ (48 + n % 10) ∷ []
]

-- `str(port)`; a port has five digits at most
unfoldable pub show_port : ℕ → Text
show_port port = digits 5 port

-- The group of a device; a missing text is empty, and a missing port is 0.
pub record Group : Type 0 where
  pub name : Text
  pub is_active : Bool
  pub connection : Connection.Group
  pub jump_host : Text
  pub jump_port : ℕ

pub record Device : Type 0 where
  pub name : Text
  pub is_active : Bool
  pub connection : Connection.Device
  pub group : Option Group
  pub ip_address : Text

-- `int(getattr(group, "jump_port", 22) or 22)`
abbrev pub port_of : Group → ℕ
port_of g = or_number g.jump_port 22

abbrev pub goes_by_jump_host : Policy → Group → Device → Bool
goes_by_jump_host policy g d = uses_jump_host policy (some g.connection) (some d.connection)

-- The entry `jump_host` of `_resolve_device_observability_context`, by which the breaker knows the
-- jump host.
unfoldable pub breaker_label : Policy → Option Device → Text
unfolding show_port
breaker_label policy none = codes "direct"
breaker_label policy (some d) = elim d.group [
  | none ↦ codes "direct"
  | some g ↦
      if goes_by_jump_host policy g d && not (is_empty g.jump_host)
      then g.jump_host ++ 58 ∷ show_port (port_of g)
      else codes "direct"
]

-- The refusals of `_validate_device_execution_allowed`, with their message and category.
pub data Gate : Type 0 where
  allowed : Gate
  blocked : Text → Text → Gate

abbrev group_name : Group → Text
group_name g = if is_empty g.name then codes "Sem grupo" else g.name

-- `_validate_device_execution_allowed`
unfoldable pub validate : Option Device → Gate
validate none = blocked (codes "Dispositivo nao encontrado.") (codes "device_not_found")
validate (some d) =
    if not d.is_active
    then blocked (codes "Dispositivo inativo. Backup bloqueado.") (codes "device_inactive")
    else elim d.group [
      | none ↦ allowed
      | some g ↦
          if g.is_active
          then allowed
          else blocked
              (codes "Grupo \"" ++ group_name g ++ codes "\" esta inativo. Backup bloqueado.")
              (codes "group_inactive")
    ]

-- `_resolve_jump_host_lock`, with the setting `JUMP_HOST_MAX_SLOTS`: the label and the slots
unfoldable pub resolve_lock : ℕ → Policy → Option Device → Option LockInfo
unfolding show_port strip normalize text_eq
resolve_lock slots policy none = none
resolve_lock slots policy (some d) = elim d.group [
  | none ↦ none
  | some g ↦
      let host = strip g.jump_host in
      let target = normalize d.ip_address in
      if not (goes_by_jump_host policy g d)
      then none
      else if is_empty host
      then none
      else if not (is_empty target) && text_eq target (normalize host)
      then none
      else some (record {
        label = host ++ 58 ∷ show_port (port_of g);
        base_slots = slots;
        max_slots = slots;
      })
]

-- `_is_global_backup_stop_enabled`
unfoldable pub is_force_stopped : (redis : Redis) → Bool → redis.State → Bool
unfolding strip text_eq
is_force_stopped redis connected s =
    connected && text_eq (strip (get_or (redis.get force_stop s) [])) (codes "1")
