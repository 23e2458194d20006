-- ===== src/Scheduler/Jobs.antt =====
-- The jobs of one tenant: its devices by the way they are reached.
pub mod Routes
use backup_center_ajust_cons.Base.{
  ℕ, Bool, true, false, List, [], ◌∷◌, ◌++◌, map, Option, none, some, if◌then◌else◌,
}
use backup_center_ajust_cons.Text.{Text, text_eq}
use backup_center_ajust_cons.Text.Order.{sorted_set}
use backup_center_ajust_cons.Connection.{Policy, uses_vpn_tunnel, uses_jump_host}
use backup_center_ajust_cons.Scheduler.{DeviceRow, GroupRow}

-- A task that is queued: a device on the standard queue or on that of the jump hosts, or the devices of
-- a group on that of the VPN.
pub data Job : Type 0 where
  direct_job : Text → Job
  jump_job : Text → Job
  vpn_job : (group_id tenant_id : Text) → (device_ids : List Text) → Job

pub data Way : Type 0 where
  by_vpn : Text → Way
  by_jump : Way
  direct : Way

-- The tests of the loop over the devices of a tenant.
unfoldable pub way_of : Policy → DeviceRow → Way
unfolding uses_vpn_tunnel uses_jump_host
way_of policy d = elim d.group [
  | none ↦ direct
  | some g ↦
      if uses_vpn_tunnel policy (some g.info) (some d.info)
      then by_vpn g.id
      else (if uses_jump_host policy (some g.info) (some d.info) then by_jump else direct)
]

-- `due_vpn_by_group`, `due_jump_devices` and `due_direct_devices`
pub record Sorted : Type 0 where
  pub vpn : List (Text × List Text)
  pub jump : List Text
  pub plain : List Text

-- `due_vpn_by_group[group]["device_ids"].append(device)`
unfoldable pub add_to_group : Text → Text → List (Text × List Text) → List (Text × List Text)
unfolding text_eq
add_to_group group device [] = (group, device ∷ []) ∷ []
add_to_group group device ((g, ids) ∷ groups) =
    let rest = add_to_group group device groups in
    if text_eq g group then (g, ids ++ device ∷ []) ∷ groups else (g, ids) ∷ rest

unfoldable pub add_device : Way → Text → Sorted → Sorted
unfolding add_to_group
add_device (by_vpn group) id s = record s { vpn = add_to_group group id s.vpn }
add_device by_jump id s = record s { jump = s.jump ++ id ∷ [] }
add_device direct id s = record s { plain = s.plain ++ id ∷ [] }

unfoldable pub sort_devices : Policy → List DeviceRow → Sorted → Sorted
unfolding add_device way_of
sort_devices policy [] s = s
sort_devices policy (d ∷ devices) s =
    sort_devices policy devices (add_device (way_of policy d) d.id s)

abbrev pub nothing_sorted : Sorted
nothing_sorted = record { vpn = []; jump = []; plain = [] }

unfoldable pub vpn_jobs : Text → List (Text × List Text) → List Job
unfolding sorted_set
vpn_jobs tenant [] = []
vpn_jobs tenant ((g, ids) ∷ groups) = vpn_job g tenant (sorted_set ids) ∷ vpn_jobs tenant groups

-- The tasks that are queued for the devices of a tenant, in their order.
unfoldable pub jobs_of : Policy → Text → List DeviceRow → List Job
unfolding sort_devices vpn_jobs
jobs_of policy tenant devices =
    let s = sort_devices policy devices nothing_sorted in
    map direct_job s.plain ++ (map jump_job s.jump ++ vpn_jobs tenant s.vpn)
