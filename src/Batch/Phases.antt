-- ===== src/Batch/Phases.antt =====
-- The phases of a batch after its direct devices: the groups behind jump hosts, then those of the VPN
-- (`enqueue_jump_and_vpn_after_direct_phase_task` and `enqueue_vpn_groups_after_direct_phase_task` of
-- app/tasks/backups.py). Their log lines are notes; what they write to their own logs is left out.
pub mod Steps
pub mod Order
pub mod Children
pub mod Covered
mod Tests
use backup_center_ajust_cons.Base.{
  ℕ, ◌+◌, ◌*◌, Bool, true, false, not, ◌&&◌, List, [], ◌∷◌, ◌++◌, map, Option, none, some,
  if◌then◌else◌, get_or, ltb, length, filter,
}
use backup_center_ajust_cons.Text.{Text, codes, is_empty, strip, text_eq}
use backup_center_ajust_cons.Text.Dict.{Dict, lookup, insert}
use backup_center_ajust_cons.Text.Order.{sorted_set}

-- An item of a payload, `item or {}`; what is missing is none, false or an empty list.
pub record Item : Type 0 where
  pub group_id : Option Text
  pub group_name : Option Text
  pub device_ids : List Text
  pub force_vpn : Bool

pub data Queue : Type 0 where
  jump_queue vpn_queue : Queue

-- A call of `run_vpn_group_backups_task`, its id, and the name that it is registered with.
pub record GroupTask : Type 0 where
  pub id : Text
  pub group_id : Text
  pub tenant_id : Text
  pub device_ids : List Text
  pub bulk : Option Text
  pub force_vpn : Bool
  pub queue : Queue
  pub countdown : ℕ
  pub label : Text

pub data Note : Type 0 where
  nothing_pending : Note
  stopped_before_jump : Note
  stopped_before_vpn : Note
  jump_started : (groups pending : ℕ) → Note
  vpn_started : (groups : ℕ) → Note

pub data Status : Type 0 where
  running stopping : Status

-- What the phases read and write of the metadata of a batch.
pub record BatchMeta : Type 0 where
  pub child_task_ids : List Text
  pub child_task_device_count : Dict ℕ
  pub total_tasks : ℕ
  pub status : Option Status
  pub message : Option Note

-- The metadata, the number of ids that were made, and the tasks and notes in their order; `registered`
-- are the tasks of `register_task`.
pub record World : Type 0 where
  pub metas : Dict BatchMeta
  pub made : ℕ
  pub queued : List GroupTask
  pub registered : List GroupTask
  pub notes : List (Text × Note)

abbrev pub blank_meta : BatchMeta
blank_meta = record {
  child_task_ids = [];
  child_task_device_count = [];
  total_tasks = 0;
  status = none;
  message = none;
}

-- `get_task_meta(bulk_task_id) or {}`
unfoldable pub meta_of : Text → World → BatchMeta
unfolding lookup
meta_of bulk w = get_or (lookup bulk w.metas) blank_meta

-- `update_task_meta`
unfoldable pub set_meta : Text → BatchMeta → World → World
unfolding insert
set_meta bulk meta w = record w { metas = insert bulk meta w.metas }

abbrev pub note : Text → Note → World → World
note bulk n w = record w { notes = w.notes ++ (bulk, n) ∷ [] }

-- `if bulk_task_id`
abbrev pub for_bulk : Option Text → (Text → World → World) → World → World
for_bulk none change w = w
for_bulk (some bulk) change w = if is_empty bulk then w else change bulk w

abbrev pub bulk_arg : Option Text → Option Text
bulk_arg none = none
bulk_arg (some bulk) = if is_empty bulk then none else some bulk

abbrev pub key_of : Item → Text
unfolding strip
key_of item = strip (get_or item.group_id [])

abbrev has_any : List Text → Bool
has_any [] = false
has_any (s ∷ ss) = true

-- `if not group_id or not device_ids: continue`
unfoldable pub is_usable : Item → Bool
unfolding sorted_set strip
is_usable item = not (is_empty (key_of item)) && has_any (sorted_set item.device_ids)

abbrev or_else : Option Text → Text → Text
or_else none t = t
or_else (some s) t = if is_empty s then t else s

unfoldable pub jump_label : Item → Text
unfolding strip
jump_label item =
    codes "Grupo Jump Host "
    ++ strip (or_else item.group_name (or_else (some (key_of item)) (codes "Grupo Jump Host")))

module _ (id_of : ℕ → Text) (tenant : Text) (bulk : Option Text) where
  unfoldable pub jump_task : (stagger index made : ℕ) → Item → GroupTask
  unfolding jump_label sorted_set
  jump_task stagger index made item = record {
    id = id_of made;
    group_id = key_of item;
    tenant_id = tenant;
    device_ids = sorted_set item.device_ids;
    bulk = bulk_arg bulk;
    force_vpn = false;
    queue = jump_queue;
    countdown = index * stagger;
    label = jump_label item;
  }

  unfoldable pub vpn_task : ℕ → Item → GroupTask
  unfolding sorted_set
  vpn_task made item = record {
    id = id_of made;
    group_id = key_of item;
    tenant_id = tenant;
    device_ids = sorted_set item.device_ids;
    bulk = bulk_arg bulk;
    force_vpn = item.force_vpn;
    queue = vpn_queue;
    countdown = 0;
    label = codes "Grupo VPN " ++ key_of item;
  }

  -- The loop over the groups behind jump hosts; `index` is `group_idx - 1`.
  unfoldable pub jump_tasks : (stagger index made : ℕ) → List Item → List GroupTask
  unfolding jump_task is_usable
  jump_tasks stagger index made [] = []
  jump_tasks stagger index made (item ∷ items) =
      let next = if is_usable item then made + 1 else made in
      let rest = jump_tasks stagger (index + 1) next items in
      if is_usable item then jump_task stagger index made item ∷ rest else rest

  -- The loop over the groups of the VPN.
  unfoldable pub vpn_tasks : ℕ → List Item → List GroupTask
  unfolding vpn_task is_usable
  vpn_tasks made [] = []
  vpn_tasks made (item ∷ items) =
      let next = if is_usable item then made + 1 else made in
      let rest = vpn_tasks next items in if is_usable item then vpn_task made item ∷ rest else rest
