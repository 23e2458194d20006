-- ===== src/Batch/Phases/Steps.antt =====
-- The two tasks of the phases after the direct one, and their composition: the second is the callback of
-- the groups that the first has queued. A flag says what `_should_stop_now` answers.
use backup_center_ajust_cons.Base.{
  ℕ, ◌+◌, Bool, not, List, [], ◌∷◌, ◌++◌, map, Option, none, some, if◌then◌else◌, ltb, length,
  filter,
}
use backup_center_ajust_cons.Text.{Text, is_empty, text_eq}
use backup_center_ajust_cons.Text.Dict.{Dict, insert}
use backup_center_ajust_cons.Batch.Phases.{
  Item, GroupTask, Note, nothing_pending, stopped_before_jump, stopped_before_vpn, jump_started,
  vpn_started, running, stopping, BatchMeta, World, meta_of, set_meta, note, for_bulk, jump_tasks,
  vpn_tasks,
}

-- `list(dict.fromkeys(…))`
unfoldable pub unique : List Text → List Text
unfolding text_eq
unique [] = []
unique (s ∷ ss) = s ∷ filter (λ t. not (text_eq t s)) (unique ss)

unfoldable pub add_counts : List GroupTask → Dict ℕ → Dict ℕ
unfolding insert
add_counts [] counts = counts
add_counts (t ∷ ts) counts = add_counts ts (insert t.id (length t.device_ids) counts)

abbrev pub ids_of : List GroupTask → List Text
ids_of = map (λ (t : GroupTask). t.id)

-- The children of a batch with new ones.
unfoldable pub merged : List Text → List GroupTask → List Text
unfolding unique
merged children tasks = unique (filter (λ id. not (is_empty id)) children ++ ids_of tasks)

-- The metadata of a batch after groups were queued, with `pending` groups to come.
unfoldable pub add_children : ℕ → Note → List GroupTask → BatchMeta → BatchMeta
unfolding merged add_counts
add_children pending n tasks current =
    let children = merged current.child_task_ids tasks in
    let expected = length children + pending in
    record {
      child_task_ids = children;
      child_task_device_count = add_counts tasks current.child_task_device_count;
      total_tasks = if ltb current.total_tasks expected then expected else current.total_tasks;
      status = some running;
      message = some n;
    }

abbrev pub stop_batch : Note → Text → World → World
unfolding set_meta meta_of
stop_batch n bulk w =
    let w' = note bulk n w in
    set_meta bulk (record (meta_of bulk w') { status = some stopping; message = some n }) w'

unfoldable pub grow_batch : ℕ → Note → List GroupTask → Text → World → World
unfolding set_meta meta_of add_children
grow_batch pending n tasks bulk w =
    note bulk n (set_meta bulk (add_children pending n tasks (meta_of bulk w)) w)

abbrev pub registered_all : Option Text → List GroupTask → World → World
registered_all bulk tasks w =
    for_bulk bulk (λ b v. record v { registered = v.registered ++ tasks }) w

abbrev pub queued_all : List GroupTask → World → World
queued_all tasks w = record w { queued = w.queued ++ tasks; made = w.made + length tasks }

-- `stopped`, or the numbers of groups that were queued and that wait
pub data PhaseReport : Type 0 where
  phase_stopped : PhaseReport
  phase_queued : (jump vpn : ℕ) → PhaseReport

module _ (id_of : ℕ → Text) (tenant : Text) (bulk : Option Text) where
  -- `enqueue_vpn_groups_after_direct_phase_task`
  unfoldable pub vpn_phase : (stop : Bool) → List Item → World → PhaseReport × World
  unfolding vpn_tasks grow_batch stop_batch
  vpn_phase stop [] w = (phase_queued 0 0, for_bulk bulk (λ b v. note b nothing_pending v) w)
  vpn_phase stop (item ∷ items) w =
      if stop
      then (phase_stopped, for_bulk bulk (stop_batch stopped_before_vpn) w)
      else (let tasks = vpn_tasks id_of tenant bulk w.made (item ∷ items) in
          let w' = registered_all bulk tasks (queued_all tasks w) in
          (
            phase_queued 0 (length tasks),
            for_bulk bulk (grow_batch 0 (vpn_started (length tasks)) tasks) w',
          ))

  -- The part of the first task on the groups that it queues: with groups of the VPN, they wait for the
  -- callback.
  unfoldable pub queue_jumps :
      List Item → List GroupTask → World → (PhaseReport × World) × Option (List Item)
  unfolding grow_batch
  queue_jumps vpns tasks w =
      let n = jump_started (length tasks) (length vpns) in
      let w' = for_bulk bulk (grow_batch (length vpns) n tasks) (registered_all bulk tasks w) in
      ((phase_queued (length tasks) (length vpns), queued_all tasks w'), waiting vpns)
    where
      waiting : List Item → Option (List Item)
      waiting [] = none
      waiting (item ∷ items) = some (item ∷ items)

  unfoldable pub after_jumps :
      (stop_vpn : Bool)
      → List Item
      → List GroupTask
      → World
      → (PhaseReport × World) × Option (List Item)
  unfolding vpn_phase queue_jumps
  after_jumps stop_vpn [] [] w = ((phase_queued 0 0, w), none)
  after_jumps stop_vpn (item ∷ items) [] w = (vpn_phase stop_vpn (item ∷ items) w, none)
  after_jumps stop_vpn vpns (t ∷ ts) w = queue_jumps vpns (t ∷ ts) w

  -- `enqueue_jump_and_vpn_after_direct_phase_task`: its result, and the payload of the callback that it
  -- leaves; the second flag is for the other task, when it is run at once.
  unfoldable pub jump_phase :
      (stagger : ℕ)
      → (stop stop_vpn : Bool) → (jumps vpns : List Item) → World
      → (PhaseReport × World) × Option (List Item)
  unfolding jump_tasks vpn_phase after_jumps stop_batch
  jump_phase stagger stop stop_vpn [] vpns w = (vpn_phase stop_vpn vpns w, none)
  jump_phase stagger stop stop_vpn (item ∷ items) vpns w =
      if stop
      then ((phase_stopped, for_bulk bulk (stop_batch stopped_before_jump) w), none)
      else after_jumps stop_vpn vpns (jump_tasks id_of tenant bulk stagger 0 w.made (item ∷ items))
          w

  -- The second task on the payload that the first left for it, if it did.
  abbrev pub callback : (stop_vpn : Bool) → (PhaseReport × World) × Option (List Item) → World
  unfolding vpn_phase
  callback stop_vpn ((report, w), none) = w
  callback stop_vpn ((report, w), some items) = (vpn_phase stop_vpn items w).1

  -- Both tasks, the second as the callback of the first when it left one.
  unfoldable pub run_phases :
      (stagger : ℕ) → (stop stop_vpn : Bool) → (jumps vpns : List Item) → World → World
  unfolding jump_phase vpn_phase
  run_phases stagger stop stop_vpn jumps vpns w =
      callback stop_vpn (jump_phase stagger stop stop_vpn jumps vpns w)
