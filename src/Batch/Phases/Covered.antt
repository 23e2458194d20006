-- ===== src/Batch/Phases/Covered.antt =====
-- The metadata of a batch in the phases after the direct one: it knows every group that was queued
-- (the two callbacks of app/tasks/backups.py).
use backup_center_ajust_cons.Base.{
  ℕ, ◌+◌, ◌≤◌, ◌≡◌, refl, Bool, true, false, List, [], ◌∷◌, ◌++◌, some, inl, inr, arith, Bool-cases,
  All, length,
}
use backup_center_ajust_cons.Text.{Text, is_empty}
use backup_center_ajust_cons.Text.Dict.{lookup-insert_self}
use backup_center_ajust_cons.Batch.Phases.{
  Item, GroupTask, Note, BatchMeta, World, stopping, stopped_before_vpn, stopped_before_jump,
  vpn_started, jump_started, note, meta_of, set_meta, for_bulk, is_usable, jump_task, vpn_task,
  jump_tasks, vpn_tasks,
}
use backup_center_ajust_cons.Batch.Phases.Steps.{
  add_children, stop_batch, grow_batch, queued_all, registered_all, vpn_phase, queue_jumps,
  after_jumps, jump_phase, callback, run_phases,
}
use backup_center_ajust_cons.Batch.Phases.Children.{IsChild, Named, add_children_lem}

-- The batch knows every task that was queued, and expects at least as many tasks as it knows.
pub record IsCovered (bulk : Text) (w : World) : Type 0 where
  pub known : All (IsChild (meta_of bulk w).child_task_ids) w.queued
  pub enough : length (meta_of bulk w).child_task_ids ≤ (meta_of bulk w).total_tasks

meta_of-set_meta : (bulk : Text) (m : BatchMeta) (w : World) → meta_of bulk (set_meta bulk m w) ≡ m
unfolding meta_of set_meta
meta_of-set_meta bulk m w = rw (lookup-insert_self bulk m w.metas) refl

abbrev with_tasks : List GroupTask → World → World
with_tasks tasks w = record w { registered = w.registered ++ tasks }

-- What the phases keep of a batch.
abbrev pub Keeps : Text → World → World → Type 0
Keeps bulk w w' = IsCovered bulk w' × ((meta_of bulk w).total_tasks ≤ (meta_of bulk w').total_tasks)

module _ (id_of : ℕ → Text) (tenant bulk : Text) (named : (n : ℕ) → is_empty (id_of n) ≡ false)
    (e : is_empty bulk ≡ false) where
  vpn_tasks-Named :
      (made : ℕ) (items : List Item) → All Named (vpn_tasks id_of tenant (some bulk) made items)
  unfolding vpn_tasks vpn_task
  vpn_tasks-Named made [] = tt
  vpn_tasks-Named made (item ∷ items) = elim (Bool-cases (is_usable item)) [
    | inl u ↦ rw u (named made, vpn_tasks-Named (made + 1) items)
    | inr u ↦ rw u (vpn_tasks-Named made items)
  ]

  jump_tasks-Named :
      (stagger index made : ℕ) (items : List Item)
      → All Named (jump_tasks id_of tenant (some bulk) stagger index made items)
  unfolding jump_tasks jump_task
  jump_tasks-Named stagger index made [] = tt
  jump_tasks-Named stagger index made (item ∷ items) = elim (Bool-cases (is_usable item)) [
    | inl u ↦ rw u (named made, jump_tasks-Named stagger (index + 1) (made + 1) items)
    | inr u ↦ rw u (jump_tasks-Named stagger (index + 1) made items)
  ]

  stop_batch-Keeps : (n : Note) (w : World) → IsCovered bulk w → Keeps bulk w (stop_batch n bulk w)
  unfolding set_meta meta_of
  stop_batch-Keeps n w c =
      let same =
        meta_of-set_meta bulk (record (meta_of bulk w) { status = some stopping; message = some n })
          (note bulk n w) in
      rw same (record { known = rw same c.known; enough = rw same c.enough }, omega arith)

  grow_batch-Grown :
      (pending : ℕ) (n : Note) (olds tasks : List GroupTask) (w : World)
      → All (IsChild (meta_of bulk w).child_task_ids) olds
      → All Named tasks
      → let after = meta_of bulk (grow_batch pending n tasks bulk w) in
        All (IsChild after.child_task_ids) (olds ++ tasks)
        × (length after.child_task_ids + pending ≤ after.total_tasks)
        × ((meta_of bulk w).total_tasks ≤ after.total_tasks)
  unfolding grow_batch meta_of
  grow_batch-Grown pending n olds tasks w k h =
      rw (meta_of-set_meta bulk (add_children pending n tasks (meta_of bulk w)) w)
        (add_children_lem pending n olds tasks (meta_of bulk w) k h)

  grown-Keeps :
      (n : Note) (tasks : List GroupTask) (w : World)
      → IsCovered bulk w
      → All Named tasks
      → Keeps bulk w (
          for_bulk
            (some bulk)
            (grow_batch 0 n tasks)
            (registered_all (some bulk) tasks (queued_all tasks w)))
  unfolding grow_batch meta_of
  grown-Keeps n tasks w c h =
      let (known, enough, more) =
        grow_batch-Grown 0 n w.queued tasks (with_tasks tasks (queued_all tasks w)) c.known h in
      rw e (record { known = known; enough = omega (arith, enough) }, more)

  vpn_phase-Keeps :
      (stop : Bool) (items : List Item) (w : World)
      → IsCovered bulk w
      → Keeps bulk w (vpn_phase id_of tenant (some bulk) stop items w).1
  unfolding vpn_phase meta_of
  vpn_phase-Keeps stop [] w c = rw e (record { known = c.known; enough = c.enough }, omega arith)
  vpn_phase-Keeps true (item ∷ items) w c = rw e (stop_batch-Keeps stopped_before_vpn w c)
  vpn_phase-Keeps false (item ∷ items) w c =
      let tasks = vpn_tasks id_of tenant (some bulk) w.made (item ∷ items) in
      grown-Keeps (vpn_started (length tasks)) tasks w c (vpn_tasks-Named w.made (item ∷ items))

  queue_jumps-Keeps :
      (vpns : List Item) (tasks : List GroupTask) (w : World)
      → IsCovered bulk w
      → All Named tasks
      → let w' = (queue_jumps id_of tenant (some bulk) vpns tasks w).0.1 in
        Keeps bulk w w'
        × (length (meta_of bulk w').child_task_ids + length vpns ≤ (meta_of bulk w').total_tasks)
  unfolding queue_jumps meta_of
  queue_jumps-Keeps vpns tasks w c h =
      let (known, enough, more) =
        grow_batch-Grown (length vpns) (jump_started (length tasks) (length vpns)) w.queued tasks
          (with_tasks tasks w) c.known h in
      rw e ((record { known = known; enough = omega (arith, enough) }, more), enough)

  Keeps-trans : (u v w : World) → Keeps bulk u v → Keeps bulk v w → Keeps bulk u w
  Keeps-trans u v w (c, h) (d, k) = (d, omega arith)

  after_jumps-Keeps :
      (stop_vpn : Bool) (vpns : List Item) (tasks : List GroupTask) (w : World)
      → IsCovered bulk w
      → All Named tasks
      → Keeps bulk w (
          callback id_of tenant
            (some bulk)
            stop_vpn
            (after_jumps id_of tenant (some bulk) stop_vpn vpns tasks w))
  unfolding after_jumps queue_jumps
  after_jumps-Keeps stop_vpn [] [] w c h = (c, omega arith)
  after_jumps-Keeps stop_vpn (item ∷ items) [] w c h = vpn_phase-Keeps stop_vpn (item ∷ items) w c
  after_jumps-Keeps stop_vpn [] (t ∷ ts) w c h = (queue_jumps-Keeps [] (t ∷ ts) w c h).0
  after_jumps-Keeps stop_vpn (item ∷ items) (t ∷ ts) w c h =
      let first = (queue_jumps-Keeps (item ∷ items) (t ∷ ts) w c h).0 in
      Keeps-trans w (queue_jumps id_of tenant (some bulk) (item ∷ items) (t ∷ ts) w).0.1 _ first
        (vpn_phase-Keeps stop_vpn (item ∷ items) _ first.0)

  -- In the phases after the direct one the metadata of the batch knows every group task that was queued,
  -- and expects at least as many tasks as it knows; the number that it expects never falls. Stops and
  -- payloads may be any; before the phases the metadata is in order, and the ids of tasks and of the
  -- batch are no empty texts.
  pub run_phases-IsCovered :
      (stagger : ℕ) (stop stop_vpn : Bool) (jumps vpns : List Item) (w : World)
      → IsCovered bulk w
      → Keeps bulk w (run_phases id_of tenant (some bulk) stagger stop stop_vpn jumps vpns w)
  unfolding run_phases jump_phase
  run_phases-IsCovered stagger stop stop_vpn [] vpns w c = vpn_phase-Keeps stop_vpn vpns w c
  run_phases-IsCovered stagger true stop_vpn (item ∷ items) vpns w c =
      rw e (stop_batch-Keeps stopped_before_jump w c)
  run_phases-IsCovered stagger false stop_vpn (item ∷ items) vpns w c =
      after_jumps-Keeps stop_vpn vpns
        (jump_tasks id_of tenant (some bulk) stagger 0 w.made (item ∷ items)) w c
        (jump_tasks-Named stagger 0 w.made (item ∷ items))
