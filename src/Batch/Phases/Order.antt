-- ===== src/Batch/Phases/Order.antt =====
-- The order of the phases after the direct one: each group that can be queued is queued once, those of
-- the jump hosts before those of the VPN (the two callbacks of app/tasks/backups.py).
use mathlib.Core.List.{append_assoc, append-nil}
use backup_center_ajust_cons.Base.{
  ℕ, ◌+◌, ◌≡◌, refl, sym, ap, ◌∙◌, Bool, true, false, ◌&&◌, List, [], ◌∷◌, ◌++◌, map, Option, none,
  some, if◌then◌else◌, inl, inr, Bool-cases, filter,
}
use backup_center_ajust_cons.Text.{Text, is_empty}
use backup_center_ajust_cons.Text.Order.{sorted_set}
use backup_center_ajust_cons.Batch.Phases.{
  Item, Queue, jump_queue, vpn_queue, GroupTask, World, key_of, is_usable, jump_tasks, vpn_tasks,
  for_bulk,
}
use backup_center_ajust_cons.Batch.Phases.Steps.{
  queued_all, vpn_phase, queue_jumps, after_jumps, jump_phase, callback, run_phases, grow_batch,
}

-- What a task does: its queue, its group, its devices, and whether it forces the VPN.
abbrev pub Call : Type 0
Call = Queue × Text × List Text × Bool

unfoldable pub calls : List GroupTask → List Call
calls = map (λ (t : GroupTask). (t.queue, t.group_id, t.device_ids, t.force_vpn))

-- The calls for the items with a group and devices.
unfoldable pub jump_calls : List Item → List Call
jump_calls items =
    map (λ item. (jump_queue, key_of item, sorted_set item.device_ids, false))
      (filter is_usable items)

unfoldable pub vpn_calls : List Item → List Call
vpn_calls items =
    map (λ item. (vpn_queue, key_of item, sorted_set item.device_ids, item.force_vpn))
      (filter is_usable items)

abbrev pub has_items : List Item → Bool
has_items [] = false
has_items (item ∷ items) = true

calls-append : (xs ys : List GroupTask) → calls (xs ++ ys) ≡ calls xs ++ calls ys
unfolding calls
calls-append [] ys = refl
calls-append (t ∷ xs) ys =
    ap (◌∷◌ (t.queue, t.group_id, t.device_ids, t.force_vpn)) (calls-append xs ys)

for_bulk-queued :
    (bulk : Option Text) (change : Text → World → World) (w : World)
    → ((b : Text) (v : World) → (change b v).queued ≡ v.queued)
    → (for_bulk bulk change w).queued ≡ w.queued
for_bulk-queued none change w h = refl
for_bulk-queued (some bulk) change w h = elim (Bool-cases (is_empty bulk)) [
  | inl e ↦ rw e refl
  | inr e ↦ rw e (h bulk w)
]

module _ (id_of : ℕ → Text) (tenant : Text) (bulk : Option Text) where
  calls-jump_tasks :
      (stagger index made : ℕ) (items : List Item)
      → calls (jump_tasks id_of tenant bulk stagger index made items) ≡ jump_calls items
  unfolding calls jump_calls jump_tasks
  calls-jump_tasks stagger index made [] = refl
  calls-jump_tasks stagger index made (item ∷ items) = elim (Bool-cases (is_usable item)) [
    | inl e ↦ rw e (
        ap (◌∷◌ (jump_queue, key_of item, sorted_set item.device_ids, false))
          (calls-jump_tasks stagger (index + 1) (made + 1) items))
    | inr e ↦ rw e (calls-jump_tasks stagger (index + 1) made items)
  ]

  calls-vpn_tasks :
      (made : ℕ) (items : List Item)
      → calls (vpn_tasks id_of tenant bulk made items) ≡ vpn_calls items
  unfolding calls vpn_calls vpn_tasks
  calls-vpn_tasks made [] = refl
  calls-vpn_tasks made (item ∷ items) = elim (Bool-cases (is_usable item)) [
    | inl e ↦ rw e (
        ap (◌∷◌ (vpn_queue, key_of item, sorted_set item.device_ids, item.force_vpn))
          (calls-vpn_tasks (made + 1) items))
    | inr e ↦ rw e (calls-vpn_tasks made items)
  ]

  vpn_phase-calls :
      (stop : Bool) (items : List Item) (w : World)
      → calls (vpn_phase id_of tenant bulk stop items w).1.queued
        ≡ calls w.queued ++ (if stop then [] else vpn_calls items)
  unfolding vpn_phase grow_batch vpn_calls
  vpn_phase-calls true [] w =
      ap calls (for_bulk-queued bulk _ w (λ b v. refl)) ∙ sym (append-nil (calls w.queued))
  vpn_phase-calls false [] w =
      ap calls (for_bulk-queued bulk _ w (λ b v. refl)) ∙ sym (append-nil (calls w.queued))
  vpn_phase-calls true (item ∷ items) w =
      ap calls (for_bulk-queued bulk _ w (λ b v. refl)) ∙ sym (append-nil (calls w.queued))
  vpn_phase-calls false (item ∷ items) w =
      let tasks = vpn_tasks id_of tenant bulk w.made (item ∷ items) in
      ap calls (
        for_bulk-queued bulk _ _ (λ b v. refl)
        ∙ for_bulk-queued bulk _ (queued_all tasks w) (λ b v. refl))
      ∙ calls-append w.queued tasks
      ∙ ap (λ cs. calls w.queued ++ cs) (calls-vpn_tasks w.made (item ∷ items))

  queue_jumps-queued :
      (vpns : List Item) (tasks : List GroupTask) (w : World)
      → calls (queue_jumps id_of tenant bulk vpns tasks w).0.1.queued
        ≡ calls w.queued ++ calls tasks
  unfolding queue_jumps grow_batch
  queue_jumps-queued vpns tasks w =
      ap (λ ts. calls (ts ++ tasks))
        (for_bulk-queued bulk _ _ (λ b v. refl) ∙ for_bulk-queued bulk _ w (λ b v. refl))
      ∙ calls-append w.queued tasks

  after_jumps-calls :
      (stop_vpn : Bool) (vpns : List Item) (tasks : List GroupTask) (w : World)
      → calls
          (callback id_of tenant bulk stop_vpn
            (after_jumps id_of tenant bulk stop_vpn vpns tasks w)).queued
        ≡ calls w.queued ++ (calls tasks ++ (if stop_vpn then [] else vpn_calls vpns))
  unfolding after_jumps queue_jumps calls vpn_calls
  after_jumps-calls true [] [] w = sym (append-nil (calls w.queued))
  after_jumps-calls false [] [] w = sym (append-nil (calls w.queued))
  after_jumps-calls stop_vpn (item ∷ items) [] w = vpn_phase-calls stop_vpn (item ∷ items) w
  after_jumps-calls true [] (t ∷ ts) w =
      queue_jumps-queued [] (t ∷ ts) w
      ∙ ap (λ cs. calls w.queued ++ cs) (sym (append-nil (calls (t ∷ ts))))
  after_jumps-calls false [] (t ∷ ts) w =
      queue_jumps-queued [] (t ∷ ts) w
      ∙ ap (λ cs. calls w.queued ++ cs) (sym (append-nil (calls (t ∷ ts))))
  after_jumps-calls stop_vpn (item ∷ items) (t ∷ ts) w =
      vpn_phase-calls stop_vpn (item ∷ items) _
      ∙ ap (λ cs. cs ++ (if stop_vpn then [] else vpn_calls (item ∷ items)))
          (queue_jumps-queued (item ∷ items) (t ∷ ts) w)
      ∙ append_assoc (calls w.queued) (calls (t ∷ ts))
          (if stop_vpn then [] else vpn_calls (item ∷ items))

  -- What the phases after the direct one queue, whatever the payloads are: when there are groups behind
  -- jump hosts and a stop is set, nothing; otherwise those groups, in their order, and after them the
  -- groups of the VPN, unless a stop is set by then. Each group with an id and devices is queued once, with
  -- its devices sorted and without repetition.
  pub run_phases-queued :
      (stagger : ℕ) (stop stop_vpn : Bool) (jumps vpns : List Item) (w : World)
      → calls (run_phases id_of tenant bulk stagger stop stop_vpn jumps vpns w).queued
        ≡ calls w.queued
          ++ (if has_items jumps && stop
              then []
              else jump_calls jumps ++ (if stop_vpn then [] else vpn_calls vpns))
  unfolding run_phases jump_phase jump_calls
  run_phases-queued stagger stop stop_vpn [] vpns w = vpn_phase-calls stop_vpn vpns w
  run_phases-queued stagger true stop_vpn (item ∷ items) vpns w =
      ap calls (for_bulk-queued bulk _ w (λ b v. refl)) ∙ sym (append-nil (calls w.queued))
  run_phases-queued stagger false stop_vpn (item ∷ items) vpns w =
      let tasks = jump_tasks id_of tenant bulk stagger 0 w.made (item ∷ items) in
      after_jumps-calls stop_vpn vpns tasks w
      ∙ ap (λ cs. calls w.queued ++ (cs ++ (if stop_vpn then [] else vpn_calls vpns)))
          (calls-jump_tasks stagger 0 w.made (item ∷ items))
