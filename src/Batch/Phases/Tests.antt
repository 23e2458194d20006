-- ===== src/Batch/Phases/Tests.antt =====
-- The phases of a batch at small payloads, and the theorems on them.
use backup_center_ajust_cons.Base.{
  ℕ, ◌≡◌, refl, false, true, ◌&&◌, List, [], ◌∷◌, ◌++◌, none, some, if◌then◌else◌, arith,
}
use backup_center_ajust_cons.Text.{Text, codes, is_empty}
use backup_center_ajust_cons.Batch.Phases.{
  Item, jump_queue, vpn_queue, World, meta_of, nothing_pending,
}
use backup_center_ajust_cons.Batch.Phases.Steps.{unique, run_phases}
use backup_center_ajust_cons.Batch.Phases.Order.{
  calls, jump_calls, vpn_calls, has_items, run_phases-queued,
}
use backup_center_ajust_cons.Batch.Phases.Covered.{IsCovered, Keeps, run_phases-IsCovered}

abbrev task_id : ℕ → Text
task_id n = 116 ∷ n ∷ []

abbrev item : Text → List Text → Item
item group ids = record {
  group_id = some group;
  group_name = none;
  device_ids = ids;
  force_vpn = true;
}

abbrev jumps : List Item
jumps = item (codes " j ") (codes "2" ∷ codes "1" ∷ codes "2" ∷ []) ∷ item (codes "e") [] ∷ []

abbrev vpns : List Item
vpns = item (codes "v") (codes "3" ∷ []) ∷ []

abbrev fresh : World
fresh = record { metas = []; made = 0; queued = []; registered = []; notes = [] }

abbrev batch : Text
batch = codes "b"

fresh-IsCovered : IsCovered batch fresh
unfolding meta_of
fresh-IsCovered = record { known = tt; enough = omega arith }

unique_three : unique (codes "b" ∷ codes "a" ∷ codes "b" ∷ []) ≡ codes "b" ∷ codes "a" ∷ []
unfolding unique
unique_three = refl

-- The group without devices is left out.
two_groups :
    calls (run_phases task_id (codes "t") (some batch) 5 false false jumps vpns fresh).queued
    ≡ (jump_queue, codes "j", codes "1" ∷ codes "2" ∷ [], false)
      ∷ (vpn_queue, codes "v", codes "3" ∷ [], true)
      ∷ []
unfolding run_phases calls
two_groups = refl

two_expected :
    (meta_of batch
      (run_phases task_id (codes "t") (some batch) 5 false false jumps vpns fresh)).total_tasks
    ≡ 2
unfolding run_phases meta_of
two_expected = refl

nothing_to_do :
    (run_phases task_id (codes "t") (some batch) 5 false false [] [] fresh).notes
    ≡ (batch, nothing_pending) ∷ []
unfolding run_phases
nothing_to_do = refl

run_phases-queued_example :
    calls (run_phases task_id (codes "t") (some batch) 5 false true jumps vpns fresh).queued
    ≡ calls []
      ++ (if has_items jumps && false
          then []
          else jump_calls jumps ++ (if true then [] else vpn_calls vpns))
run_phases-queued_example =
    run_phases-queued task_id (codes "t") (some batch) 5 false true jumps vpns fresh

task_id-named : (n : ℕ) → is_empty (task_id n) ≡ false
task_id-named n = refl

run_phases-IsCovered_example :
    Keeps batch fresh (run_phases task_id (codes "t") (some batch) 5 false false jumps vpns fresh)
run_phases-IsCovered_example =
    run_phases-IsCovered task_id (codes "t") batch task_id-named refl 5 false false jumps vpns fresh
      fresh-IsCovered
