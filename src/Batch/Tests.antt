-- ===== src/Batch/Tests.antt =====
-- The lock of a tenant's batch at concrete stores.
use backup_center_ajust_cons.Base.{◌≡◌, refl, Bool, true, false, List, [], ◌∷◌, none, some}
use backup_center_ajust_cons.Text.{Text, codes}
use backup_center_ajust_cons.Batch.Lock.{Meta, Store, acquire, keeps_lock, holder}
use backup_center_ajust_cons.Batch.Lock.Race.{done, stale_race, run, start}
use backup_center_ajust_cons.Batch.Lock.Alone.{acquire_excludes}
use backup_center_ajust_cons.Batch.Active.{has_active}

abbrev tenant : Text
tenant = codes "t1"

abbrev a : Text
a = codes "a"

abbrev b : Text
b = codes "b"

abbrev over : Meta
over = record {
  is_bulk = true;
  completed = true;
  tenant_id = tenant;
  operation_kind = [];
  activities = 100 ∷ 90 ∷ [];
}

-- The task `x` holds the lock, and its batch is over.
abbrev stale : Store
stale = record { locks = (tenant, codes "x") ∷ []; metas = (codes "x", over) ∷ [] }

taken_over : (acquire true true tenant a stale).0 ≡ (true, none)
unfolding acquire
taken_over = refl

abbrev some_order : List Bool
some_order = true ∷ false ∷ false ∷ true ∷ []

stale_race_example :
    (sched : List Bool) × (((run stale.metas tenant a b sched
          (start stale.metas tenant a b stale.locks)).first
        ≡ done true)
      × ((run stale.metas tenant a b sched (start stale.metas tenant a b stale.locks)).second
          ≡ done true))
unfolding holder keeps_lock
stale_race_example = stale_race stale.metas tenant a b (codes "x") stale.locks refl refl

acquire_excludes_example :
    let s' = (acquire true true tenant a stale).1 in
    acquire true true tenant b s' ≡ ((false, some a), s')
unfolding acquire keeps_lock
acquire_excludes_example = acquire_excludes tenant a b stale refl refl refl refl refl

abbrev busy : Store
busy = record {
  locks = (codes "t0", codes "x") ∷ (tenant, a) ∷ [];
  metas = (codes "x", over) ∷ (a, record over { completed = false }) ∷ [];
}

found : has_active true 150 60 busy ≡ (true, record busy { locks = (tenant, a) ∷ [] })
unfolding has_active
found = refl
