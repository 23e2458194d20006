-- ===== src/Batch/Lock/Race.antt =====
-- Two workers that ask for the lock of one tenant at the same time: each command to Redis is a step of
-- its own, and the steps of the two come in any order.
use backup_center_ajust_cons.Base.{
  ◌≡◌, ◌≢◌, refl, Bool, true, false, List, [], ◌∷◌, Option, none, some, if◌then◌else◌, ◌⊎◌,
}
use backup_center_ajust_cons.Text.{Text}
use backup_center_ajust_cons.Text.Dict.{Dict, lookup, insert, erase, lookup-erase_self}
use backup_center_ajust_cons.Batch.Lock.{Meta, holder, keeps_lock, set_new}

-- Where a worker is in `acquire_tenant_bulk_lock`: before GET, before DEL, before SET NX, or at the end
-- with its answer. The GET after a SET NX that failed only reports, and is left out.
pub data Phase : Type 0 where
  reading deleting setting : Phase
  done : Bool → Phase

pub record System : Type 0 where
  pub locks : Dict Text
  pub first : Phase
  pub second : Phase

-- Where the two workers are.
abbrev pub answers : System → Phase × Phase
answers s = (s.first, s.second)

abbrev pub after_read : Dict Meta → Option Text → Phase
after_read metas none = setting
after_read metas (some existing) = if keeps_lock metas existing then done false else deleting

-- One command of a worker of the task.
unfoldable pub step : Dict Meta → Text → Text → Phase → Dict Text → Phase × Dict Text
unfolding holder erase set_new
step metas tenant task reading locks = (after_read metas (holder tenant locks), locks)
step metas tenant task deleting locks = (setting, erase tenant locks)
step metas tenant task setting locks =
    let (ok, locks') = set_new tenant task locks in (done ok, locks')
step metas tenant task (done ok) locks = (done ok, locks)

module _ (metas : Dict Meta) (tenant a b : Text) where
  -- A step of the first worker, whose task is `a`, or of the second, whose task is `b`.
  unfoldable pub move : Bool → System → System
  unfolding step
  move true s =
      let (p, locks) = step metas tenant a s.first s.locks in record s { first = p; locks = locks }
  move false s =
      let (p, locks) = step metas tenant b s.second s.locks in
      record s { second = p; locks = locks }

  -- The steps of the two in the order of a schedule.
  unfoldable pub run : List Bool → System → System
  unfolding move
  run [] s = s
  run (who ∷ sched) s = run sched (move who s)

  -- What holds while no stale holder is met: nobody deletes, and a winner holds the lock.
  pub record IsFair (s : System) : Type 0 where
    pub first_keeps : s.first ≢ deleting
    pub second_keeps : s.second ≢ deleting
    pub first_holds : s.first ≡ done true → lookup tenant s.locks ≡ some a
    pub second_holds : s.second ≡ done true → lookup tenant s.locks ≡ some b
    pub only_ours :
        (lookup tenant s.locks ≡ none)
        ⊎ ((lookup tenant s.locks ≡ some a) ⊎ (lookup tenant s.locks ≡ some b))

  -- What a step of the worker of the task `t` does under these conditions.
  record Stepped (t : Text) (p' : Phase) (locks locks' : Dict Text) : Type 0 where
    keeps : p' ≢ deleting
    holds : p' ≡ done true → lookup tenant locks' ≡ some t
    grows :
        (lookup tenant locks' ≡ lookup tenant locks)
        ⊎ ((lookup tenant locks ≡ none) × (lookup tenant locks' ≡ some t))

  abbrev Ours : Dict Text → Type 0
  Ours locks =
      (lookup tenant locks ≡ none)
      ⊎ ((lookup tenant locks ≡ some a) ⊎ (lookup tenant locks ≡ some b))

  -- Both workers are at the start.
  abbrev pub start : Dict Text → System
  start locks = record { locks = locks; first = reading; second = reading }

  -- When the lock is held by a task whose batch is over, there is an order of the commands in which both
  -- workers get the lock: both read the stale holder, and the second deletes what the first has set.
  pub stale_race :
      (x : Text) (locks : Dict Text)
      → holder tenant locks ≡ some x
      → keeps_lock metas x ≡ false
      → (sched : List Bool) × (((run sched (start locks)).first ≡ done true)
          × ((run sched (start locks)).second ≡ done true))
  unfolding run move step set_new
  stale_race x locks h stale =
      let gone = lookup-erase_self tenant locks in
      let gone_again = lookup-erase_self tenant (insert tenant a (erase tenant locks)) in
      (
        true ∷ false ∷ true ∷ true ∷ false ∷ false ∷ [],
        (rw (h, stale, gone) refl, rw (h, stale, gone, gone_again) refl),
      )
