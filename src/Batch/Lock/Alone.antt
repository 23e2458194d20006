-- ===== src/Batch/Lock/Alone.antt =====
-- The lock when one worker asks at a time.
use backup_center_ajust_cons.Base.{
  ◌≡◌, refl, ap, ◌∙◌, Bool, true, false, Option, none, some, Bool-cases, Option-cases, inl, inr,
}
use backup_center_ajust_cons.Text.{Text, is_empty}
use backup_center_ajust_cons.Text.Dict.{Dict, lookup, erase, lookup-insert_self}
use backup_center_ajust_cons.Batch.Lock.{Store, holder, keeps_lock, set_new, take, contend, acquire}
use backup_center_ajust_cons.Batch.Lock.Race.{done, System, step}

acquire_step :
    (tenant task : Text) (s : Store)
    → is_empty tenant ≡ false
    → is_empty task ≡ false
    → acquire true true tenant task s ≡ contend tenant task s (holder tenant s.locks)
unfolding acquire
acquire_step tenant task s t k = rw (t, k) refl

-- The answer of the steps and of the function, and the locks that they leave.
abbrev Agrees : System → (Bool × Option Text) × Store → Type 0
Agrees s r = (s.first ≡ done r.0.0) × (s.locks ≡ r.1.locks)

take_wins :
    (tenant a : Text) (s : Store)
    → (take tenant a s).0.0 ≡ true
    → (lookup tenant (take tenant a s).1.locks ≡ some a) × ((take tenant a s).1.metas ≡ s.metas)
unfolding take set_new
take_wins tenant a s h = elim (Option-cases (lookup tenant s.locks)) [
  | inl e ↦ rw e (lookup-insert_self tenant a s.locks, refl)
  | inr (x, e) ↦ cc (rw e at h)
]

contend_wins :
    (tenant a : Text) (s : Store) (o : Option Text)
    → (contend tenant a s o).0.0 ≡ true
    → (lookup tenant (contend tenant a s o).1.locks ≡ some a)
      × ((contend tenant a s o).1.metas ≡ s.metas)
unfolding contend
contend_wins tenant a s none h = take_wins tenant a s h
contend_wins tenant a s (some x) h = elim (Bool-cases (keeps_lock s.metas x)) [
  | inl e ↦ cc (rw e at h)
  | inr e ↦ rw e (take_wins tenant a (record s { locks = erase tenant s.locks }) (rw e at h))
]

holder_of :
    (tenant a : Text) (locks : Dict Text)
    → is_empty a ≡ false
    → lookup tenant locks ≡ some a
    → holder tenant locks ≡ some a
unfolding holder
holder_of tenant a locks k h = rw (holder, h, k) refl

held :
    (tenant a b : Text) (s : Store)
    → is_empty tenant ≡ false
    → is_empty a ≡ false
    → is_empty b ≡ false
    → lookup tenant s.locks ≡ some a
    → keeps_lock s.metas a ≡ true
    → acquire true true tenant b s ≡ ((false, some a), s)
unfolding contend
held tenant a b s t ka kb h k =
    rw (acquire_step tenant b s t kb, holder_of tenant a s.locks ka h, k) refl

-- With the lock switched on, a connected client and ids that are not empty: once a task has got
-- the lock of its tenant, another task of the tenant is refused, is told the task that holds it,
-- and changes nothing, while the metadata of the first is missing or says that its batch runs.
pub acquire_excludes :
    (tenant a b : Text) (s : Store)
    → is_empty tenant ≡ false
    → is_empty a ≡ false
    → is_empty b ≡ false
    → keeps_lock s.metas a ≡ true
    → (acquire true true tenant a s).0.0 ≡ true
    → let s' = (acquire true true tenant a s).1 in
      acquire true true tenant b s' ≡ ((false, some a), s')
acquire_excludes tenant a b s t ka kb k h =
    let step = acquire_step tenant a s t ka in
    let (mine, same) = contend_wins tenant a s (holder tenant s.locks) (rw step at h) in
    rw step (
      held tenant a b (contend tenant a s (holder tenant s.locks)).1 t ka kb mine
        (ap (λ ms. keeps_lock ms a) same ∙ k))
