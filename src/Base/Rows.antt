-- ===== src/Base/Rows.antt =====
-- A table as the list of its rows: the first row with a key, and its replacement.
use mathlib.Core.Path.{◌≡◌, sym, ap, ◌∙◌}
use mathlib.Core.Bool.{Bool, true, false≢true}
use mathlib.Core.Option.{Option, none, some}
use mathlib.Core.List.{List, [], ◌∷◌}
use mathlib.Core.Logic.{inl, inr}
use native.Mathlib.Omega.{arith}
use backup_center_ajust_cons.Base.Test.{if◌then◌else◌, Bool-cases}

module _ {ℓ} {A : Type ℓ} where
  -- The first row that passes the test.
  unfoldable pub find : (A → Bool) → List A → Option A
  find p [] = none
  find p (a ∷ rows) = let rest = find p rows in if p a then some a else rest

  -- Replaces the first row that passes the test.
  unfoldable pub replace : (A → Bool) → A → List A → List A
  replace p b [] = []
  replace p b (a ∷ rows) = let rest = replace p b rows in if p a then b ∷ rows else a ∷ rest

  pub find-replace :
      (p : A → Bool) (a b : A) (rows : List A)
      → find p rows ≡ some a
      → p b ≡ true
      → find p (replace p b rows) ≡ some b
  unfolding find replace
  find-replace p a b [] h ok = cc
  find-replace p a b (r ∷ rows) h ok = elim (Bool-cases (p r)) [
    | inl e ↦ rw e (rw ok)
    | inr e ↦ rw e (rw e (find-replace p a b rows (rw e at h) ok))
  ]

  pub find_passes : (p : A → Bool) (a : A) (rows : List A) → find p rows ≡ some a → p a ≡ true
  unfolding find
  find_passes p a [] h = cc
  find_passes p a (r ∷ rows) h = ground (arith, find_passes p a rows)

  -- The row that is replaced by its own key is the one that another key finds, if both find it.
  pub find-replace_both :
      (p q : A → Bool) (a b : A) (rows : List A)
      → find p rows ≡ some a
      → find q rows ≡ some a
      → p a ≡ true
      → q a ≡ true
      → q b ≡ true
      → find q (replace p b rows) ≡ some b
  unfolding find replace
  find-replace_both p q a b [] h k pa qa qb = cc
  find-replace_both p q a b (r ∷ rows) h k pa qa qb = elim (Bool-cases (p r)) [
    | inl e ↦ rw e (rw qb)
    | inr e ↦ elim (Bool-cases (q r)) [
      | inl f ↦
          let same : r ≡ a = ground (arith, k, f) in absurd (false≢true (sym e ∙ ap p same ∙ pa))
      | inr f ↦ rw e (rw f (find-replace_both p q a b rows (rw e at h) (rw f at k) pa qa qb))
    ]
  ]
