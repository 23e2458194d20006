-- ===== src/Text/Dict.antt =====
-- A Python dict keyed by texts, in insertion order.
use backup_center_ajust_cons.Base.{
  ◌≡◌, false, List, [], ◌∷◌, Option, none, some, if◌then◌else◌, inl, inr, refl, Bool-cases,
}
use backup_center_ajust_cons.Text.{Text, text_eq}
use backup_center_ajust_cons.Text.Laws.{text_eq_refl, text_eq_iff}

abbrev pub Dict {ℓ} : Type ℓ → Type ℓ
Dict V = List (Text × V)

module _ {ℓ} {V : Type ℓ} where
  -- `d.get(k)`
  unfoldable pub lookup : Text → Dict V → Option V
  unfolding text_eq
  lookup k [] = none
  lookup k ((j, v) ∷ d) = if text_eq k j then some v else lookup k d

  -- `d[k] = v`
  unfoldable pub insert : Text → V → Dict V → Dict V
  unfolding text_eq
  insert k v [] = (k, v) ∷ []
  insert k v ((j, w) ∷ d) = if text_eq k j then (k, v) ∷ d else (j, w) ∷ insert k v d

  pub lookup-insert_self : (k : Text) (v : V) (d : Dict V) → lookup k (insert k v d) ≡ some v
  unfolding lookup insert
  lookup-insert_self k v [] = rw (text_eq_refl k)
  lookup-insert_self k v ((j, w) ∷ d) = elim (Bool-cases (text_eq k j)) [
    | inl e ↦ rw e (rw (text_eq_refl k))
    | inr e ↦ rw e (rw e (lookup-insert_self k v d))
  ]

  pub lookup-insert_ne :
      (j k : Text) (v : V) (d : Dict V) → text_eq j k ≡ false → lookup j (insert k v d) ≡ lookup j d
  unfolding lookup insert
  lookup-insert_ne j k v [] h = rw h
  lookup-insert_ne j k v ((i, w) ∷ d) h = elim (Bool-cases (text_eq k i)) [
    | inl e ↦ rw e (rw (h, ← (text_eq_iff k i).0 e, h))
    | inr e ↦ rw e (elim (Bool-cases (text_eq j i)) [
      | inl q ↦ rw q
      | inr q ↦ rw q (lookup-insert_ne j k v d h)
    ])
  ]

  -- `del d[k]`, if it is there
  unfoldable pub erase : Text → Dict V → Dict V
  unfolding text_eq
  erase k [] = []
  erase k ((j, v) ∷ d) = let rest = erase k d in if text_eq k j then rest else (j, v) ∷ rest

  pub lookup-erase_self : (k : Text) (d : Dict V) → lookup k (erase k d) ≡ none
  unfolding lookup erase
  lookup-erase_self k [] = refl
  lookup-erase_self k ((j, v) ∷ d) = elim (Bool-cases (text_eq k j)) [
    | inl e ↦ rw e (lookup-erase_self k d)
    | inr e ↦ rw e (rw e (lookup-erase_self k d))
  ]
