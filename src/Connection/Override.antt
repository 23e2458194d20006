-- ===== src/Connection/Override.antt =====
-- The override in the JSON column of a device (`_normalized_device_connection_override`).
use backup_center_ajust_cons.Base.{
  ◌≡◌, refl, ap, sym, ◌∙◌, true, false, ◌||◌, Option, none, arith, inl, inr, Option-cases,
  Bool-cases,
}
use mathlib.Core.Path.{ap₂}
use backup_center_ajust_cons.Text.{codes, text_eq}
use backup_center_ajust_cons.Text.Dict.{Dict, lookup, insert, lookup-insert_ne}
use backup_center_ajust_cons.Connection.{
  Value, null, Mode, unset, jump_host, vpn, direct, mode_of, get, has, value_or_null, or_value,
  is_set, extra_override,
}

abbrev first_value : Option Value → Option Value → Value
first_value a b = or_value (value_or_null a) (value_or_null b)

abbrev pub override_value : Dict Value → Value
override_value extra =
    or_value (get (codes "connection_subgroup_type") extra)
      (get (codes "subgroup_connection_type") extra)

mode_of-null : mode_of null ≡ unset
unfolding mode_of
mode_of-null = refl

nothing_set :
    (extra : Dict Value)
    → lookup (codes "connection_subgroup_type") extra ≡ none
    → lookup (codes "subgroup_connection_type") extra ≡ none
    → is_set (mode_of (override_value extra)) ≡ true
    → ⊥
nothing_set extra e q h =
    let missing : override_value extra ≡ null = ap₂ first_value e q in
    cc (ap (λ v. is_set (mode_of v)) missing, ap is_set mode_of-null)

-- A mode that is set came from one of the two keys.
set_has :
    (extra : Dict Value)
    → is_set (mode_of (override_value extra)) ≡ true
    → (has (codes "connection_subgroup_type") extra || has (codes "subgroup_connection_type") extra)
      ≡ true
set_has extra h = elim (Option-cases (lookup (codes "connection_subgroup_type") extra)) [
  | inr (v, e) ↦ rw e
  | inl e ↦ elim (Option-cases (lookup (codes "subgroup_connection_type") extra)) [
    | inr (w, q) ↦ rw (e, q)
    | inl q ↦ elim (nothing_set extra e q h) [ ]
  ]
]

unset_of : (m : Mode) → is_set m ≡ false → m ≡ unset
unset_of unset h = refl
unset_of jump_host h = cc
unset_of vpn h = cc
unset_of direct h = cc

-- The override is the type under the first of the two keys that holds something; the flags
-- `connection_subgroup_enabled` and `subgroup_connection_enabled` play no part.
pub extra_override_lem :
    (extra : Dict Value) → extra_override extra ≡ mode_of (override_value extra)
unfolding extra_override
extra_override_lem extra = elim (Bool-cases (is_set (mode_of (override_value extra)))) [
  | inl e ↦ ground (arith, set_has extra e)
  | inr e ↦ rw e (sym (unset_of (mode_of (override_value extra)) e))
]

override_value_same :
    (d e : Dict Value)
    → lookup (codes "connection_subgroup_type") d ≡ lookup (codes "connection_subgroup_type") e
    → lookup (codes "subgroup_connection_type") d ≡ lookup (codes "subgroup_connection_type") e
    → override_value d ≡ override_value e
override_value_same d e p q = ap₂ first_value p q

override_of_same :
    (d e : Dict Value)
    → lookup (codes "connection_subgroup_type") d ≡ lookup (codes "connection_subgroup_type") e
    → lookup (codes "subgroup_connection_type") d ≡ lookup (codes "subgroup_connection_type") e
    → extra_override d ≡ extra_override e
override_of_same d e p q =
    extra_override_lem d ∙ (ap mode_of (override_value_same d e p q) ∙ sym (extra_override_lem e))

-- Setting one of the flags `connection_subgroup_enabled` and `subgroup_connection_enabled`, to
-- whatever value, does not change the override.
pub extra_override-flag :
    (v : Value) (extra : Dict Value)
    → (extra_override (insert (codes "connection_subgroup_enabled") v extra) ≡ extra_override extra)
      × (extra_override (insert (codes "subgroup_connection_enabled") v extra)
          ≡ extra_override extra)
unfolding text_eq
extra_override-flag v extra = (
  override_of_same (insert (codes "connection_subgroup_enabled") v extra) extra
      (lookup-insert_ne _ _ v extra refl) (lookup-insert_ne _ _ v extra refl),
  override_of_same (insert (codes "subgroup_connection_enabled") v extra) extra
      (lookup-insert_ne _ _ v extra refl) (lookup-insert_ne _ _ v extra refl),
)
