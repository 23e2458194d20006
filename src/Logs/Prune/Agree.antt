-- ===== src/Logs/Prune/Agree.antt =====
-- What pruning and clearing take out of the global log, and what they leave.
use backup_center_ajust_cons.Base.{
  ℕ, ◌+◌, ◌≤◌, ◌≡◌, refl, inl, inr, Bool, true, false, not, List, [], ◌∷◌, ◌++◌, some, arith, ltb,
  if◌then◌else◌, filter, length, Option-cases,
}
use backup_center_ajust_cons.Base.Slice.{drop}
use backup_center_ajust_cons.Text.{Text, text_eq}
use backup_center_ajust_cons.Logs.{moment, Entry, Raw, junk, other, object}
use backup_center_ajust_cons.Logs.Prune.{
  gone, fresh, raises, age_of, age_of_stamp, with_removed, prune_head, sift, prune_all, tenant_text,
  sift_tenant,
}

-- The moments in a log do not go back, from the first one on.
abbrev pub Timed : ℕ → List Raw → Type 0
Timed t [] = Unit
Timed t (raw ∷ log) =
    (e : Entry) × (u : ℕ) × (raw ≡ object e) × (e.stamp ≡ moment u) × (t ≤ u) × Timed u log

age_of_moment :
    (cutoff u : ℕ) (e : Entry)
    → e.stamp ≡ moment u
    → age_of cutoff (object e) ≡ (if ltb u cutoff then gone else fresh)
unfolding age_of age_of_stamp
age_of_moment cutoff u e h = rw h refl

not_old : (cutoff u : ℕ) → cutoff ≤ u → ltb u cutoff ≡ false
not_old cutoff u h = ground arith

sift_fresh :
    (cutoff t : ℕ) (log : List Raw) → cutoff ≤ t → Timed t log → sift cutoff log ≡ some (0, log)
unfolding sift
sift_fresh cutoff t [] h k = refl
sift_fresh cutoff t (raw ∷ log) h (e, u, r, m, le, k) =
    ground (arith, r, age_of_moment cutoff u e m, sift_fresh cutoff u log (omega arith) k)

-- In a log whose moments do not go back, the pruning of its head raises nothing and leaves what the
-- pruning of the whole log leaves, and both count the same entries.
pub prune_head-prune_all :
    (cutoff t : ℕ) (log : List Raw)
    → Timed t log
    → ((prune_head cutoff log).raised ≡ false)
      × (prune_all false cutoff log
          ≡ (some (prune_head cutoff log).removed, (prune_head cutoff log).rest))
unfolding prune_head prune_all sift with_removed
prune_head-prune_all cutoff t [] k = (refl, refl)
prune_head-prune_all cutoff t (raw ∷ log) (e, u, r, m, le, k) = ground (
  arith,
  r,
  age_of_moment cutoff u e m,
  prune_head-prune_all cutoff u log k,
  sift_fresh cutoff u log,
)

-- The head's pruning only drops entries from the start.
pub prune_head-drop :
    (cutoff : ℕ) (log : List Raw)
    → (prune_head cutoff log).rest ≡ drop (prune_head cutoff log).removed log
unfolding prune_head with_removed
prune_head-drop cutoff [] = refl
prune_head-drop cutoff (raw ∷ log) = ground (arith, prune_head-drop cutoff log)

pub prune_head-snoc :
    (cutoff : ℕ) (log : List Raw) (raw : Raw)
    → age_of cutoff raw ≡ fresh
    → (prune_head cutoff (log ++ raw ∷ [])).rest ≡ (prune_head cutoff log).rest ++ raw ∷ []
unfolding prune_head with_removed
prune_head-snoc cutoff [] raw h = ground arith
prune_head-snoc cutoff (x ∷ log) raw h = ground (arith, prune_head-snoc cutoff log raw h)

unfoldable pub is_fresh : ℕ → Raw → Bool
is_fresh cutoff raw = elim (age_of cutoff raw) [ fresh ↦ true | gone ↦ false | raises ↦ false ]

pub sift-filter :
    (cutoff n : ℕ) (log keep : List Raw)
    → sift cutoff log ≡ some (n, keep)
    → (keep ≡ filter (is_fresh cutoff) log) × (n + length keep ≡ length log)
unfolding sift is_fresh
sift-filter cutoff n [] keep h = (ground arith, ground arith)
sift-filter cutoff n (raw ∷ log) keep h = elim (Option-cases (sift cutoff log)) [
  | inl e ↦ ground (arith, e)
  | inr (p, e) ↦ ground (arith, e, sift-filter cutoff p.0 log p.1 e)
]

unfoldable pub is_kept : Text → Raw → Bool
unfolding text_eq
is_kept tenant junk = true
is_kept tenant other = true
is_kept tenant (object e) = not (text_eq (tenant_text e) tenant)

pub sift_tenant-filter :
    (tenant : Text) (n : ℕ) (log kept : List Raw)
    → sift_tenant tenant log ≡ some (n, kept)
    → (kept ≡ filter (is_kept tenant) log) × (n + length kept ≡ length log)
unfolding sift_tenant is_kept
sift_tenant-filter tenant n [] kept h = (ground arith, ground arith)
sift_tenant-filter tenant n (junk ∷ log) kept h = elim (Option-cases (sift_tenant tenant log)) [
  | inl e' ↦ ground (arith, e')
  | inr (p, e') ↦ ground (arith, e', sift_tenant-filter tenant p.0 log p.1 e')
]
sift_tenant-filter tenant n (other ∷ log) kept h = cc
sift_tenant-filter tenant n (object e ∷ log) kept h = elim (Option-cases (sift_tenant tenant log)) [
  | inl e' ↦ ground (arith, e')
  | inr (p, e') ↦ ground (arith, e', sift_tenant-filter tenant p.0 log p.1 e')
]
