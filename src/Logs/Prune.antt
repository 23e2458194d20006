-- ===== src/Logs/Prune.antt =====
-- Entries that are too old, and the entries of a tenant, leave the global log
-- (`_prune_global_logs_by_age`, `_maybe_prune_global_logs_by_age`, `prune_global_logs` and
-- `clear_tenant_global_logs` of app/services/realtime_backup_logs.py).
pub mod Agree
use backup_center_ajust_cons.Base.{
  ℕ, suc, ◌+◌, Bool, true, false, List, [], ◌∷◌, Option, none, some, if◌then◌else◌, ltb, get_or,
}
use backup_center_ajust_cons.Text.{Text, text_eq, is_empty}
use backup_center_ajust_cons.Logs.{
  Stamp, unreadable, naive, moment, Entry, Raw, junk, other, object, State,
}

-- What the age of an entry means: it goes, it stays, or reading it raises (`get` of a value that is
-- no dict, a comparison of a timestamp without a zone with one that has a zone).
pub data Age : Type 0 where
  gone : Age
  fresh : Age
  raises : Age

unfoldable pub age_of_stamp : ℕ → Stamp → Age
age_of_stamp cutoff unreadable = gone
age_of_stamp cutoff naive = raises
age_of_stamp cutoff (moment t) = if ltb t cutoff then gone else fresh

unfoldable pub age_of : ℕ → Raw → Age
unfolding age_of_stamp
age_of cutoff junk = gone
age_of cutoff other = raises
age_of cutoff (object e) = age_of_stamp cutoff e.stamp

pub record Pruned : Type 0 where
  pub raised : Bool
  pub removed : ℕ
  pub rest : List Raw

unfoldable pub with_removed : Pruned → Pruned
with_removed p = record p { removed = suc p.removed }

-- `_prune_global_logs_by_age`: the loop of LINDEX 0 and LPOP
unfoldable pub prune_head : ℕ → List Raw → Pruned
prune_head cutoff [] = record { raised = false; removed = 0; rest = [] }
prune_head cutoff (raw ∷ log) =
    let more = with_removed (prune_head cutoff log) in
    elim (age_of cutoff raw) [
      | gone ↦ more
      | fresh ↦ record { raised = false; removed = 0; rest = raw ∷ log }
      | raises ↦ record { raised = true; removed = 0; rest = raw ∷ log }
    ]

-- `_maybe_prune_global_logs_by_age` at the monotonic time `mono`; the error that it may raise is
-- caught by the caller
unfoldable pub maybe_prune : (interval mono cutoff : ℕ) → State → State
unfolding prune_head
maybe_prune interval mono cutoff s =
    if ltb mono s.prune_until
    then s
    else (let p = prune_head cutoff s.global in
        if p.raised
        then record s { global = p.rest }
        else record s { global = p.rest; prune_until = mono + interval })

-- The loop of `prune_global_logs`: how many go and which are kept; none when an error is raised.
unfoldable pub sift : ℕ → List Raw → Option (ℕ × List Raw)
sift cutoff [] = some (0, [])
sift cutoff (raw ∷ log) = elim (age_of cutoff raw) [
  | raises ↦ none
  | gone ↦ elim (sift cutoff log) [ none ↦ none | some (n, keep) ↦ some (n + 1, keep) ]
  | fresh ↦ elim (sift cutoff log) [ none ↦ none | some (n, keep) ↦ some (n, raw ∷ keep) ]
]

-- `prune_global_logs`: what it returns, none for an error, and the log
unfoldable pub prune_all : Bool → (cutoff : ℕ) → List Raw → Option ℕ × List Raw
unfolding sift
prune_all dry_run cutoff log = elim (sift cutoff log) [
  | none ↦ (none, log)
  | some (n, keep) ↦ (some n, if dry_run then log else keep)
]

-- `str(item.get("tenant_id") or "")`
abbrev pub tenant_text : Entry → Text
tenant_text e = get_or e.tenant_id []

-- The loop of `clear_tenant_global_logs`; none when an error is raised.
unfoldable pub sift_tenant : Text → List Raw → Option (ℕ × List Raw)
unfolding text_eq
sift_tenant tenant [] = some (0, [])
sift_tenant tenant (junk ∷ log) = elim (sift_tenant tenant log) [
  | none ↦ none
  | some (n, kept) ↦ some (n, junk ∷ kept)
]
sift_tenant tenant (other ∷ log) = none
sift_tenant tenant (object e ∷ log) = elim (sift_tenant tenant log) [
  | none ↦ none
  | some (n, kept) ↦
      if text_eq (tenant_text e) tenant then some (n + 1, kept) else some (n, object e ∷ kept)
]

-- `clear_tenant_global_logs` on a connected client: what it returns, none for an error, and the log
unfoldable pub clear_tenant : Text → List Raw → Option ℕ × List Raw
unfolding sift_tenant
clear_tenant tenant log =
    if is_empty tenant
    then (some 0, log)
    else elim (sift_tenant tenant log) [ none ↦ (none, log) | some (n, kept) ↦ (some n, kept) ]
