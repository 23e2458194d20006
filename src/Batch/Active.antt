-- ===== src/Batch/Active.antt =====
-- `_has_active_bulk_operation` of app/tasks/backups.py: whether a batch of backups runs, which clears the
-- locks of batches that are over on the way. The keys come in the order of the scan.
use backup_center_ajust_cons.Base.{
  ℕ, ◌-◌, ◌≡◌, refl, Bool, true, false, not, ◌||◌, List, [], ◌∷◌, Option, none, some, if◌then◌else◌,
  ltb, max, any, arith, sym, ◌∙◌,
}
use backup_center_ajust_cons.Text.{Text, codes, is_empty, normalize, mem_text}
use backup_center_ajust_cons.Text.Dict.{Dict, lookup}
use backup_center_ajust_cons.Batch.Lock.{Meta, Store}

-- What becomes of one key: its lock is cleared, the scan passes on, or a batch runs.
pub data Verdict : Type 0 where
  clear pass running : Verdict

-- The most recent of the timestamps that can be read.
abbrev pub latest_of : List ℕ → Option ℕ
latest_of [] = none
latest_of (t ∷ ts) = elim (latest_of ts) [ none ↦ some t | some u ↦ some (max t u) ]

abbrev pub is_stale : ℕ → ℕ → Option ℕ → Bool
is_stale now limit none = false
is_stale now limit (some t) = ltb limit (now - t)

abbrev pub bulk_kinds : List Text
bulk_kinds = codes "backup_bulk" ∷ codes "backup_reprocess" ∷ []

abbrev kind_of : Meta → Text
kind_of m = if is_empty m.operation_kind then codes "backup_bulk" else m.operation_kind

unfoldable pub verdict_of_meta : ℕ → ℕ → Meta → Verdict
unfolding normalize mem_text
verdict_of_meta now limit m =
    if not m.is_bulk || m.completed
    then clear
    else if not (mem_text (normalize (kind_of m)) bulk_kinds)
    then pass
    else if is_stale now limit (latest_of m.activities)
    then clear
    else running

abbrev of_meta : ℕ → ℕ → Option Meta → Verdict
unfolding verdict_of_meta
of_meta now limit none = clear
of_meta now limit (some m) = verdict_of_meta now limit m

-- The body of the loop, on the value of a key.
unfoldable pub verdict : ℕ → ℕ → Dict Meta → Text → Verdict
unfolding verdict_of_meta lookup
verdict now limit metas task =
    if is_empty task then clear else of_meta now limit (lookup task metas)

abbrev is_running : Verdict → Bool
is_running running = true
is_running v = false

abbrev is_clear : Verdict → Bool
is_clear clear = true
is_clear v = false

-- The loop over the keys: whether a batch runs, and the locks that are left.
unfoldable pub scan : ℕ → ℕ → Dict Meta → Dict Text → Bool × Dict Text
unfolding verdict
scan now limit metas [] = (false, [])
scan now limit metas ((tenant, task) ∷ locks) =
    let v = verdict now limit metas task in
    let (found, rest) = scan now limit metas locks in
    if is_running v
    then (true, (tenant, task) ∷ locks)
    else if is_clear v
    then (found, rest)
    else (found, (tenant, task) ∷ rest)

-- `_has_active_bulk_operation`
unfoldable pub has_active : Bool → ℕ → ℕ → Store → Bool × Store
unfolding scan
has_active connected now limit s =
    if connected
    then (let (found, locks) = scan now limit s.metas s.locks in
        (found, record s { locks = locks }))
    else (false, s)

-- A lock of a batch that runs.
abbrev pub runs : ℕ → ℕ → Dict Meta → Text × Text → Bool
runs now limit metas p = is_running (verdict now limit metas p.1)

scan_found :
    (now limit : ℕ) (metas : Dict Meta) (locks : Dict Text)
    → (scan now limit metas locks).0 ≡ any (runs now limit metas) locks
unfolding scan
scan_found now limit metas [] = refl
scan_found now limit metas ((t, k) ∷ locks) = ground (arith, scan_found now limit metas locks)

scan_keeps :
    (now limit : ℕ) (metas : Dict Meta) (locks : Dict Text)
    → any (runs now limit metas) (scan now limit metas locks).1 ≡ any (runs now limit metas) locks
unfolding scan
scan_keeps now limit metas [] = refl
scan_keeps now limit metas ((t, k) ∷ locks) = ground (arith, scan_keeps now limit metas locks)

-- On a connected client the test says yes exactly when some lock is held by a batch of backups that runs:
-- one whose metadata is there, is a batch, is not completed, is of a kind that backs up, and has seen
-- activity within the limit, or has no readable timestamp. The locks that it leaves give the same answer
-- at the same time, so a second test agrees with the first.
pub has_active_again :
    (now limit : ℕ) (s : Store)
    → ((has_active true now limit s).0 ≡ any (runs now limit s.metas) s.locks)
      × ((has_active true now limit (has_active true now limit s).1).0
          ≡ (has_active true now limit s).0)
unfolding has_active
has_active_again now limit s = (
  scan_found now limit s.metas s.locks,
  scan_found now limit s.metas (scan now limit s.metas s.locks).1
      ∙ (scan_keeps now limit s.metas s.locks ∙ sym (scan_found now limit s.metas s.locks)),
)
