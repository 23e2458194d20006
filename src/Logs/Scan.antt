-- ===== src/Logs/Scan.antt =====
-- The entries that a page asks for (`_scan_recent_entries`, `get_task_logs` and `get_global_logs` of
-- app/services/realtime_backup_logs.py): the log is read from its end, chunk by chunk. No entry is
-- written while it is read.
pub mod Whole
pub mod Walk
pub mod Newest
pub mod Cleared
use backup_center_ajust_cons.Base.{
  ℕ, zero, suc, ◌+◌, ◌-◌, ◌*◌, max, Bool, true, false, not, ◌&&◌, ◌||◌, List, [], ◌∷◌, reverse,
  Option, none, some, if◌then◌else◌, ltb, leb, ◌==◌, length, get_or,
}
use backup_center_ajust_cons.Base.Slice.{take, drop}
use backup_center_ajust_cons.Text.{Text, text_eq, is_empty}
use backup_center_ajust_cons.Text.Dict.{lookup}
use backup_center_ajust_cons.Logs.{Entry, Raw, junk, other, object, State}
use backup_center_ajust_cons.Logs.Prune.{tenant_text}

-- What a scan is asked for; the tenant is empty when every tenant is wanted.
pub record Query : Type 0 where
  pub after_seq : ℕ
  pub limit : ℕ
  pub tenant : Text

-- The loop's variables; `entries` is `entries_reversed`, the oldest first.
pub record Found : Type 0 where
  pub entries : List Entry
  pub last_seq : ℕ
  pub reached_boundary : Bool

unfoldable pub is_tenant : Query → Entry → Bool
unfolding text_eq
is_tenant q e = is_empty q.tenant || text_eq (tenant_text e) q.tenant

unfoldable pub is_done : Query → Found → Bool
is_done q f = f.reached_boundary || leb q.limit (length f.entries)

unfoldable pub with_entry : ℕ → Entry → Found → Found
with_entry seq e f = record f { entries = e ∷ f.entries; last_seq = max f.last_seq seq }

-- The inner loop, over entries that get older: a `break` ends it.
unfoldable pub walk : (Entry → ℕ) → Query → Found → List Raw → Found
unfolding is_tenant with_entry
walk seq_of q f [] = f
walk seq_of q f (junk ∷ raws) = walk seq_of q f raws
walk seq_of q f (other ∷ raws) = walk seq_of q f raws
walk seq_of q f (object e ∷ raws) =
    let skipped = walk seq_of q f raws in
    let f' = with_entry (seq_of e) e f in
    let on = walk seq_of q f' raws in
    if leb (seq_of e) q.after_seq
    then record f { reached_boundary = true }
    else (if not (is_tenant q e)
        then skipped
        else (if leb q.limit (length f'.entries) then f' else on))

-- The outer loop on the first `n` entries of the log (`end` is `n - 1`), with fuel.
unfoldable pub chunks : (Entry → ℕ) → Query → (size fuel n : ℕ) → List Raw → Found → Found
unfolding walk is_done
chunks seq_of q size zero n log f = f
chunks seq_of q size (suc fuel) n log f =
    let start = n - size in
    let f' = walk seq_of q f (reverse (take (n - start) (drop start log))) in
    let on = chunks seq_of q size fuel start log f' in
    if n == 0 || is_done q f then f else (if start == 0 then f' else on)

unfoldable pub chunk_size : Query → ℕ
chunk_size q = max (q.limit * 4) 500

abbrev pub nothing : ℕ → List Entry × ℕ
nothing seq = ([], seq)

-- `_scan_recent_entries`, with the value of the counter `seq_key`: the entries and `last_seq`
unfoldable pub scan_recent : (Entry → ℕ) → (latest : ℕ) → Query → List Raw → List Entry × ℕ
unfolding chunks chunk_size
scan_recent seq_of latest q log =
    if ltb 0 latest && leb latest q.after_seq
    then nothing latest
    else (let f =
          chunks seq_of q (chunk_size q) (length log) (length log) log
            (record { entries = []; last_seq = q.after_seq; reached_boundary = false }) in
        (f.entries, f.last_seq))

-- `get_task_logs` on a connected client
unfoldable pub get_task_logs : Text → (after_seq limit : ℕ) → State → List Entry × ℕ
unfolding scan_recent lookup
get_task_logs task after limit s =
    if is_empty task
    then nothing after
    else scan_recent (λ e. e.seq) (get_or (lookup task s.task_seqs) 0)
        (record { after_seq = after; limit = limit; tenant = [] }) (get_or (lookup task s.tasks) [])

-- `get_global_logs` on a connected client
unfoldable pub get_global_logs : (after_seq limit : ℕ) → (tenant : Text) → State → List Entry × ℕ
unfolding scan_recent
get_global_logs after limit tenant s =
    scan_recent (λ e. e.global_seq) s.global_seq
      (record { after_seq = after; limit = limit; tenant = tenant }) s.global
