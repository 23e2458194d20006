-- ===== src/JumpHost/Breaker/Window.antt =====
-- The part of the outcome list that lies in the window, and the tally of `scan_entries`.
use backup_center_ajust_cons.Base.{
  ℕ, ◌+◌, ◌≡◌, refl, Bool, false, not, List, [], ◌∷◌, leb, length, filter, arith,
}
use backup_center_ajust_cons.Redis.{Entry, outcome, malformed}
use backup_center_ajust_cons.JumpHost.Breaker.{Tally, scan_entries, count_entry}

abbrev pub is_recent : ℕ → Entry → Bool
is_recent cutoff_ms (outcome ok ts) = leb cutoff_ms ts
is_recent cutoff_ms malformed = false

abbrev pub is_failure : Entry → Bool
is_failure (outcome ok ts) = not ok
is_failure malformed = false

-- The entries in the window.
abbrev pub recent : ℕ → List Entry → List Entry
recent cutoff_ms es = filter (is_recent cutoff_ms) es

abbrev pub failures_of : List Entry → ℕ
failures_of es = length (filter is_failure es)

pub record IsTallyOf (es : List Entry) (r : Tally) : Type 0 where
  pub valid_exact : r.valid_entries ≡ es
  pub failures_exact : r.failures ≡ failures_of es
  pub total_exact : r.successes + r.failures ≡ length es

count_entry-IsTallyOf :
    (cutoff_ms : ℕ) (ok : Bool) (ts : ℕ) (es : List Entry) (r : Tally)
    → IsTallyOf (recent cutoff_ms es) r
    → IsTallyOf (recent cutoff_ms (outcome ok ts ∷ es)) (count_entry cutoff_ms ok ts r)
count_entry-IsTallyOf cutoff_ms ok ts es r h = ground arith

pub scan_entries-IsTallyOf :
    (cutoff_ms : ℕ) (es : List Entry) → IsTallyOf (recent cutoff_ms es) (scan_entries cutoff_ms es)
unfolding scan_entries
scan_entries-IsTallyOf cutoff_ms [] = record {
  valid_exact = refl;
  failures_exact = refl;
  total_exact = omega arith;
}
scan_entries-IsTallyOf cutoff_ms (malformed ∷ es) = scan_entries-IsTallyOf cutoff_ms es
scan_entries-IsTallyOf cutoff_ms (outcome ok ts ∷ es) =
    count_entry-IsTallyOf cutoff_ms ok ts es (scan_entries cutoff_ms es)
      (scan_entries-IsTallyOf cutoff_ms es)
