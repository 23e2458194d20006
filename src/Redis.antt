-- ===== src/Redis.antt =====
-- The Redis server, as the program uses it (the clients of app/services/realtime_backup_logs.py
-- and app/tasks/backups.py): the keys that the program writes, and the commands as an interface
-- with the documented laws that the program relies on. A key whose time has run out reads as a
-- missing key. A command that fails is not modelled; a client that cannot connect is.
pub mod Keys
pub mod Memory
use backup_center_ajust_cons.Base.{
  ℕ, ◌+◌, ◌<◌, ◌≡◌, ◌≢◌, ◌⊎◌, Bool, true, Option, none, some, List, [], ◌∷◌, ◌++◌,
}
use backup_center_ajust_cons.Base.Int.{ℤ, pos}
use backup_center_ajust_cons.Text.{Text}

-- `backup_center:cb:open:{label}` and so on, by the label, tenant or task in the name.
pub data Key : Type 0 where
  cb_open : Text → Key
  cb_outcomes : Text → Key
  adaptive_fail : Text → Key
  adaptive_success : Text → Key
  adaptive_cooldown : Text → Key
  tenant_active_bulk : Text → Key
  task_meta : Text → Key
  force_stop : Key

-- An entry `{1 or 0}:{milliseconds}` of an outcome list, or one that does not read as such.
pub data Entry : Type 0 where
  outcome : Bool → ℕ → Entry
  malformed : Entry

abbrev pub In : Key → List Key → Type 0
In k [] = ⊥
In k (j ∷ js) = (k ≡ j) ⊎ In k js

-- Nothing is stored under a key.
pub record Redis : Type 1 where
  pub State : Type 0
  -- GET and TTL of a string key
  pub get : Key → State → Option Text
  pub ttl : Key → State → ℕ
  -- LRANGE 0 -1 of a list key
  pub lrange : Key → State → List Entry
  -- the value of a counter key, 0 when missing
  pub counter : Key → State → ℕ
  -- HGET of the hash of slots, read by `int`: a missing field, a text that is no number, a number
  pub hget : Text → State → Option (Option ℤ)
  pub setex : Key → ℕ → Text → State → State
  -- SET NX EX
  pub set_nx : Key → ℕ → Text → State → State
  pub delete : Key → State → State
  pub rpush : Key → List Entry → State → State
  pub expire : Key → ℕ → State → State
  pub incr : Key → State → State
  pub hset : Text → ℕ → State → State
  -- SCAN MATCH
  pub scan_iter : (Key → Bool) → State → List Key
  pub get-setex : (k : Key) (t : ℕ) (v : Text) (s : State) → get k (setex k t v s) ≡ some v
  pub get-setex_ne :
      (j k : Key) (t : ℕ) (v : Text) (s : State) → j ≢ k → get j (setex k t v s) ≡ get j s
  pub get-set_nx :
      (k : Key) (t : ℕ) (v : Text) (s : State) → get k s ≡ none → get k (set_nx k t v s) ≡ some v
  pub get-set_nx_taken :
      (k : Key) (t : ℕ) (v w : Text) (s : State)
      → get k s ≡ some w
      → get k (set_nx k t v s) ≡ some w
  pub get-set_nx_ne :
      (j k : Key) (t : ℕ) (v : Text) (s : State) → j ≢ k → get j (set_nx k t v s) ≡ get j s
  pub get-delete : (k : Key) (s : State) → get k (delete k s) ≡ none
  pub get-delete_ne : (j k : Key) (s : State) → j ≢ k → get j (delete k s) ≡ get j s
  pub get-delete_none : (j k : Key) (s : State) → get j s ≡ none → get j (delete k s) ≡ none
  pub get-rpush : (j k : Key) (es : List Entry) (s : State) → j ≢ k → get j (rpush k es s) ≡ get j s
  pub get-expire : (j k : Key) (t : ℕ) (s : State) → 0 < t → get j (expire k t s) ≡ get j s
  pub get-incr : (j k : Key) (s : State) → j ≢ k → get j (incr k s) ≡ get j s
  pub get-hset : (j : Key) (l : Text) (n : ℕ) (s : State) → get j (hset l n s) ≡ get j s
  pub lrange-setex :
      (j k : Key) (t : ℕ) (v : Text) (s : State) → j ≢ k → lrange j (setex k t v s) ≡ lrange j s
  pub lrange-delete : (k : Key) (s : State) → lrange k (delete k s) ≡ []
  pub lrange-delete_ne : (j k : Key) (s : State) → j ≢ k → lrange j (delete k s) ≡ lrange j s
  pub lrange-delete_nil : (j k : Key) (s : State) → lrange j s ≡ [] → lrange j (delete k s) ≡ []
  pub lrange-rpush :
      (k : Key) (es : List Entry) (s : State) → lrange k (rpush k es s) ≡ lrange k s ++ es
  pub lrange-rpush_ne :
      (j k : Key) (es : List Entry) (s : State) → j ≢ k → lrange j (rpush k es s) ≡ lrange j s
  pub lrange-expire : (j k : Key) (t : ℕ) (s : State) → 0 < t → lrange j (expire k t s) ≡ lrange j s
  pub lrange-incr : (j k : Key) (s : State) → j ≢ k → lrange j (incr k s) ≡ lrange j s
  pub lrange-hset : (j : Key) (l : Text) (n : ℕ) (s : State) → lrange j (hset l n s) ≡ lrange j s
  pub counter-incr : (k : Key) (s : State) → counter k (incr k s) ≡ counter k s + 1
  pub counter-incr_ne : (j k : Key) (s : State) → j ≢ k → counter j (incr k s) ≡ counter j s
  pub counter-expire :
      (j k : Key) (t : ℕ) (s : State) → 0 < t → counter j (expire k t s) ≡ counter j s
  pub counter-delete : (k : Key) (s : State) → counter k (delete k s) ≡ 0
  pub counter-delete_ne : (j k : Key) (s : State) → j ≢ k → counter j (delete k s) ≡ counter j s
  pub counter-setex :
      (j k : Key) (t : ℕ) (v : Text) (s : State) → j ≢ k → counter j (setex k t v s) ≡ counter j s
  pub counter-hset : (j : Key) (l : Text) (n : ℕ) (s : State) → counter j (hset l n s) ≡ counter j s
  pub hget-hset : (l : Text) (n : ℕ) (s : State) → hget l (hset l n s) ≡ some (some (pos n))
  pub hget-hset_ne : (l m : Text) (n : ℕ) (s : State) → l ≢ m → hget l (hset m n s) ≡ hget l s
  pub hget-delete : (l : Text) (k : Key) (s : State) → hget l (delete k s) ≡ hget l s
  pub hget-incr : (l : Text) (k : Key) (s : State) → hget l (incr k s) ≡ hget l s
  pub hget-expire : (l : Text) (k : Key) (t : ℕ) (s : State) → hget l (expire k t s) ≡ hget l s
  pub hget-setex :
      (l : Text) (k : Key) (t : ℕ) (v : Text) (s : State) → hget l (setex k t v s) ≡ hget l s
  pub scan_complete :
      (p : Key → Bool) (k : Key) (s : State)
      → p k ≡ true
      → In k (scan_iter p s) ⊎ ((get k s ≡ none) × (lrange k s ≡ []) × (counter k s ≡ 0))
