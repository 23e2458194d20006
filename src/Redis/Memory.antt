-- ===== src/Redis/Memory.antt =====
-- A Redis server in memory: it shows that the laws of the interface can be met, and the tests run
-- on it. Nothing expires in it, since no time passes during a test.
use backup_center_ajust_cons.Base.{
  ℕ, ◌+◌, ◌≡◌, ◌≢◌, refl, ap, ◌∙◌, ◌⊎◌, inl, inr, Bool, true, Option, none, some, List, [], ◌∷◌,
  ◌++◌, if◌then◌else◌, filter, Bool-cases, get_or,
}
use backup_center_ajust_cons.Base.Int.{ℤ, pos}
use backup_center_ajust_cons.Text.{Text, text_eq}
use backup_center_ajust_cons.Text.Laws.{text_eq_refl}
use backup_center_ajust_cons.Redis.{Key, Entry, Redis, In}
use backup_center_ajust_cons.Redis.Keys.{key_eq, key_eq_refl, eq_of_key_eq, key_eq_ne, text_eq_ne}

pub record Cell : Type 0 where
  pub string : Option Text
  pub list : List Entry
  pub count : ℕ

abbrev pub blank : Cell
blank = record { string = none; list = []; count = 0 }

pub record Memory : Type 0 where
  pub cells : List (Key × Cell)
  pub fields : List (Text × ℕ)

unfoldable pub find_cell : Key → List (Key × Cell) → Cell
unfolding key_eq
find_cell k [] = blank
find_cell k ((j, c) ∷ cs) = if key_eq k j then c else find_cell k cs

abbrev pub cell : Key → Memory → Cell
cell k m = find_cell k m.cells

put : Key → Cell → Memory → Memory
put k c m = record m { cells = (k, c) ∷ m.cells }

cell-put_self : (k : Key) (c : Cell) (m : Memory) → cell k (put k c m) ≡ c
unfolding put find_cell
cell-put_self k c m = rw (key_eq_refl k)

cell-put_ne : (j k : Key) (c : Cell) (m : Memory) → j ≢ k → cell j (put k c m) ≡ cell j m
unfolding put find_cell
cell-put_ne j k c m h = rw (key_eq_ne j k h)

unfoldable pub find_field : Text → List (Text × ℕ) → Option (Option ℤ)
unfolding text_eq
find_field l [] = none
find_field l ((k, n) ∷ fs) = if text_eq l k then some (some (pos n)) else find_field l fs

pub find_field_self :
    (l : Text) (n : ℕ) (fs : List (Text × ℕ)) → find_field l ((l, n) ∷ fs) ≡ some (some (pos n))
unfolding find_field
find_field_self l n fs = rw (text_eq_refl l)

pub find_field_ne :
    (l m : Text) (n : ℕ) (fs : List (Text × ℕ))
    → l ≢ m
    → find_field l ((m, n) ∷ fs) ≡ find_field l fs
unfolding find_field
find_field_ne l m n fs h = rw (text_eq_ne l m h)

unfoldable pub keys_in : List (Key × Cell) → List Key
keys_in [] = []
keys_in ((k, c) ∷ cs) = k ∷ keys_in cs

In-filter_cons :
    (p : Key → Bool) (k j : Key) (ks : List Key) → In k (filter p ks) → In k (filter p (j ∷ ks))
In-filter_cons p k j ks i = elim (Bool-cases (p j)) [ inl e ↦ rw e (inr i) | inr e ↦ rw e i ]

scan_cells :
    (p : Key → Bool) (k : Key) (cs : List (Key × Cell))
    → p k ≡ true
    → In k (filter p (keys_in cs)) ⊎ (find_cell k cs ≡ blank)
unfolding keys_in find_cell
scan_cells p k [] h = inr refl
scan_cells p k ((j, c) ∷ cs) h = elim (Bool-cases (key_eq k j)) [
  | inl e ↦ inl (rw (← eq_of_key_eq k j e) (rw h (inl refl)))
  | inr e ↦ elim (scan_cells p k cs h) [
    | inl i ↦ inl (In-filter_cons p k j (keys_in cs) i)
    | inr b ↦ inr (rw e b)
  ]
]

pub scan_memory :
    (p : Key → Bool) (k : Key) (m : Memory)
    → p k ≡ true
    → In k (filter p (keys_in m.cells))
      ⊎ (((cell k m).string ≡ none) × ((cell k m).list ≡ []) × ((cell k m).count ≡ 0))
scan_memory p k m h = elim (scan_cells p k m.cells h) [
  | inl i ↦ inl i
  | inr e ↦
      inr (ap (λ (c : Cell). c.string) e, ap (λ (c : Cell). c.list) e, ap (λ (c : Cell). c.count) e)
]

-- A command applies a function to the cell of its key.
unfoldable pub change : Key → (Cell → Cell) → Memory → Memory
unfolding put
change k f m = put k (f (cell k m)) m

pub change-fields :
    (l : Text) (k : Key) (f : Cell → Cell) (m : Memory)
    → find_field l (change k f m).fields ≡ find_field l m.fields
unfolding change put
change-fields l k f m = refl

module _ {A : Type 0} (g : Cell → A) (f : Cell → Cell) where
  pub change_self : (k : Key) (m : Memory) → g (cell k (change k f m)) ≡ g (f (cell k m))
  unfolding change
  change_self k m = ap g (cell-put_self k (f (cell k m)) m)

  pub change_ne : (j k : Key) (m : Memory) → j ≢ k → g (cell j (change k f m)) ≡ g (cell j m)
  unfolding change
  change_ne j k m ne = ap g (cell-put_ne j k (f (cell k m)) m ne)

  -- A part of the cell that the function leaves alone is left alone at every key.
  change_keeps :
      ((c : Cell) → g (f c) ≡ g c)
      → (j k : Key) (m : Memory) → g (cell j (change k f m)) ≡ g (cell j m)
  change_keeps same j k m = elim (Bool-cases (key_eq j k)) [
    | inl e ↦ rw (eq_of_key_eq j k e) (change_self k m ∙ same (cell k m))
    | inr e ↦ change_ne j k m (λ q. cc (key_eq_refl k, ap (λ x. key_eq x k) q))
  ]

  -- A property of every new value, which an old value of the key may have too.
  pub change_to :
      (a : A)
      → ((c : Cell) → g (f c) ≡ a)
      → (j k : Key) (m : Memory) → g (cell j m) ≡ a
      → g (cell j (change k f m)) ≡ a
  change_to a to j k m e = elim (Bool-cases (key_eq j k)) [
    | inl q ↦ rw (eq_of_key_eq j k q) (change_self k m ∙ to (cell k m))
    | inr q ↦ change_ne j k m (λ x. cc (key_eq_refl k, ap (λ y. key_eq y k) x)) ∙ e
  ]

abbrev pub string_of : Cell → Option Text
string_of c = c.string

abbrev pub list_of : Cell → List Entry
list_of c = c.list

abbrev pub count_of : Cell → ℕ
count_of c = c.count

abbrev pub write : Text → Cell → Cell
write v c = record c { string = some v }

-- SET NX
abbrev pub write_new : Text → Cell → Cell
write_new v c = record c { string = some (get_or c.string v) }

abbrev pub extend : List Entry → Cell → Cell
extend es c = record c { list = c.list ++ es }

abbrev pub count_up : Cell → Cell
count_up c = record c { count = c.count + 1 }

abbrev pub erase : Cell → Cell
erase c = blank

-- 41 stands for the seconds that a key has left.
abbrev pub memory : Redis
memory = record {
  State = Memory;
  get = λ k m. string_of (cell k m);
  ttl = λ k m. 41;
  lrange = λ k m. list_of (cell k m);
  counter = λ k m. count_of (cell k m);
  hget = λ l m. find_field l m.fields;
  setex = λ k t v m. change k (write v) m;
  set_nx = λ k t v m. change k (write_new v) m;
  delete = λ k m. change k erase m;
  rpush = λ k es m. change k (extend es) m;
  expire = λ k t m. m;
  incr = λ k m. change k count_up m;
  hset = λ l n m. record m { fields = (l, n) ∷ m.fields };
  scan_iter = λ p m. filter p (keys_in m.cells);
  get-setex = λ k t v m. change_self string_of (write v) k m;
  get-setex_ne = λ j k t v m h. change_ne string_of (write v) j k m h;
  get-set_nx = λ k t v m e.
      change_self string_of (write_new v) k m ∙ ap (λ (o : Option Text). some (get_or o v)) e;
  get-set_nx_taken = λ k t v w m e.
      change_self string_of (write_new v) k m ∙ ap (λ (o : Option Text). some (get_or o v)) e;
  get-set_nx_ne = λ j k t v m h. change_ne string_of (write_new v) j k m h;
  get-delete = λ k m. change_self string_of erase k m;
  get-delete_ne = λ j k m h. change_ne string_of erase j k m h;
  get-delete_none = λ j k m e. change_to string_of erase none (λ c. refl) j k m e;
  get-rpush = λ j k es m h. change_ne string_of (extend es) j k m h;
  get-expire = λ j k t m h. refl;
  get-incr = λ j k m h. change_ne string_of count_up j k m h;
  get-hset = λ j l n m. refl;
  lrange-setex = λ j k t v m h. change_ne list_of (write v) j k m h;
  lrange-delete = λ k m. change_self list_of erase k m;
  lrange-delete_ne = λ j k m h. change_ne list_of erase j k m h;
  lrange-delete_nil = λ j k m e. change_to list_of erase [] (λ c. refl) j k m e;
  lrange-rpush = λ k es m. change_self list_of (extend es) k m;
  lrange-rpush_ne = λ j k es m h. change_ne list_of (extend es) j k m h;
  lrange-expire = λ j k t m h. refl;
  lrange-incr = λ j k m h. change_ne list_of count_up j k m h;
  lrange-hset = λ j l n m. refl;
  counter-incr = λ k m. change_self count_of count_up k m;
  counter-incr_ne = λ j k m h. change_ne count_of count_up j k m h;
  counter-expire = λ j k t m h. refl;
  counter-delete = λ k m. change_self count_of erase k m;
  counter-delete_ne = λ j k m h. change_ne count_of erase j k m h;
  counter-setex = λ j k t v m h. change_ne count_of (write v) j k m h;
  counter-hset = λ j l n m. refl;
  hget-hset = λ l n m. find_field_self l n m.fields;
  hget-hset_ne = λ l k n m h. find_field_ne l k n m.fields h;
  hget-delete = λ l k m. change-fields l k erase m;
  hget-incr = λ l k m. change-fields l k count_up m;
  hget-expire = λ l k t m. refl;
  hget-setex = λ l k t v m. change-fields l k (write v) m;
  scan_complete = λ p k m h. scan_memory p k m h;
}

abbrev pub empty_memory : Memory
empty_memory = record { cells = []; fields = [] }
