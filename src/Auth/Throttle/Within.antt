-- ===== src/Auth/Throttle/Within.antt =====
-- Within one window, what is counted for each key, on both stores.
use backup_center_ajust_cons.Base.{
  ℕ, zero, suc, ◌+◌, ◌-◌, ◌≤◌, ◌<◌, ◌≡◌, refl, ap, inl, inr, Bool, true, false, List, [], ◌∷◌, ◌++◌,
  Option, none, some, arith, ltb, leb, length, get_or, All, Bool-cases, length-append,
}
use backup_center_ajust_cons.Text.{Text, text_eq}
use backup_center_ajust_cons.Text.Dict.{lookup, lookup-insert_self, lookup-insert_ne}
use backup_center_ajust_cons.Auth.Throttle.{
  Counter, Table, Limit, next_counter, prune_attempts, count_attempt, block_key, fail,
}

-- A counter of `n` attempts since the moment `t0`.
abbrev pub CountsSince : (window t0 n : ℕ) → Option Counter → Type 0
CountsSince window t0 zero c = c ≡ none
CountsSince window t0 (suc n) c =
    (k : Counter) × (c ≡ some k) × (k.count ≡ suc n) × (t0 + window ≤ k.expires)

-- The list of the moments of `n` attempts since the moment `t0`.
abbrev pub Lists : (t0 n : ℕ) → List ℕ → Type 0
Lists t0 n moments = (length moments ≡ n) × All (λ ts. t0 ≤ ts) moments

-- No block, or one that lasts for a lockout from `t0`.
abbrev pub Blocks : Bool → (lockout t0 : ℕ) → Option ℕ → Type 0
Blocks false lockout t0 b = b ≡ none
Blocks true lockout t0 b = (u : ℕ) × (b ≡ some u) × (t0 + lockout ≤ u)

-- Since `t0`, `n` attempts were counted for the key, which is blocked or not.
pub record Has (redis blocked : Bool) (limit : Limit) (t0 n : ℕ) (key : Text) (t : Table)
    : Type 0 where
  pub counter : redis ≡ true → CountsSince limit.window t0 n (lookup key t.counters)
  pub listed : redis ≡ false → Lists t0 n (get_or (lookup key t.moments) [])
  pub block : Blocks blocked limit.lockout t0 (lookup key t.blocks)

next_counter-CountsSince :
    (window t0 n now : ℕ) (c : Option Counter)
    → t0 ≤ now
    → now < t0 + window
    → CountsSince window t0 n c
    → ((next_counter window now c).count ≡ suc n)
      × (t0 + window ≤ (next_counter window now c).expires)
unfolding next_counter
next_counter-CountsSince window t0 zero now c h k e = ground (arith, e)
next_counter-CountsSince window t0 (suc n) now c h k (d, e, m, l) = ground (arith, e)

prune_same :
    (window t0 now : ℕ) (moments : List ℕ)
    → t0 ≤ now
    → now < t0 + window
    → All (λ ts. t0 ≤ ts) moments
    → prune_attempts window now moments ≡ moments
unfolding prune_attempts
prune_same window t0 now [] b k h = refl
prune_same window t0 now (ts ∷ moments) b k (h, hs) =
    rw (recent window t0 now ts b k h) (ap (◌∷◌ ts) (prune_same window t0 now moments b k hs))
  where
    recent :
        (window t0 now ts : ℕ)
        → t0 ≤ now
        → now < t0 + window
        → t0 ≤ ts
        → ltb (now - ts) window ≡ true
    recent window t0 now ts b k h = ground arith

All-snoc :
    (t0 now : ℕ) (ms : List ℕ)
    → t0 ≤ now
    → All (λ ts. t0 ≤ ts) ms
    → All (λ ts. t0 ≤ ts) (ms ++ now ∷ [])
All-snoc t0 now [] h k = (h, tt)
All-snoc t0 now (m ∷ ms) h (k, ks) = (k, All-snoc t0 now ms h ks)

module _ (limit : Limit) (t0 now : ℕ) (late : t0 ≤ now) (soon : now < t0 + limit.window) where
  -- An attempt for the key is the next one in number.
  pub count_attempt-Has :
      (redis blocked : Bool) (n : ℕ) (key : Text) (t : Table)
      → Has redis blocked limit t0 n key t
      → ((count_attempt redis limit.window now key t).0 ≡ suc n)
        × Has redis blocked limit t0 (suc n) key (count_attempt redis limit.window now key t).1
  unfolding count_attempt
  count_attempt-Has true blocked n key t h =
      let (m, l) =
        next_counter-CountsSince limit.window t0 n now (lookup key t.counters) late soon
          (h.counter refl) in
      (
        m,
        record {
          counter = λ r. (
            next_counter limit.window now (lookup key t.counters),
            lookup-insert_self key _ t.counters,
            m,
            l,
          );
          listed = λ r. cc;
          block = h.block;
        },
      )
  count_attempt-Has false blocked n key t h =
      let (m, l) = h.listed refl in
      let same = prune_same limit.window t0 now (get_or (lookup key t.moments) []) late soon l in
      let long : length (get_or (lookup key t.moments) [] ++ now ∷ []) ≡ suc n =
        omega (arith, length-append (get_or (lookup key t.moments) []) (now ∷ []), m) in
      (
        rw same long,
        record {
          counter = λ r. cc;
          listed = λ r.
              rw (lookup-insert_self key _ t.moments, same)
                (long, All-snoc t0 now (get_or (lookup key t.moments) []) late l);
          block = h.block;
        },
      )

  -- It leaves what is known of other keys.
  pub count_attempt-Has_other :
      (redis blocked : Bool) (n : ℕ) (key other : Text) (t : Table)
      → text_eq key other ≡ false
      → Has redis blocked limit t0 n key t
      → Has redis blocked limit t0 n key (count_attempt redis limit.window now other t).1
  unfolding count_attempt
  count_attempt-Has_other true blocked n key other t e h = record {
    counter = λ r. rw (lookup-insert_ne key other _ t.counters e) (h.counter r);
    listed = h.listed;
    block = h.block;
  }
  count_attempt-Has_other false blocked n key other t e h = record {
    counter = h.counter;
    listed = λ r. rw (lookup-insert_ne key other _ t.moments e) (h.listed r);
    block = h.block;
  }

  pub block_key-Has :
      (redis blocked : Bool) (n : ℕ) (key : Text) (t : Table)
      → Has redis blocked limit t0 n key t
      → Has redis true limit t0 n key (block_key limit.lockout now key t)
  unfolding block_key
  block_key-Has redis blocked n key t h = record {
    counter = h.counter;
    listed = h.listed;
    block = (now + limit.lockout, lookup-insert_self key _ t.blocks, omega arith);
  }

  pub block_key-Has_other :
      (redis blocked : Bool) (n : ℕ) (key other : Text) (t : Table)
      → text_eq key other ≡ false
      → Has redis blocked limit t0 n key t
      → Has redis blocked limit t0 n key (block_key limit.lockout now other t)
  unfolding block_key
  block_key-Has_other redis blocked n key other t e h = record {
    counter = h.counter;
    listed = h.listed;
    block = rw (lookup-insert_ne key other (now + limit.lockout) t.blocks e) h.block;
  }

  -- A failed attempt counts, and blocks the key when it is the last one allowed.
  pub fail-Has :
      (redis : Bool) (n : ℕ) (key : Text) (t : Table)
      → Has redis (leb limit.attempts n) limit t0 n key t
      → Has redis (leb limit.attempts (suc n)) limit t0 (suc n) key (fail limit redis now key t)
  unfolding fail
  fail-Has redis n key t h =
      let (m, c) = count_attempt-Has redis (leb limit.attempts n) n key t h in
      rw m (elim (Bool-cases (leb limit.attempts (suc n))) [
        | inl e ↦ rw e (
            block_key-Has redis (leb limit.attempts n) (suc n) key
              (count_attempt redis limit.window now key t).1 c)
        | inr e ↦ rw e (still e c)
      ])
    where
      still :
          leb limit.attempts (suc n) ≡ false
          → Has redis
              (leb limit.attempts n)
              limit
              t0
              (suc n)
              key
              (count_attempt redis limit.window now key t).1
          → Has redis false limit t0 (suc n) key (count_attempt redis limit.window now key t).1
      still e c = let f : leb limit.attempts n ≡ false = ground arith in rw f at c

  pub fail-Has_other :
      (redis blocked : Bool) (n : ℕ) (key other : Text) (t : Table)
      → text_eq key other ≡ false
      → Has redis blocked limit t0 n key t
      → Has redis blocked limit t0 n key (fail limit redis now other t)
  unfolding fail
  fail-Has_other redis blocked n key other t e h =
      let c = count_attempt-Has_other redis blocked n key other t e h in
      elim (Bool-cases (leb limit.attempts (count_attempt redis limit.window now other t).0)) [
        | inl k ↦ rw k (
            block_key-Has_other redis blocked n key other
              (count_attempt redis limit.window now other t).1 e c)
        | inr k ↦ rw k c
      ]
