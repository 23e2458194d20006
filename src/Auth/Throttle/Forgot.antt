-- ===== src/Auth/Throttle/Forgot.antt =====
-- How many requests for a new password an address may make, and what a success forgets.
use backup_center_ajust_cons.Base.{
  ℕ, suc, ◌+◌, ◌≤◌, ◌<◌, ◌≡◌, refl, inl, inr, true, false, List, [], ◌∷◌, arith, ltb, min, All,
  Bool-cases, length,
}
use backup_center_ajust_cons.Text.{Text, is_empty}
use backup_center_ajust_cons.Text.Dict.{lookup-erase_self}
use backup_center_ajust_cons.Auth.Throttle.{
  Table, Throttle, forgot_limit, count_attempt, consume_forgot, forget, clear_attempts,
}
use backup_center_ajust_cons.Auth.Throttle.Within.{Has, count_attempt-Has, block_key-Has}
use backup_center_ajust_cons.Auth.Throttle.Lockout.{IsUnknown, unknown-Has, left_of_Has}

-- Requests of one address, at the moments of the list.
unfoldable pub consume_all : Text → List ℕ → Throttle → Throttle
unfolding consume_forgot
consume_all ip [] s = s
consume_all ip (now ∷ times) s = consume_all ip times (consume_forgot ip now s).1

-- After `n` requests; those after the ninth are not counted.
abbrev Consumed : ℕ → ℕ → Text → Throttle → Type 0
Consumed t0 n ip s = Has s.redis (ltb 8 n) forgot_limit t0 (min n 9) ip s.forgot

abbrev Stepped : (t0 n now : ℕ) → Text → Throttle → Type 0
Stepped t0 n now ip s =
    ((consume_forgot ip now s).0.0 ≡ ltb n 8) × Consumed t0 (suc n) ip (consume_forgot ip now s).1

module _ (t0 n now : ℕ) (ip : Text) (s : Throttle) (late : t0 ≤ now) (soon : now < t0 + 1800) where
  blocked_step :
      ltb 8 n ≡ true
      → Has s.redis true forgot_limit t0 (min n 9) ip s.forgot
      → Stepped t0 n now ip s
  unfolding consume_forgot
  blocked_step e h =
      let left = left_of_Has s.redis true forgot_limit t0 (min n 9) now ip s.forgot soon h in
      let below : ltb n 8 ≡ false = ground arith in
      let above : ltb 8 (suc n) ≡ true = ground arith in
      let same : min (suc n) 9 ≡ min n 9 = ground arith in rw (left, below, above, same) (refl, h)

  counted_step :
      ltb 8 n ≡ false → Has s.redis false forgot_limit t0 n ip s.forgot → Stepped t0 n now ip s
  unfolding consume_forgot
  counted_step e h =
      let left = left_of_Has s.redis false forgot_limit t0 n now ip s.forgot soon h in
      let (m, c) =
        count_attempt-Has forgot_limit t0 now late (ground arith) s.redis false n ip s.forgot h in
      let same : min (suc n) 9 ≡ suc n = ground arith in
      rw (left, m, same)
        (elim (Bool-cases (ltb 8 (suc n))) [
          | inl k ↦ rw k (
            ground arith,
            block_key-Has forgot_limit t0 now late (ground arith) s.redis false (suc n) ip
                (count_attempt s.redis 3600 now ip s.forgot).1 c,
          )
          | inr k ↦ rw k (ground arith, c)
        ])

  consume_step : Consumed t0 n ip s → Stepped t0 n now ip s
  consume_step h = elim (Bool-cases (ltb 8 n)) [
    | inl e ↦ blocked_step e (rw e at h)
    | inr e ↦ let same : min n 9 ≡ n = ground arith in counted_step e (rw (e, same) at h)
  ]

consume_all-Consumed :
    (t0 n : ℕ) (ip : Text) (times : List ℕ) (s : Throttle)
    → All (λ now. (t0 ≤ now) × (now < t0 + 1800)) times
    → Consumed t0 n ip s
    → Consumed t0 (n + length times) ip (consume_all ip times s)
unfolding consume_all
consume_all-Consumed t0 n ip [] s tt h = let e : n + 0 ≡ n = omega arith in rw e h
consume_all-Consumed t0 n ip (now ∷ times) s ((l, u), ws) h =
    let e : n + suc (length times) ≡ suc n + length times = omega arith in
    rw e (
      consume_all-Consumed t0 (suc n) ip times (consume_forgot ip now s).1 ws
        (consume_step t0 n now ip s l u h).1)

-- From a state that keeps nothing of an address, within 1800 seconds from a moment, a request for a new
-- password of the address goes on exactly when it made fewer than 8 before; on both stores.
pub forgot_allowed_lem :
    (s : Throttle) (t0 now : ℕ) (ip : Text) (times : List ℕ)
    → IsUnknown ip s.forgot
    → All (λ at. (t0 ≤ at) × (at < t0 + 1800)) times
    → t0 ≤ now
    → now < t0 + 1800
    → (consume_forgot ip now (consume_all ip times s)).0.0 ≡ ltb (length times) 8
forgot_allowed_lem s t0 now ip times u ws late soon =
    let z : 0 + length times ≡ length times = omega arith in
    (consume_step t0 (length times) now ip (consume_all ip times s) late soon (
      rw z at (
        consume_all-Consumed t0 0 ip times s ws
          (unknown-Has s.redis forgot_limit t0 ip s.forgot u)))).0

forget-IsUnknown : (key : Text) (t : Table) → IsUnknown key (forget key t)
unfolding forget
forget-IsUnknown key t = record {
  counter = lookup-erase_self key t.counters;
  listed = lookup-erase_self key t.moments;
  block = lookup-erase_self key t.blocks;
}

-- After a success, nothing is kept of the address and of the e-mail.
pub clear_attempts-IsUnknown :
    (ip email : Text) (s : Throttle)
    → is_empty email ≡ false
    → IsUnknown ip (clear_attempts ip email s).ips
      × IsUnknown email (clear_attempts ip email s).emails
unfolding clear_attempts
clear_attempts-IsUnknown ip email s ne =
    rw ne (forget-IsUnknown ip s.ips, forget-IsUnknown email s.emails)
