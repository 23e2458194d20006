-- ===== src/Auth/Throttle.antt =====
-- The limits on failed attempts (app/web/auth/routes.py): counters that expire, in Redis, or lists of
-- moments in the process when Redis could not be reached at the start. Moments are whole seconds.
pub mod Within
pub mod Lockout
pub mod Forgot
use backup_center_ajust_cons.Base.{
  ℕ, ◌+◌, ◌-◌, Bool, true, false, not, ◌&&◌, ◌||◌, List, [], ◌∷◌, ◌++◌, Option, none, some,
  if◌then◌else◌, ltb, leb, max, filter, length, get_or,
}
use backup_center_ajust_cons.Text.{Text, is_empty}
use backup_center_ajust_cons.Text.Dict.{Dict, lookup, insert, erase}

-- A key of Redis that INCR counts, with the moment at which it expires.
pub record Counter : Type 0 where
  pub count : ℕ
  pub expires : ℕ

-- What is kept for one kind of key: the counters or the moments of the attempts, and the moments at
-- which the blocks end (a key with a time to live, or a value of a dict).
pub record Table : Type 0 where
  pub counters : Dict Counter
  pub moments : Dict (List ℕ)
  pub blocks : Dict ℕ

pub record Limit : Type 0 where
  pub attempts : ℕ
  pub window : ℕ
  pub lockout : ℕ

-- INCR, and EXPIRE if the count is 1
unfoldable pub next_counter : (window now : ℕ) → Option Counter → Counter
next_counter window now none = record { count = 1; expires = now + window }
next_counter window now (some c) =
    if ltb now c.expires
    then record c { count = c.count + 1 }
    else record { count = 1; expires = now + window }

-- `_prune_attempts`
unfoldable pub prune_attempts : (window now : ℕ) → List ℕ → List ℕ
prune_attempts window now moments = filter (λ ts. ltb (now - ts) window) moments

-- An attempt is counted: the number of attempts, and the table.
unfoldable pub count_attempt : Bool → (window now : ℕ) → Text → Table → ℕ × Table
unfolding next_counter prune_attempts lookup insert
count_attempt redis window now key t =
    let c = next_counter window now (lookup key t.counters) in
    let moments = prune_attempts window now (get_or (lookup key t.moments) []) ++ now ∷ [] in
    if redis
    then (c.count, record t { counters = insert key c t.counters })
    else (length moments, record t { moments = insert key moments t.moments })

unfoldable pub block_key : (lockout now : ℕ) → Text → Table → Table
unfolding insert
block_key lockout now key t = record t { blocks = insert key (now + lockout) t.blocks }

-- A failed attempt of `_record_failed_login_attempt`, for the address or for the e-mail.
unfoldable pub fail : Limit → Bool → (now : ℕ) → Text → Table → Table
unfolding count_attempt block_key
fail limit redis now key t =
    let (n, t') = count_attempt redis limit.window now key t in
    if leb limit.attempts n then block_key limit.lockout now key t' else t'

-- TTL of the block, 0 when there is none, or the time up to the moment that a dict holds
unfoldable pub block_left : (now : ℕ) → Text → Table → ℕ
unfolding lookup
block_left now key t = get_or (lookup key t.blocks) 0 - now

unfoldable pub forget : Text → Table → Table
unfolding erase
forget key t = record t {
  counters = erase key t.counters;
  moments = erase key t.moments;
  blocks = erase key t.blocks;
}

-- The state of the module: whether it has a client of Redis, and the tables of the addresses and the
-- e-mails that sign in, and of the addresses that ask for a new password.
pub record Throttle : Type 0 where
  pub redis : Bool
  pub ips : Table
  pub emails : Table
  pub forgot : Table

-- MAX_LOGIN_ATTEMPTS_PER_IP, MAX_LOGIN_ATTEMPTS_PER_EMAIL, LOGIN_WINDOW_SECONDS and
-- LOGIN_LOCKOUT_SECONDS
abbrev pub ip_limit : Limit
ip_limit = record { attempts = 20; window = 900; lockout = 900 }

abbrev pub email_limit : Limit
email_limit = record { attempts = 8; window = 900; lockout = 900 }

-- MAX_FORGOT_PASSWORD_PER_IP, FORGOT_PASSWORD_WINDOW_SECONDS and FORGOT_PASSWORD_LOCKOUT_SECONDS
abbrev pub forgot_limit : Limit
forgot_limit = record { attempts = 8; window = 3600; lockout = 1800 }

-- `_is_login_blocked`: whether the login is blocked, and for how long
unfoldable pub is_login_blocked : (client_ip email : Text) → (now : ℕ) → Throttle → Bool × ℕ
unfolding block_left
is_login_blocked client_ip email now s =
    let ip_left = block_left now client_ip s.ips in
    let email_left = if is_empty email then 0 else block_left now email s.emails in
    let ttl = max ip_left email_left in
    if s.redis
    then (ltb 0 ttl, ttl)
    else (if ltb 0 ip_left
        then (true, ip_left)
        else (if ltb 0 email_left then (true, email_left) else (false, 0)))

-- `_record_failed_login_attempt`
unfoldable pub record_failed : (client_ip email : Text) → (now : ℕ) → Throttle → Throttle
unfolding fail
record_failed client_ip email now s =
    let s' = record s { ips = fail ip_limit s.redis now client_ip s.ips } in
    if is_empty email
    then s'
    else record s' { emails = fail email_limit s.redis now email s.emails }

-- `_clear_login_attempts`
unfoldable pub clear_attempts : (client_ip email : Text) → Throttle → Throttle
unfolding forget
clear_attempts client_ip email s =
    let s' = record s { ips = forget client_ip s.ips } in
    if is_empty email then s' else record s' { emails = forget email s.emails }

-- `_consume_forgot_password_attempt`: whether the request may go on, and the time to wait
unfoldable pub consume_forgot : (client_ip : Text) → (now : ℕ) → Throttle → (Bool × ℕ) × Throttle
unfolding block_left count_attempt block_key
consume_forgot client_ip now s =
    let left = block_left now client_ip s.forgot in
    let (n, t) = count_attempt s.redis forgot_limit.window now client_ip s.forgot in
    if ltb 0 left
    then ((false, left), s)
    else (if ltb forgot_limit.attempts n
        then (
          (false, forgot_limit.lockout),
          record s { forgot = block_key forgot_limit.lockout now client_ip t },
        )
        else ((true, 0), record s { forgot = t }))
