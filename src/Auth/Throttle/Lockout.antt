-- ===== src/Auth/Throttle/Lockout.antt =====
-- When a login is blocked: whichever store counts, within one window exactly after the attempts that
-- are allowed.
use backup_center_ajust_cons.Base.{
  ℕ, suc, ◌+◌, ◌≤◌, ◌<◌, ◌≡◌, refl, ap, ◌∙◌, inl, inr, Bool, true, false, ◌||◌, List, [], ◌∷◌, none,
  arith, if◌then◌else◌, ltb, leb, max, All, Bool-cases,
}
use backup_center_ajust_cons.Text.{Text, text_eq, is_empty}
use backup_center_ajust_cons.Text.Dict.{lookup}
use backup_center_ajust_cons.Text.Laws.{text_eq_iff}
use backup_center_ajust_cons.Auth.Throttle.{
  Table, Limit, Throttle, ip_limit, email_limit, fail, block_left, is_login_blocked, record_failed,
}
use backup_center_ajust_cons.Auth.Throttle.Within.{Has, fail-Has, fail-Has_other}

-- A failed login.
pub record FailedLogin : Type 0 where
  pub client_ip : Text
  pub email : Text
  pub time : ℕ

unfoldable pub record_all : List FailedLogin → Throttle → Throttle
unfolding record_failed
record_all [] s = s
record_all (a ∷ hist) s = record_all hist (record_failed a.client_ip a.email a.time s)

-- How many attempts came from an address, and how many named an e-mail.
unfoldable pub tried_ip : Text → List FailedLogin → ℕ
unfolding text_eq
tried_ip ip [] = 0
tried_ip ip (a ∷ hist) =
    let rest = tried_ip ip hist in if text_eq ip a.client_ip then suc rest else rest

unfoldable pub tried_email : Text → List FailedLogin → ℕ
unfolding text_eq
tried_email email [] = 0
tried_email email (a ∷ hist) =
    let rest = tried_email email hist in if text_eq email a.email then suc rest else rest

-- Nothing is kept for the key.
pub record IsUnknown (key : Text) (t : Table) : Type 0 where
  pub counter : lookup key t.counters ≡ none
  pub listed : lookup key t.moments ≡ none
  pub block : lookup key t.blocks ≡ none

abbrev pub Within : (t0 window : ℕ) → FailedLogin → Type 0
Within t0 window a = (t0 ≤ a.time) × (a.time < t0 + window)

pub unknown-Has :
    (redis : Bool) (limit : Limit) (t0 : ℕ) (key : Text) (t : Table)
    → IsUnknown key t
    → Has redis false limit t0 0 key t
unknown-Has redis limit t0 key t u = record {
  counter = λ r. u.counter;
  listed = λ r. rw u.listed (refl, tt);
  block = u.block;
}

-- A key that has its block is blocked during the first lockout from `t0`, and one without is not.
pub left_of_Has :
    (redis blocked : Bool) (limit : Limit) (t0 n now : ℕ) (key : Text) (t : Table)
    → now < t0 + limit.lockout
    → Has redis blocked limit t0 n key t
    → ltb 0 (block_left now key t) ≡ blocked
unfolding block_left
left_of_Has redis true limit t0 n now key t k h = let (u, e, l) = h.block in rw e (ground arith)
left_of_Has redis false limit t0 n now key t k h = rw h.block (ground arith)

abbrev pub Known : Bool → ℕ → (n : ℕ) → (limit : Limit) → Text → Table → Type 0
Known redis t0 n limit key t = Has redis (leb limit.attempts n) limit t0 n key t

fail-Known :
    (redis : Bool) (limit : Limit) (t0 n now : ℕ) (key other : Text) (t : Table)
    → t0 ≤ now
    → now < t0 + limit.window
    → Known redis t0 n limit key t
    → Known redis t0
        (if text_eq key other then suc n else n)
        limit
        key
        (fail limit redis now other t)
fail-Known redis limit t0 n now key other t late soon h = elim (Bool-cases (text_eq key other)) [
  | inl e ↦ rw (e, ← (text_eq_iff key other).0 e) (fail-Has limit t0 now late soon redis n key t h)
  | inr e ↦
      rw e (fail-Has_other limit t0 now late soon redis (leb limit.attempts n) n key other t e h)
]

text_eq_empty : (s t : Text) → is_empty s ≡ false → is_empty t ≡ true → text_eq s t ≡ false
unfolding text_eq
text_eq_empty [] t h k = cc
text_eq_empty (c ∷ s) [] h k = refl
text_eq_empty (c ∷ s) (d ∷ t) h k = cc

pub record-Known :
    (s : Throttle) (t0 n m : ℕ) (ip email : Text) (a : FailedLogin)
    → is_empty email ≡ false
    → Within t0 900 a
    → Known s.redis t0 n ip_limit ip s.ips
    → Known s.redis t0 m email_limit email s.emails
    → let s' = record_failed a.client_ip a.email a.time s in
      Known s'.redis t0 (if text_eq ip a.client_ip then suc n else n) ip_limit ip s'.ips
      × Known s'.redis t0 (if text_eq email a.email then suc m else m) email_limit email s'.emails
unfolding record_failed
record-Known s t0 n m ip email a ne (l, u) h k =
    let ips = fail-Known s.redis ip_limit t0 n a.time ip a.client_ip s.ips l u h in
    elim (Bool-cases (is_empty a.email)) [
      | inl e ↦ rw (e, text_eq_empty email a.email ne e) (ips, k)
      | inr e ↦ rw e (ips, fail-Known s.redis email_limit t0 m a.time email a.email s.emails l u k)
    ]

either :
    (redis : Bool) (i e : ℕ) (b c : Bool)
    → ltb 0 i ≡ b
    → ltb 0 e ≡ c
    → let answer : Bool × ℕ =
        if redis
        then (ltb 0 (max i e), max i e)
        else (if ltb 0 i then (true, i) else (if ltb 0 e then (true, e) else (false, 0))) in
      answer.0 ≡ (b || c)
either redis i e b c p q = ground (arith, p, q)

pub blocked_by :
    (s : Throttle) (t0 n m now : ℕ) (ip email : Text)
    → is_empty email ≡ false
    → now < t0 + 900
    → Known s.redis t0 n ip_limit ip s.ips
    → Known s.redis t0 m email_limit email s.emails
    → (is_login_blocked ip email now s).0 ≡ (leb 20 n || leb 8 m)
unfolding is_login_blocked
blocked_by s t0 n m now ip email ne soon h k = rw ne (
    either s.redis (block_left now ip s.ips) (block_left now email s.emails) (leb 20 n) (leb 8 m)
      (left_of_Has s.redis (leb 20 n) ip_limit t0 n now ip s.ips soon h)
      (left_of_Has s.redis (leb 8 m) email_limit t0 m now email s.emails soon k))

same_add : (n : ℕ) → n + 0 ≡ n
same_add n = omega arith

zero_add : (n : ℕ) → 0 + n ≡ n
zero_add n = omega arith

shift : (b : Bool) (n k : ℕ) → (if b then suc n else n) + k ≡ n + (if b then suc k else k)
shift true n k = omega arith
shift false n k = refl

blocked_after :
    (hist : List FailedLogin) (s : Throttle) (t0 n m now : ℕ) (ip email : Text)
    → is_empty email ≡ false
    → All (Within t0 900) hist
    → now < t0 + 900
    → Known s.redis t0 n ip_limit ip s.ips
    → Known s.redis t0 m email_limit email s.emails
    → (is_login_blocked ip email now (record_all hist s)).0
      ≡ (leb 20 (n + tried_ip ip hist) || leb 8 (m + tried_email email hist))
unfolding record_all tried_ip tried_email
blocked_after [] s t0 n m now ip email ne tt soon h k =
    rw (same_add n, same_add m) (blocked_by s t0 n m now ip email ne soon h k)
blocked_after (a ∷ hist) s t0 n m now ip email ne (w, ws) soon h k =
    let (h', k') = record-Known s t0 n m ip email a ne w h k in
    blocked_after hist (record_failed a.client_ip a.email a.time s) t0
      (if text_eq ip a.client_ip then suc n else n) (if text_eq email a.email then suc m else m) now
      ip email ne ws soon h' k'
    ∙ ap
        (λ (x : ℕ).
          leb 20 x || leb 8 ((if text_eq email a.email then suc m else m) + tried_email email hist))
        (shift (text_eq ip a.client_ip) n (tried_ip ip hist))
    ∙ ap
        (λ (x : ℕ).
          leb 20 (n + (if text_eq ip a.client_ip then suc (tried_ip ip hist) else tried_ip ip hist))
          || leb 8 x)
        (shift (text_eq email a.email) m (tried_email email hist))

-- From a state that keeps nothing of the address and of the e-mail, after failed logins of whatever
-- addresses and e-mails within a window of 900 seconds from a moment, and up to its end, a login by the
-- address with the e-mail is blocked exactly when at least 20 of them came from the address or at least
-- 8 named the e-mail; on both stores.
pub login_blocked_lem :
    (s : Throttle) (t0 now : ℕ) (ip email : Text) (hist : List FailedLogin)
    → IsUnknown ip s.ips
    → IsUnknown email s.emails
    → is_empty email ≡ false
    → All (Within t0 900) hist
    → now < t0 + 900
    → (is_login_blocked ip email now (record_all hist s)).0
      ≡ (leb 20 (tried_ip ip hist) || leb 8 (tried_email email hist))
login_blocked_lem s t0 now ip email hist u v ne ws soon =
    blocked_after hist s t0 0 0 now ip email ne ws soon (unknown-Has s.redis ip_limit t0 ip s.ips u)
      (unknown-Has s.redis email_limit t0 email s.emails v)
    ∙ rw (zero_add (tried_ip ip hist), zero_add (tried_email email hist)) refl
