-- ===== src/Auth/Serve/Tries.antt =====
-- How many wrong codes a pending login survives.
use backup_center_ajust_cons.Base.{
  ℕ, suc, ◌+◌, ◌≤◌, ◌<◌, ◌≡◌, refl, ap, ◌∙◌, inl, inr, true, false, ◌||◌, List, [], ◌∷◌, Option,
  none, some, arith, if◌then◌else◌, get_or, leb, length, All, Bool-cases,
}
use backup_center_ajust_cons.Text.{Text, is_truthy, is_empty, normalize, text_eq}
use backup_center_ajust_cons.Text.Laws.{text_eq_refl}
use backup_center_ajust_cons.Auth.Account.{User, Session, Site, verify_page, Pending}
use backup_center_ajust_cons.Auth.Throttle.{
  Throttle, ip_limit, email_limit, is_login_blocked, record_failed,
}
use backup_center_ajust_cons.Auth.Throttle.Lockout.{
  IsUnknown, Known, unknown-Has, record-Known, blocked_by,
}
use backup_center_ajust_cons.Auth.Totp.{verify_totp}
use backup_center_ajust_cons.Auth.Session.{
  is_role_2fa_required, is_shut_out, clear_pending, load_pending, pending_user,
}
use backup_center_ajust_cons.Auth.TwoFactor.{
  CodeEntry, reject, guarded, check_code, two_factor_verify,
}

-- `two_factor_verify`, for each of the attempts
unfoldable pub verify_all : (Text → ℕ → List ℕ) → List CodeEntry → Site → Site
verify_all hmac [] w = w
verify_all hmac (a ∷ tries) w = verify_all hmac tries (two_factor_verify hmac a w).1

at_eight : (n : ℕ) → (leb 20 n || leb 8 n) ≡ leb 8 n
at_eight n = ground arith

module _ (hmac : Text → ℕ → List ℕ) (users : List User) (s : Session) (p : Pending) (u : User)
    (ip : Text) (t0 : ℕ) where
  -- An attempt with a wrong code, within the window, while the pending login is not too old.
  pub record Wrong (a : CodeEntry) : Type 0 where
    pub from : a.client_ip ≡ ip
    pub late : t0 ≤ a.now
    pub soon : a.now < t0 + 900
    pub loaded : pending_user a.now a.client_ip users p ≡ some u
    pub code : Text
    pub typed : a.code ≡ some code
    pub wrong : verify_totp hmac a.now (get_or u.totp_secret []) code ≡ false

  -- The state after `n` wrong codes that have not ended the pending login.
  record Alive (n : ℕ) (w : Site) : Type 0 where
    same_users : w.users ≡ users
    same_session : w.session ≡ s
    known_ip : Known w.throttle.redis t0 n ip_limit ip w.throttle.ips
    known_email : Known w.throttle.redis t0 n email_limit (normalize u.email) w.throttle.emails

  module _ (waited : s.pending ≡ some p) (let_in : is_shut_out u ≡ false)
      (has_secret : is_truthy u.totp_secret ≡ true)
      (named : is_empty (normalize u.email) ≡ false) where
    load_ok :
        (a : CodeEntry) (w : Site)
        → w.users ≡ users
        → w.session ≡ s
        → Wrong a
        → load_pending a.now a.client_ip w.users w.session ≡ (some u, s)
    unfolding load_pending
    load_ok a w us ss x = rw (us, ss) (ground (arith, waited, x.loaded))

    check_code-Wrong :
        (a : CodeEntry) (w : Site) → Wrong a → check_code hmac a u w ≡ reject a u verify_page w
    unfolding check_code
    check_code-Wrong a w x = ground (arith, x.typed, x.wrong)

    -- What is left of `two_factor_verify` when the code is wrong.
    verify-Wrong :
        (a : CodeEntry) (w : Site)
        → w.users ≡ users
        → w.session ≡ s
        → Wrong a
        → two_factor_verify hmac a w ≡ reject a u verify_page (record w { session = s })
    unfolding two_factor_verify guarded is_role_2fa_required
    verify-Wrong a w us ss x =
        let found = load_ok a w us ss x in
        rw
          (
            ap (λ (r : Option User × Session). r.0) found,
            two_factor_verify,
            ap (λ (r : Option User × Session). r.1) found,
            let_in,
            has_secret,
          )
          (check_code-Wrong a (record w { session = s }) x)

    counted :
        (n : ℕ) (a : CodeEntry) (t : Throttle)
        → Known t.redis t0 n ip_limit ip t.ips
        → Known t.redis t0 n email_limit (normalize u.email) t.emails
        → Wrong a
        → let t' = record_failed a.client_ip (normalize u.email) a.now t in
          Known t'.redis t0 (suc n) ip_limit ip t'.ips
          × Known t'.redis t0 (suc n) email_limit (normalize u.email) t'.emails
    counted n a t h k x =
        let same : text_eq ip a.client_ip ≡ true = rw x.from (text_eq_refl ip) in
        rw (same, text_eq_refl (normalize u.email)) at
          (record-Known t t0 n n ip (normalize u.email)
            (record { client_ip = a.client_ip; email = normalize u.email; time = a.now }) named
            (x.late, x.soon) h k)

    blocked_now :
        (n : ℕ) (a : CodeEntry) (t : Throttle)
        → Known t.redis t0 n ip_limit ip t.ips
        → Known t.redis t0 n email_limit (normalize u.email) t.emails
        → Wrong a
        → (is_login_blocked a.client_ip (normalize u.email) a.now t).0 ≡ leb 8 n
    blocked_now n a t h k x =
        rw x.from (blocked_by t t0 n n a.now ip (normalize u.email) named x.soon h k) ∙ at_eight n

    -- A wrong code is counted, and leaves the session as it is unless it is the eighth.
    reject-Alive :
        (n : ℕ) (a : CodeEntry) (w : Site)
        → Alive n w
        → Wrong a
        → leb 8 (suc n) ≡ false
        → Alive (suc n) (two_factor_verify hmac a w).1
    unfolding reject
    reject-Alive n a w v x e =
        let (h, k) = counted n a w.throttle v.known_ip v.known_email x in
        rw
          (
            verify-Wrong a w v.same_users v.same_session x,
            blocked_now (suc n) a (record_failed a.client_ip (normalize u.email) a.now w.throttle) h
                  k x
                ∙ e,
          )
          (record { same_users = v.same_users; same_session = refl; known_ip = h; known_email = k })

    reject_last :
        (n : ℕ) (a : CodeEntry) (w : Site)
        → Alive n w
        → Wrong a
        → leb 8 (suc n) ≡ true
        → (two_factor_verify hmac a w).1.session.pending ≡ none
    unfolding reject clear_pending
    reject_last n a w v x e =
        let (h, k) = counted n a w.throttle v.known_ip v.known_email x in
        rw
          (
            verify-Wrong a w v.same_users v.same_session x,
            blocked_now (suc n) a (record_failed a.client_ip (normalize u.email) a.now w.throttle) h
                  k x
                ∙ e,
          )
          refl

    verify_dead :
        (a : CodeEntry) (w : Site)
        → w.session.pending ≡ none
        → (two_factor_verify hmac a w).1.session.pending ≡ none
    unfolding two_factor_verify load_pending
    verify_dead a w e = ground (arith, e)

    all_dead :
        (tries : List CodeEntry) (w : Site)
        → w.session.pending ≡ none
        → (verify_all hmac tries w).session.pending ≡ none
    unfolding verify_all
    all_dead [] w e = e
    all_dead (a ∷ tries) w e = all_dead tries (two_factor_verify hmac a w).1 (verify_dead a w e)

    tries_from :
        (n : ℕ) (tries : List CodeEntry) (w : Site)
        → leb 8 n ≡ false
        → Alive n w
        → All Wrong tries
        → (verify_all hmac tries w).session.pending
          ≡ (if leb 8 (n + length tries) then none else some p)
    unfolding verify_all
    tries_from n [] w e v tt = let z : n + 0 ≡ n = omega arith in rw (z, e, v.same_session) waited
    tries_from n (a ∷ tries) w e v (x, xs) =
        let z : n + suc (length tries) ≡ suc n + length tries = omega arith in
        elim (Bool-cases (leb 8 (suc n))) [
          | inl f ↦
              let g : leb 8 (n + suc (length tries)) ≡ true = ground arith in
              rw g (all_dead tries (two_factor_verify hmac a w).1 (reject_last n a w v x f))
          | inr f ↦ rw z (
              tries_from (suc n) tries (two_factor_verify hmac a w).1 f (reject-Alive n a w v x f)
                xs)
        ]

    -- A pending login of a user with a secret, whose tenant, if there is one, lets them in, from an
    -- address and for an e-mail of which nothing is kept, survives wrong codes from the address exactly as long as
    -- they are fewer than 8, if they come within 900 seconds of a moment and the pending login is not
    -- too old by then; on both stores.
    pub wrong_codes_lem :
        (tries : List CodeEntry) (w : Site)
        → w.users ≡ users
        → w.session ≡ s
        → IsUnknown ip w.throttle.ips
        → IsUnknown (normalize u.email) w.throttle.emails
        → All Wrong tries
        → (verify_all hmac tries w).session.pending
          ≡ (if leb 8 (length tries) then none else some p)
    wrong_codes_lem tries w us ss i e xs =
        let z : 0 + length tries ≡ length tries = omega arith in
        rw z at (
          tries_from 0 tries w refl
            (record {
              same_users = us;
              same_session = ss;
              known_ip = unknown-Has w.throttle.redis ip_limit t0 ip w.throttle.ips i;
              known_email =
                  unknown-Has w.throttle.redis email_limit t0 (normalize u.email) w.throttle.emails
                    e;
            })
            xs)
