-- ===== src/Auth/TwoFactor.antt =====
-- The second factor (`two_factor_setup`, `two_factor_verify` and `two_factor_cancel` of
-- app/web/auth/routes.py). A request that only asks for the page has no code. A query that fails is
-- not modelled, and the clock stands still during a request.
use backup_center_ajust_cons.Base.{ℕ, Bool, List, [], Option, none, some, if◌then◌else◌, get_or}
use backup_center_ajust_cons.Base.Rows.{replace}
use backup_center_ajust_cons.Text.{Text, normalize, text_eq, is_truthy}
use backup_center_ajust_cons.Auth.Account.{
  User, Site, Response, setup_page, verify_page, to_login, to_setup, to_verify,
}
use backup_center_ajust_cons.Auth.Throttle.{is_login_blocked, record_failed, clear_attempts}
use backup_center_ajust_cons.Auth.Totp.{verify_totp}
use backup_center_ajust_cons.Auth.Session.{
  is_role_2fa_required, is_shut_out, clear_pending, load_pending, finalize, after_login,
  after_success,
}

-- A request: the moment, the address, and the code of a form that was sent.
pub record CodeEntry : Type 0 where
  pub now : ℕ
  pub client_ip : Text
  pub code : Option Text

-- The code is right: the failures are forgotten and the session is signed in.
unfoldable pub accept : CodeEntry → User → Site → Response × Site
accept a u w = after_success a.now u (
    finalize u a.client_ip
      (record w { throttle = clear_attempts a.client_ip (normalize u.email) w.throttle }))

-- The code is wrong: it counts as a failed login, and a block ends the pending login.
unfoldable pub reject : CodeEntry → User → Response → Site → Response × Site
reject a u page w =
    let throttle = record_failed a.client_ip (normalize u.email) a.now w.throttle in
    let w' = record w { throttle = throttle } in
    if (is_login_blocked a.client_ip (normalize u.email) a.now throttle).0
    then (to_login, record w' { session = clear_pending w'.session })
    else (page, w')

-- The end of `two_factor_verify`, for a user with a secret.
unfoldable pub check_code : (Text → ℕ → List ℕ) → CodeEntry → User → Site → Response × Site
check_code hmac a u w = elim a.code [
  | none ↦ (verify_page, w)
  | some code ↦
      if verify_totp hmac a.now (get_or u.totp_secret []) code
      then accept a u w
      else reject a u verify_page w
]

-- The guards of both routes for the user of the pending login, before the code: a role that needs no
-- second factor, and a tenant that is not active.
unfoldable pub guarded : CodeEntry → User → Site → (Response × Site) → Response × Site
guarded a u w rest =
    if is_role_2fa_required u.role
    then (if is_shut_out u
        then (to_login, record w { session = clear_pending w.session })
        else rest)
    else (after_login u, finalize u a.client_ip w)

-- `two_factor_verify`
unfoldable pub two_factor_verify : (Text → ℕ → List ℕ) → CodeEntry → Site → Response × Site
two_factor_verify hmac a w =
    let (found, s) = load_pending a.now a.client_ip w.users w.session in
    let w' = record w { session = s } in
    elim found [
      | none ↦ (to_login, w')
      | some u ↦
          guarded a u w'
            (if is_truthy u.totp_secret then check_code hmac a u w' else (to_setup, w'))
    ]

abbrev pub has_id : Text → User → Bool
has_id id u = text_eq u.id id

-- `user.totp_secret = secret`
unfoldable pub keep_secret : Text → User → Site → Site
keep_secret secret u w = record w {
  users = replace (has_id u.id) (record u { totp_secret = some secret }) w.users;
}

-- The end of `two_factor_setup`, with the secret that the session holds, or a new one.
unfoldable pub check_setup :
    (Text → ℕ → List ℕ) → (fresh : Text) → CodeEntry → User → Site → Response × Site
check_setup hmac fresh a u w =
    let secret =
      if is_truthy w.session.setup_secret then get_or w.session.setup_secret [] else fresh in
    let w' = record w { session = record w.session { setup_secret = some secret } } in
    elim a.code [
      | none ↦ (setup_page, w')
      | some code ↦
          if verify_totp hmac a.now secret code
          then accept a (record u { totp_secret = some secret }) (keep_secret secret u w')
          else reject a u setup_page w'
    ]

-- `two_factor_setup`
unfoldable pub two_factor_setup :
    (Text → ℕ → List ℕ) → (fresh : Text) → CodeEntry → Site → Response × Site
two_factor_setup hmac fresh a w =
    let (found, s) = load_pending a.now a.client_ip w.users w.session in
    let w' = record w { session = s } in
    elim found [
      | none ↦ (to_login, w')
      | some u ↦
          guarded a u w'
            (if is_truthy u.totp_secret then (to_verify, w') else check_setup hmac fresh a u w')
    ]

-- `two_factor_cancel`
unfoldable pub two_factor_cancel : Site → Response × Site
two_factor_cancel w = (to_login, record w { session = clear_pending w.session })
