-- ===== src/Auth/Login.antt =====
-- The password (`login` of app/web/auth/routes.py and `authenticate_user` of
-- app/services/auth_service.py). Whether a password fits a hash, and the new secret, are arguments; a
-- query that fails is not modelled.
use backup_center_ajust_cons.Base.{
  ℕ, Bool, List, [], ◌∷◌, ◌++◌, Option, none, some, if◌then◌else◌, get_or,
}
use backup_center_ajust_cons.Base.Rows.{find}
use backup_center_ajust_cons.Text.{Text, normalize, text_eq, is_truthy}
use backup_center_ajust_cons.Auth.Account.{
  User, Site, Activity, login_failed, Response, login_page, to_setup, to_verify,
}
use backup_center_ajust_cons.Auth.Throttle.{is_login_blocked, record_failed, clear_attempts}
use backup_center_ajust_cons.Auth.Session.{
  is_role_2fa_required, is_shut_out, store_pending, finalize, after_success,
}

abbrev pub has_email : Text → User → Bool
has_email email u = text_eq u.email email

-- The first user with the e-mail; no e-mail is none.
unfoldable pub user_by_email : Option Text → List User → Option User
user_by_email none users = none
user_by_email (some email) users = find (has_email email) users

abbrev pub if_fits : Bool → User → Option User
if_fits fits u = if fits then some u else none

-- `authenticate_user`
unfoldable pub authenticate : (Text → Text → Bool) → Option Text → Text → List User → Option User
authenticate verify email password users = elim (user_by_email email users) [
  | none ↦ none
  | some u ↦ if_fits (verify password u.password_hash) u
]

-- The branch of a password that fits.
unfoldable pub login_user :
    (now : ℕ) → (secret client_ip normalized : Text) → User → Site → Response × Site
login_user now secret client_ip normalized u w =
    let w' = record w { throttle = clear_attempts client_ip normalized w.throttle } in
    let s = store_pending u client_ip now w'.session in
    if is_shut_out u
    then (login_page, w)
    else (if is_role_2fa_required u.role
        then (if is_truthy u.totp_secret
            then (to_verify, record w' { session = s })
            else (to_setup, record w' { session = record s { setup_secret = some secret } }))
        else after_success now u (finalize u client_ip w'))

abbrev pub failed_activity : Text → Option User → List Activity
failed_activity client_ip none = []
failed_activity client_ip (some u) = login_failed u.id client_ip ∷ []

-- The branch of a password that does not fit.
unfoldable pub login_fails :
    (now : ℕ) → (client_ip normalized : Text) → Option Text → Site → Response × Site
login_fails now client_ip normalized email w = (
  login_page,
  record w {
    throttle = record_failed client_ip normalized now w.throttle;
    activities = w.activities ++ failed_activity client_ip (user_by_email email w.users);
  },
)

-- `login`, for a form that was sent
unfoldable pub login :
    (Text → Text → Bool)
    → (now : ℕ) → (secret client_ip : Text) → (email : Option Text) → (password : Text) → Site
    → Response × Site
login verify now secret client_ip email password w =
    let normalized = normalize (get_or email []) in
    if (is_login_blocked client_ip normalized now w.throttle).0
    then (login_page, w)
    else elim (authenticate verify email password w.users) [
      | some u ↦ login_user now secret client_ip normalized u w
      | none ↦ login_fails now client_ip normalized email w
    ]
