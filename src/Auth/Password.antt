-- ===== src/Auth/Password.antt =====
-- New passwords (`validate_password_strength` of app/core/security.py, and `force_password_change`,
-- `forgot_password` and `reset_password` of app/web/auth/routes.py). The hash of a password, and what
-- the serializer makes of a token, are arguments.
pub mod Renewed
use backup_center_ajust_cons.Base.{
  ℕ, Bool, true, false, not, ◌&&◌, ◌||◌, List, [], ◌∷◌, ◌++◌, Option, none, some, if◌then◌else◌,
  get_or, leb, ltb, any, length,
}
use backup_center_ajust_cons.Base.Rows.{find, replace}
use backup_center_ajust_cons.Text.{Text, lower, strip, text_eq, is_empty}
use backup_center_ajust_cons.Text.Number.{is_digit}
use backup_center_ajust_cons.Auth.Account.{
  User, Session, Site, Identity, Response, to_login, to_forgot, force_change_page, reset_page,
  forgot_page,
}
use backup_center_ajust_cons.Auth.Throttle.{consume_forgot}
use backup_center_ajust_cons.Auth.Session.{has_live_id, after_login}
use backup_center_ajust_cons.Auth.TwoFactor.{has_id}

-- What a password lacks.
pub data Weakness : Type 0 where
  too_short no_upper no_lower no_digit no_special : Weakness

abbrev pub is_upper : ℕ → Bool
is_upper c = leb 65 c && leb c 90

abbrev pub is_lower : ℕ → Bool
is_lower c = leb 97 c && leb c 122

abbrev pub is_special : ℕ → Bool
is_special c = not (is_upper c || (is_lower c || is_digit c))

-- `validate_password_strength`
unfoldable pub password_error : Text → Option Weakness
password_error value =
    if ltb (length value) 8
    then some too_short
    else (if not (any is_upper value)
        then some no_upper
        else (if not (any is_lower value)
            then some no_lower
            else (if not (any is_digit value)
                then some no_digit
                else (if not (any is_special value) then some no_special else none))))

-- The two fields of a form that was sent.
pub record Form : Type 0 where
  pub password : Text
  pub confirm : Text

-- Whether both fields agree and the password is strong enough.
unfoldable pub is_accepted : Form → Bool
is_accepted f =
    if is_empty f.password || not (text_eq f.password f.confirm)
    then false
    else elim (password_error f.password) [ none ↦ true | some e ↦ false ]

-- The three fields that a new password writes.
unfoldable pub change_password : (Text → Text) → (now : ℕ) → Text → User → Site → Site
change_password hash now password u w = record w {
  users =
      replace (has_id u.id)
        (record u {
          password_hash = hash password;
          must_change_password = false;
          password_changed_at = some now;
        })
        w.users;
}

abbrev pub blank_session : Session
blank_session = record {
  pending = none;
  setup_secret = none;
  identity = none;
  password_change = none;
}

-- The part of `force_password_change` for the user of the session.
unfoldable pub change_forced :
    (Text → Text) → (now : ℕ) → Option Form → User → Site → Response × Site
change_forced hash now form u w =
    let done = λ (w : Site). record w { session = record w.session { password_change = none } } in
    if u.must_change_password
    then elim form [
      | none ↦ (force_change_page, w)
      | some f ↦
          if is_accepted f
          then (after_login u, done (change_password hash now f.password u w))
          else (force_change_page, w)
    ]
    else (after_login u, done w)

-- `force_password_change`
unfoldable pub force_password_change :
    (Text → Text) → (now : ℕ) → Option Form → Site → Response × Site
force_password_change hash now form w = elim w.session.identity [
  | none ↦ (to_login, w)
  | some i ↦
      if is_empty i.user_id then (to_login, w) else elim (find (has_live_id i.user_id) w.users) [
        | none ↦ (to_login, record w { session = blank_session })
        | some u ↦ change_forced hash now form u w
      ]
]

-- `func.lower(User.email) == email_lookup`
abbrev pub has_lower_email : Text → User → Bool
has_lower_email email u = text_eq (lower u.email) email

-- `forgot_password`, for a form that was sent; the mail is sent with a token for the user.
unfoldable pub forgot_password : (now : ℕ) → (client_ip email : Text) → Site → Response × Site
forgot_password now client_ip email w =
    let (allowed, throttle) = consume_forgot client_ip now w.throttle in
    let w' = record w { throttle = throttle } in
    let typed = strip email in
    if allowed.0
    then (if is_empty typed
        then (to_login, w')
        else elim (find (has_lower_email (lower typed)) w.users) [
          | none ↦ (to_login, w')
          | some u ↦ (to_login, record w' { mails = w.mails ++ (u.id, u.email) ∷ [] })
        ])
    else (to_forgot, w')

-- What `serializer.loads` with an age of at most 3600 seconds makes of a token.
pub data Token : Type 0 where
  refused : Token
  valid : (user_id email : Text) → Token

abbrev pub has_id_and_email : (id email : Text) → User → Bool
has_id_and_email id email u = text_eq u.id id && text_eq u.email email

-- `reset_password`; a token that has expired and one that is bad lead to the same route
unfoldable pub reset_password :
    (Text → Text) → (now : ℕ) → Token → Option Form → Site → Response × Site
reset_password hash now refused form w = (to_forgot, w)
reset_password hash now (valid id email) form w = elim (find (has_id_and_email id email) w.users) [
  | none ↦ (to_forgot, w)
  | some u ↦ elim form [
    | none ↦ (reset_page, w)
    | some f ↦
        if is_accepted f
        then (to_login, change_password hash now f.password u w)
        else (reset_page, w)
  ]
]
