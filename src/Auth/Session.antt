-- ===== src/Auth/Session.antt =====
-- The session between the password and the second factor (the helpers of app/web/auth/routes.py).
use backup_center_ajust_cons.Base.{
  ℕ, ◌-◌, Bool, true, false, not, ◌&&◌, ◌||◌, List, [], ◌∷◌, ◌++◌, Option, none, some,
  if◌then◌else◌, ltb, ◌==◌,
}
use backup_center_ajust_cons.Base.Rows.{find}
use backup_center_ajust_cons.Text.{Text, codes, strip, normalize, text_eq, is_empty}
use backup_center_ajust_cons.Auth.Account.{
  Role, super_admin, tenant_owner, tenant_admin, tenant_technician, tenant_viewer, role_value,
  Company, User, Pending, Identity, Session, Site, logged_in, Response, to_superadmin, to_dashboard,
  to_login, to_force_change,
}

-- `_is_role_2fa_required` of a role that is one
unfoldable pub is_role_2fa_required : Role → Bool
is_role_2fa_required r = true

abbrev pub is_super_admin : Role → Bool
is_super_admin super_admin = true
is_super_admin tenant_owner = false
is_super_admin tenant_admin = false
is_super_admin tenant_technician = false
is_super_admin tenant_viewer = false

-- `user.role != SUPER_ADMIN and user.tenant and not user.tenant.is_active`
unfoldable pub is_shut_out : User → Bool
is_shut_out u =
    not (is_super_admin u.role) && elim u.company [ none ↦ false | some c ↦ not c.is_active ]

unfoldable pub set_session : (Session → Session) → Site → Site
set_session f w = record w { session = f w.session }

-- `_clear_pending_2fa_session`
unfoldable pub clear_pending : Session → Session
clear_pending s = record s { pending = none; setup_secret = none }

-- `_store_pending_2fa_login`
unfoldable pub store_pending : User → Text → ℕ → Session → Session
store_pending u client_ip now s = record s {
  pending =
      some (record { user_id = u.id; email = normalize u.email; ip = client_ip; issued_at = now });
}

-- PENDING_2FA_TTL_SECONDS
abbrev pub pending_ttl : ℕ
pending_ttl = 600

abbrev pub has_live_id : Text → User → Bool
has_live_id id u = text_eq u.id id && u.is_active

-- What `_load_pending_2fa_user` makes of a pending login: the user, or none.
unfoldable pub pending_user : (now : ℕ) → (client_ip : Text) → List User → Pending → Option User
pending_user now client_ip users p =
    if (p.issued_at == 0) || ltb pending_ttl (now - p.issued_at)
    then none
    else (if not (is_empty (strip p.ip)) && not (text_eq (strip p.ip) client_ip)
        then none
        else elim (find (has_live_id p.user_id) users) [
          | none ↦ none
          | some u ↦ if text_eq (normalize u.email) (normalize p.email) then some u else none
        ])

-- `_load_pending_2fa_user`: the user of the pending login, and the session
unfoldable pub load_pending :
    (now : ℕ) → (client_ip : Text) → List User → Session → Option User × Session
load_pending now client_ip users s = elim s.pending [
  | none ↦ (none, s)
  | some p ↦ elim (pending_user now client_ip users p) [
    | none ↦ (none, clear_pending s)
    | some u ↦ (some u, s)
  ]
]

abbrev pub slug_of : Option Company → Text
slug_of none = codes "admin"
slug_of (some c) = c.slug

abbrev pub identity_of : User → Identity
identity_of u = record {
  user_id = u.id;
  user_name = u.full_name;
  user_role = role_value u.role;
  tenant_slug = slug_of u.company;
}

-- `_finalize_authenticated_session`
unfoldable pub finalize : User → Text → Site → Site
finalize u client_ip w = record w {
  session = record (clear_pending w.session) { identity = some (identity_of u) };
  activities = w.activities ++ logged_in u.id client_ip ∷ [];
}

-- `_redirect_after_login`
unfoldable pub after_login : User → Response
after_login u =
    if is_super_admin u.role
    then to_superadmin
    else elim u.company [ none ↦ to_login | some c ↦ to_dashboard c.slug ]

-- `_redirect_after_auth_success`, with `_store_password_change_requirement`
unfoldable pub after_success : (now : ℕ) → User → Site → Response × Site
after_success now u w =
    if u.must_change_password
    then (
      to_force_change,
      record w {
        session = record w.session {
          password_change =
              some (record { user_id = u.id; email = normalize u.email; issued_at = now });
        };
      },
    )
    else (after_login u, w)
