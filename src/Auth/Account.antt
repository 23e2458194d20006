-- ===== src/Auth/Account.antt =====
-- The users, the session of one browser, and what a handler of app/web/auth/routes.py answers.
use backup_center_ajust_cons.Base.{ℕ, Bool, List, Option}
use backup_center_ajust_cons.Text.{Text, codes}
use backup_center_ajust_cons.Auth.Throttle.{Throttle}

-- `UserRole`
pub data Role : Type 0 where
  super_admin tenant_owner tenant_admin tenant_technician tenant_viewer : Role

abbrev pub role_value : Role → Text
role_value super_admin = codes "super_admin"
role_value tenant_owner = codes "tenant_owner"
role_value tenant_admin = codes "tenant_admin"
role_value tenant_technician = codes "tenant_technician"
role_value tenant_viewer = codes "tenant_viewer"

-- The columns of a user's tenant that signing in reads.
pub record Company : Type 0 where
  pub slug : Text
  pub is_active : Bool

-- `User`, with `user.tenant`
pub record User : Type 0 where
  pub id : Text
  pub email : Text
  pub password_hash : Text
  pub full_name : Text
  pub role : Role
  pub is_active : Bool
  pub totp_secret : Option Text
  pub must_change_password : Bool
  pub password_changed_at : Option ℕ
  pub company : Option Company

-- The value under PENDING_2FA_SESSION_KEY.
pub record Pending : Type 0 where
  pub user_id : Text
  pub email : Text
  pub ip : Text
  pub issued_at : ℕ

-- `user_id`, `user_name`, `user_role` and `tenant_slug` of a session that has signed in.
pub record Identity : Type 0 where
  pub user_id : Text
  pub user_name : Text
  pub user_role : Text
  pub tenant_slug : Text

-- The value under PASSWORD_CHANGE_SESSION_KEY.
pub record PasswordChange : Type 0 where
  pub user_id : Text
  pub email : Text
  pub issued_at : ℕ

-- The session of a browser, which Flask signs.
pub record Session : Type 0 where
  pub pending : Option Pending
  pub setup_secret : Option Text
  pub identity : Option Identity
  pub password_change : Option PasswordChange

-- The actions that ActivityService logs.
pub data Activity : Type 0 where
  logged_in : (user_id client_ip : Text) → Activity
  login_failed : (user_id client_ip : Text) → Activity

pub record Site : Type 0 where
  pub users : List User
  pub session : Session
  pub throttle : Throttle
  pub activities : List Activity
  -- the e-mails with a link that were sent, by the user's id and address
  pub mails : List (Text × Text)

-- What a handler answers: a page that is rendered or a route to go to.
pub data Response : Type 0 where
  login_page setup_page verify_page force_change_page forgot_page reset_page : Response
  to_login to_setup to_verify to_force_change to_forgot to_superadmin : Response
  to_dashboard : Text → Response
