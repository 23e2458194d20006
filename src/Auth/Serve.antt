-- ===== src/Auth/Serve.antt =====
-- The routes of app/web/auth/routes.py that sign in and out, as one step on the state: what a browser
-- may ask for, in whatever order.
pub mod Code
pub mod Signed
pub mod Tries
use backup_center_ajust_cons.Base.{ℕ, Bool, List, [], ◌∷◌, Option}
use backup_center_ajust_cons.Text.{Text}
use backup_center_ajust_cons.Auth.Account.{Session, Site, Response, to_login}
use backup_center_ajust_cons.Auth.Login.{login}
use backup_center_ajust_cons.Auth.TwoFactor.{
  CodeEntry, two_factor_verify, two_factor_setup, two_factor_cancel,
}
use backup_center_ajust_cons.Auth.Password.{
  Form, Token, blank_session, force_password_change, forgot_password, reset_password,
}

-- What the packages compute: whether a password fits a hash, the hash of a password, and the HMAC of a
-- secret and a counter.
pub record Crypto : Type 0 where
  pub verify : Text → Text → Bool
  pub hash : Text → Text
  pub hmac : Text → ℕ → List ℕ

pub data Visit : Type 0 where
  logs_in :
      (now : ℕ) → (secret client_ip : Text) → (email : Option Text) → (password : Text) → Visit
  verifies : CodeEntry → Visit
  sets_up : (fresh : Text) → CodeEntry → Visit
  cancels : Visit
  logs_out : Visit
  changes : (now : ℕ) → Option Form → Visit
  forgets : (now : ℕ) → (client_ip email : Text) → Visit
  resets : (now : ℕ) → Token → Option Form → Visit

-- `logout`
abbrev pub logout : Site → Response × Site
logout w = (to_login, record w { session = blank_session })

unfoldable pub serve : Crypto → Visit → Site → Response × Site
serve c (logs_in now secret client_ip email password) w =
    login c.verify now secret client_ip email password w
serve c (verifies a) w = two_factor_verify c.hmac a w
serve c (sets_up fresh a) w = two_factor_setup c.hmac fresh a w
serve c cancels w = two_factor_cancel w
serve c logs_out w = logout w
serve c (changes now form) w = force_password_change c.hash now form w
serve c (forgets now client_ip email) w = forgot_password now client_ip email w
serve c (resets now token form) w = reset_password c.hash now token form w

unfoldable pub serve_all : Crypto → List Visit → Site → Site
serve_all c [] w = w
serve_all c (r ∷ rs) w = serve_all c rs (serve c r w).1
