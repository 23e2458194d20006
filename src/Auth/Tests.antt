-- ===== src/Auth/Tests.antt =====
-- Signing in at small inputs, and the theorems on them where their hypotheses hold.
use backup_center_ajust_cons.Base.{
  ℕ, ◌≡◌, ◌⊎◌, refl, Bool, true, false, List, [], ◌∷◌, ◌++◌, some, none, arith, ◌≤◌, ◌<◌,
}
use backup_center_ajust_cons.Base.Rows.{find}
use backup_center_ajust_cons.Text.{Text, codes, text_eq, normalize, lower, strip, lstrip, rstrip}
use backup_center_ajust_cons.Text.Dict.{lookup}
use backup_center_ajust_cons.Auth.Account.{
  tenant_owner, User, Pending, Identity, Session, Site, to_verify,
}
use backup_center_ajust_cons.Auth.Throttle.{
  Table, Throttle, is_login_blocked, clear_attempts, consume_forgot,
}
use backup_center_ajust_cons.Auth.Throttle.Lockout.{
  FailedLogin, IsUnknown, record_all, tried_ip, tried_email, login_blocked_lem,
}
use backup_center_ajust_cons.Auth.Throttle.Forgot.{consume_all, forgot_allowed_lem}
use backup_center_ajust_cons.Auth.Totp.{
  verify_totp, totp_at, code_of, six_digits, verify_totp-totp_at,
}
use backup_center_ajust_cons.Auth.Session.{
  is_shut_out, pending_user, load_pending, store_pending, finalize, after_success, after_login,
  identity_of, clear_pending, is_role_2fa_required,
}
use backup_center_ajust_cons.Auth.Login.{authenticate, user_by_email, login, login_user}
use backup_center_ajust_cons.Auth.TwoFactor.{
  CodeEntry, two_factor_verify, accept, guarded, check_code,
}
use backup_center_ajust_cons.Auth.Password.{Form}
use backup_center_ajust_cons.Auth.Serve.{Crypto, Visit, logs_in, verifies, serve, serve_all}
use backup_center_ajust_cons.Auth.Serve.Code.{identity, Passed}
use backup_center_ajust_cons.Auth.Serve.Signed.{serve_all-Passed}
use backup_center_ajust_cons.Auth.Serve.Tries.{Wrong, verify_all, wrong_codes_lem}

abbrev empty_table : Table
empty_table = record { counters = []; moments = []; blocks = [] }

abbrev fresh : Bool → Throttle
fresh redis = record {
  redis = redis;
  ips = empty_table;
  emails = empty_table;
  forgot = empty_table;
}

abbrev ann : User
ann = record {
  id = codes "1";
  email = codes "ann@x";
  password_hash = codes "pw";
  full_name = codes "Ann";
  role = tenant_owner;
  is_active = true;
  totp_secret = some (codes "S");
  must_change_password = false;
  password_changed_at = none;
  company = some (record { slug = codes "acme"; is_active = true });
}

abbrev out : Session
out = record { pending = none; setup_secret = none; identity = none; password_change = none }

abbrev world : Session → Site
world s = record {
  users = ann ∷ [];
  session = s;
  throttle = fresh true;
  activities = [];
  mails = [];
}

-- The password is its own hash, and the code is that of the counter.
abbrev crypto : Crypto
crypto = record { verify = text_eq; hash = λ p. p; hmac = λ s n. 0 ∷ 0 ∷ 0 ∷ n ∷ 0 ∷ [] }

abbrev address : Text
address = codes "9.9.9.9"

-- With the right password the pending login is stored, and the code is asked for.
login_asks_code :
    (serve crypto (logs_in 1000 [] address (some (codes "ann@x")) (codes "pw")) (world out)).0
    ≡ to_verify
unfolding serve login is_login_blocked normalize authenticate user_by_email find text_eq login_user
    is_shut_out store_pending clear_attempts is_role_2fa_required
login_asks_code = refl

abbrev failures : List FailedLogin
failures =
    record { client_ip = address; email = codes "ann@x"; time = 10 }
    ∷ record { client_ip = codes "1.1.1.1"; email = codes "ann@x"; time = 20 }
    ∷ []

abbrev known_nothing : (key : Text) → IsUnknown key empty_table
known_nothing key = unfold lookup in record { counter = refl; listed = refl; block = refl }

login_blocked_lem_example :
    (is_login_blocked address (codes "ann@x") 30 (record_all failures (fresh false))).0 ≡ false
unfolding tried_ip tried_email
login_blocked_lem_example =
    login_blocked_lem (fresh false) 5 30 address (codes "ann@x") failures (known_nothing address)
      (known_nothing (codes "ann@x")) refl (omega arith) (omega arith)

forgot_allowed_lem_example :
    (consume_forgot address 40
      (consume_all address (1 ∷ 2 ∷ 3 ∷ 4 ∷ 5 ∷ 6 ∷ 7 ∷ 8 ∷ []) (fresh true))).0.0
    ≡ false
forgot_allowed_lem_example =
    forgot_allowed_lem (fresh true) 0 40 address (1 ∷ 2 ∷ 3 ∷ 4 ∷ 5 ∷ 6 ∷ 7 ∷ 8 ∷ [])
      (known_nothing address) (omega arith) (omega arith) (omega arith)

verify_totp-totp_at_example :
    verify_totp crypto.hmac 600 (codes "S") (totp_at crypto.hmac (codes "S") 19) ≡ true
verify_totp-totp_at_example =
    verify_totp-totp_at crypto.hmac 600 19 (codes "S") refl (omega arith) (omega arith)

abbrev waiting : Pending
waiting = record { user_id = codes "1"; email = codes "ann@x"; ip = address; issued_at = 580 }

abbrev asked : Session
asked = record {
  pending = some waiting;
  setup_secret = none;
  identity = none;
  password_change = none;
}

abbrev right : CodeEntry
right = record { now = 600; client_ip = address; code = some (codes "000020") }

signed_in : identity (serve_all crypto (verifies right ∷ []) (world asked)) ≡ some (identity_of ann)
unfolding serve_all serve two_factor_verify load_pending pending_user guarded is_role_2fa_required
    is_shut_out find check_code verify_totp totp_at code_of six_digits text_eq accept finalize
    after_success after_login normalize lower strip lstrip rstrip clear_pending clear_attempts
signed_in = refl

abbrev ann_identity : Identity
ann_identity = identity_of ann

serve_all-Passed_example :
    (identity (world asked) ≡ some (identity_of ann))
    ⊎ ((before after : List Visit) × (r : Visit) × (verifies right ∷ [] ≡ before ++ r ∷ after)
        × Passed crypto r (serve_all crypto before (world asked)) (identity_of ann))
serve_all-Passed_example =
    serve_all-Passed crypto (verifies right ∷ []) (world asked) (identity_of ann) signed_in

abbrev bad : ℕ → CodeEntry
bad now = record { now = now; client_ip = address; code = some (codes "000021") }

bad-Wrong :
    (now : ℕ)
    → pending_user now address (ann ∷ []) waiting ≡ some ann
    → 580 ≤ now
    → now < 1480
    → verify_totp crypto.hmac now (codes "S") (codes "000021") ≡ false
    → Wrong crypto.hmac (ann ∷ []) asked waiting ann address 580 (bad now)
bad-Wrong now l a b v = record {
  from = refl;
  late = a;
  soon = b;
  loaded = l;
  code = codes "000021";
  typed = refl;
  wrong = v;
}

one_bad : Wrong crypto.hmac (ann ∷ []) asked waiting ann address 580 (bad 690)
unfolding pending_user find normalize lower strip lstrip rstrip text_eq verify_totp totp_at code_of
    six_digits
one_bad = bad-Wrong 690 refl (omega arith) (omega arith) refl

wrong_codes_lem_example :
    (verify_all crypto.hmac (bad 690 ∷ bad 690 ∷ []) (world asked)).session.pending ≡ some waiting
wrong_codes_lem_example =
    wrong_codes_lem crypto.hmac (ann ∷ []) asked waiting ann address 580 refl
      (unfold is_shut_out in refl) refl (unfold normalize lower strip lstrip rstrip in refl)
      (bad 690 ∷ bad 690 ∷ []) (world asked) refl refl (known_nothing address)
      (known_nothing (normalize ann.email)) (one_bad, (one_bad, tt))

abbrev renewal : Form
renewal = record { password = codes "Abcdef1!"; confirm = codes "Abcdef1!" }
