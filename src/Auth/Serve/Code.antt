-- ===== src/Auth/Serve/Code.antt =====
-- A session is signed in only by a code of the second factor.
use backup_center_ajust_cons.Base.{
  ℕ, ◌≡◌, ◌⊎◌, refl, ◌∙◌, inl, inr, Bool, true, false, List, [], Option, none, some, arith,
  if◌then◌else◌, get_or, Bool-cases, Option-cases,
}
use backup_center_ajust_cons.Text.{Text, is_truthy, normalize}
use backup_center_ajust_cons.Auth.Account.{User, Identity, Session, Site, Response, Pending}
use backup_center_ajust_cons.Auth.Throttle.{is_login_blocked, record_failed}
use backup_center_ajust_cons.Auth.Totp.{verify_totp}
use backup_center_ajust_cons.Auth.Session.{
  is_role_2fa_required, is_shut_out, clear_pending, store_pending, load_pending, pending_user,
  identity_of, finalize, after_success,
}
use backup_center_ajust_cons.Auth.Login.{login, login_user, login_fails, authenticate}
use backup_center_ajust_cons.Auth.TwoFactor.{
  CodeEntry, accept, reject, guarded, check_code, check_setup, two_factor_verify, two_factor_setup,
  keep_secret,
}
use backup_center_ajust_cons.Auth.Serve.{Crypto, Visit, verifies, sets_up}

abbrev pub identity : Site → Option Identity
identity w = w.session.identity

-- The secret of the second factor: the user's, or the one of the session that sets it up, or a new one.
abbrev pub secret_of : Visit → User → Session → Text
secret_of (sets_up fresh a) u s =
    if is_truthy s.setup_secret then get_or s.setup_secret [] else fresh
secret_of r u s = get_or u.totp_secret []

abbrev pub attempt_of : Visit → Option CodeEntry
attempt_of (verifies a) = some a
attempt_of (sets_up fresh a) = some a
attempt_of r = none

-- What signs a user in: a code that fits the secret, from the address of a pending login that is not
-- too old, of a user that is active and whose tenant is.
pub record Passed (c : Crypto) (r : Visit) (w : Site) (i : Identity) : Type 0 where
  pub attempt : CodeEntry
  pub login : Pending
  pub user : User
  pub code : Text
  pub asked : attempt_of r ≡ some attempt
  pub waited : w.session.pending ≡ some login
  pub loaded : pending_user attempt.now attempt.client_ip w.users login ≡ some user
  pub let_in : is_shut_out user ≡ false
  pub typed : attempt.code ≡ some code
  pub fits : verify_totp c.hmac attempt.now (secret_of r user w.session) code ≡ true
  pub named : i ≡ identity_of user

identity-after_success :
    (now : ℕ) (u : User) (w : Site) → identity (after_success now u w).1 ≡ identity w
unfolding after_success
identity-after_success now u w = elim (Bool-cases u.must_change_password) [
  | inl e ↦ rw e refl
  | inr e ↦ rw e refl
]

identity-accept :
    (a : CodeEntry) (u : User) (w : Site) → identity (accept a u w).1 ≡ some (identity_of u)
unfolding accept
identity-accept a u w = identity-after_success a.now u _ ∙ (unfold finalize in refl)

identity-reject :
    (a : CodeEntry) (u : User) (page : Response) (w : Site)
    → identity (reject a u page w).1 ≡ identity w
unfolding reject
identity-reject a u page w =
    elim (Bool-cases
      (is_login_blocked a.client_ip (normalize u.email) a.now
        (record_failed a.client_ip (normalize u.email) a.now w.throttle)).0) [
          | inl e ↦ rw e (unfold clear_pending in refl)
          | inr e ↦ rw e refl
        ]

identity-login_user :
    (now : ℕ) (secret ip email : Text) (u : User) (w : Site)
    → identity (login_user now secret ip email u w).1 ≡ identity w
unfolding login_user store_pending is_role_2fa_required
identity-login_user now secret ip email u w = elim (Bool-cases (is_shut_out u)) [
  | inl e ↦ rw e refl
  | inr e ↦
      rw e (elim (Bool-cases (is_truthy u.totp_secret)) [ inl t ↦ rw t refl | inr t ↦ rw t refl ])
]

pub identity-login :
    (verify : Text → Text → Bool) (now : ℕ) (secret ip : Text) (email : Option Text)
    (password : Text) (w : Site)
    → identity (login verify now secret ip email password w).1 ≡ identity w
unfolding login login_fails
identity-login verify now secret ip email password w =
    elim (Bool-cases (is_login_blocked ip (normalize (get_or email [])) now w.throttle).0) [
      | inl e ↦ rw e refl
      | inr e ↦ rw e (elim (Option-cases (authenticate verify email password w.users)) [
        | inl f ↦ rw (f, login) refl
        | inr (u, f) ↦
            rw (f, login) (identity-login_user now secret ip (normalize (get_or email [])) u w)
      ])
    ]

load_some :
    (now : ℕ) (ip : Text) (users : List User) (s : Session) (u : User)
    → (load_pending now ip users s).0 ≡ some u
    → (p : Pending) × (s.pending ≡ some p)
      × (pending_user now ip users p ≡ some u)
      × ((load_pending now ip users s).1 ≡ s)
unfolding load_pending
load_some now ip users s u h = elim (Option-cases s.pending) [
  | inl e ↦ ground (arith, e)
  | inr (p, e) ↦ elim (Option-cases (pending_user now ip users p)) [
    | inl f ↦ ground (arith, e, f)
    | inr (v, f) ↦ (p, e, ground (arith, e, f), ground (arith, e, f))
  ]
]

load_identity :
    (now : ℕ) (ip : Text) (users : List User) (s : Session)
    → (load_pending now ip users s).1.identity ≡ s.identity
unfolding load_pending clear_pending
load_identity now ip users s = elim (Option-cases s.pending) [
  | inl e ↦ ground (arith, e)
  | inr (p, e) ↦ elim (Option-cases (pending_user now ip users p)) [
    | inl f ↦ ground (arith, e, f)
    | inr (v, f) ↦ ground (arith, e, f)
  ]
]

-- A step leaves the identity of the session, or signs it in by a code.
abbrev pub Outcome : Crypto → Visit → Site → Site → Type 0
Outcome c r w w' =
    (identity w' ≡ identity w) ⊎ ((i : Identity) × (identity w' ≡ some i) × Passed c r w i)

module _ (c : Crypto) (a : CodeEntry) (w : Site) (u : User) (p : Pending)
    (waited : w.session.pending ≡ some p)
    (loaded : pending_user a.now a.client_ip w.users p ≡ some u)
    (let_in : is_shut_out u ≡ false) where
  verify-Outcome : Outcome c (verifies a) w (check_code c.hmac a u w).1
  unfolding check_code
  verify-Outcome = elim (Option-cases a.code) [
    | inl e ↦ inl (ground (arith, e))
    | inr (code, e) ↦ elim (Bool-cases (verify_totp c.hmac a.now (get_or u.totp_secret []) code)) [
      | inl f ↦ inr (identity_of u, rw (e, f, check_code) (identity-accept a u w), passed code e f)
      | inr f ↦ inl (rw (e, f, check_code) (identity-reject a u _ w))
    ]
  ]
    where
      passed :
          (code : Text)
          → a.code ≡ some code
          → verify_totp c.hmac a.now (get_or u.totp_secret []) code ≡ true
          → Passed c (verifies a) w (identity_of u)
      passed code e f = record {
        attempt = a;
        login = p;
        user = u;
        code = code;
        asked = refl;
        waited = waited;
        loaded = loaded;
        let_in = let_in;
        typed = e;
        fits = f;
        named = refl;
      }

  module _ (fresh : Text) where
    setup_secret : Text
    setup_secret = secret_of (sets_up fresh a) u w.session

    setup-Outcome : Outcome c (sets_up fresh a) w (check_setup c.hmac fresh a u w).1
    unfolding check_setup setup_secret keep_secret
    setup-Outcome = elim (Option-cases a.code) [
      | inl e ↦ inl (ground (arith, e))
      | inr (code, e) ↦ elim (Bool-cases (verify_totp c.hmac a.now setup_secret code)) [
        | inl f ↦
            inr (identity_of u, rw (e, f, check_setup) (identity-accept a _ _), passed code e f)
        | inr f ↦ inl (rw (e, f, check_setup) (identity-reject a u _ _))
      ]
    ]
      where
        passed :
            (code : Text)
            → a.code ≡ some code
            → verify_totp c.hmac a.now setup_secret code ≡ true
            → Passed c (sets_up fresh a) w (identity_of u)
        passed code e f = record {
          attempt = a;
          login = p;
          user = u;
          code = code;
          asked = refl;
          waited = waited;
          loaded = loaded;
          let_in = let_in;
          typed = e;
          fits = f;
          named = refl;
        }

-- The guards answer before the code, or let the request go on for a user whose tenant is active.
guarded-Outcome :
    (c : Crypto) (r : Visit) (a : CodeEntry) (u : User) (w : Site) (rest : Response × Site)
    → (is_shut_out u ≡ false → Outcome c r w rest.1)
    → Outcome c r w (guarded a u w rest).1
unfolding guarded is_role_2fa_required clear_pending
guarded-Outcome c r a u w rest go = elim (Bool-cases (is_shut_out u)) [
  | inl e ↦ inl (rw e refl)
  | inr e ↦ rw e (go e)
]

pub route_verify :
    (c : Crypto) (a : CodeEntry) (w : Site)
    → Outcome c (verifies a) w (two_factor_verify c.hmac a w).1
unfolding two_factor_verify
route_verify c a w = elim (Option-cases (load_pending a.now a.client_ip w.users w.session).0) [
  | inl e ↦ inl (rw (e, two_factor_verify) (load_identity a.now a.client_ip w.users w.session))
  | inr (u, e) ↦
      let (p, waited, loaded, same) = load_some a.now a.client_ip w.users w.session u e in
      rw (e, same, two_factor_verify)
        (guarded-Outcome c (verifies a) a u w _ (λ let_in.
          elim (Bool-cases (is_truthy u.totp_secret)) [
            | inl t ↦ rw t (verify-Outcome c a w u p waited loaded let_in)
            | inr t ↦ inl (rw t refl)
          ]))
]

pub route_setup :
    (c : Crypto) (fresh : Text) (a : CodeEntry) (w : Site)
    → Outcome c (sets_up fresh a) w (two_factor_setup c.hmac fresh a w).1
unfolding two_factor_setup
route_setup c fresh a w = elim (Option-cases (load_pending a.now a.client_ip w.users w.session).0) [
  | inl e ↦ inl (rw (e, two_factor_setup) (load_identity a.now a.client_ip w.users w.session))
  | inr (u, e) ↦
      let (p, waited, loaded, same) = load_some a.now a.client_ip w.users w.session u e in
      rw (e, same, two_factor_setup)
        (guarded-Outcome c (sets_up fresh a) a u w _ (λ let_in.
          elim (Bool-cases (is_truthy u.totp_secret)) [
            | inl t ↦ inl (rw t refl)
            | inr t ↦ rw t (setup-Outcome c a w u p waited loaded let_in fresh)
          ]))
]
