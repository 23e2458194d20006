-- ===== src/Auth/Serve/Signed.antt =====
-- Whatever a browser asks for, and in whatever order, its session is signed in only by a code.
use backup_center_ajust_cons.Base.{
  ℕ, ◌≡◌, ◌⊎◌, refl, sym, ap, ◌∙◌, inl, inr, List, [], ◌∷◌, ◌++◌, Option, none, some, arith,
  Bool-cases, Option-cases,
}
use backup_center_ajust_cons.Base.Rows.{find}
use backup_center_ajust_cons.Text.{Text, is_empty, strip, lower}
use backup_center_ajust_cons.Auth.Account.{User, Identity, Site}
use backup_center_ajust_cons.Auth.Throttle.{consume_forgot}
use backup_center_ajust_cons.Auth.Session.{has_live_id, clear_pending}
use backup_center_ajust_cons.Auth.TwoFactor.{two_factor_cancel, two_factor_verify, two_factor_setup}
use backup_center_ajust_cons.Auth.Password.{
  Form, Token, refused, valid, is_accepted, change_password, change_forced, force_password_change,
  forgot_password, reset_password, has_id_and_email, has_lower_email,
}
use backup_center_ajust_cons.Auth.Serve.{
  Crypto, Visit, logs_in, verifies, sets_up, cancels, logs_out, changes, forgets, resets, serve,
  serve_all,
}
use backup_center_ajust_cons.Auth.Serve.Code.{
  identity, Passed, Outcome, identity-login, route_verify, route_setup,
}

-- The session keeps its identity, or it is signed out.
abbrev Left : Site → Site → Type 0
Left w w' = (identity w' ≡ identity w) ⊎ (identity w' ≡ none)

forced_same :
    (hash : Text → Text) (now : ℕ) (form : Option Form) (u : User) (w : Site)
    → identity (change_forced hash now form u w).1 ≡ identity w
unfolding change_forced change_password
forced_same hash now none u w = elim (Bool-cases u.must_change_password) [
  | inl m ↦ rw m refl
  | inr m ↦ rw m refl
]
forced_same hash now (some f) u w = elim (Bool-cases u.must_change_password) [
  | inl m ↦ rw m (elim (Bool-cases (is_accepted f)) [ inl k ↦ rw k refl | inr k ↦ rw k refl ])
  | inr m ↦ rw m refl
]

forced-Left :
    (hash : Text → Text) (now : ℕ) (form : Option Form) (w : Site)
    → Left w (force_password_change hash now form w).1
unfolding force_password_change
forced-Left hash now form w = elim (Option-cases w.session.identity) [
  | inl e ↦ inl (rw (e, force_password_change) e)
  | inr (i, e) ↦ elim (Bool-cases (is_empty i.user_id)) [
    | inl b ↦ inl (rw (e, force_password_change, b) e)
    | inr b ↦ elim (Option-cases (find (has_live_id i.user_id) w.users)) [
      | inl f ↦ inr (rw (e, force_password_change, b, f) refl)
      | inr (u, f) ↦ inl (rw (e, force_password_change, b, f) (forced_same hash now form u w ∙ e))
    ]
  ]
]

forgot-Left :
    (now : ℕ) (ip email : Text) (w : Site)
    → identity (forgot_password now ip email w).1 ≡ identity w
unfolding forgot_password
forgot-Left now ip email w = elim (Bool-cases (consume_forgot ip now w.throttle).0.0) [
  | inr e ↦ rw e refl
  | inl e ↦ rw e (elim (Bool-cases (is_empty (strip email))) [
    | inl b ↦ rw b refl
    | inr b ↦ rw b (elim (Option-cases (find (has_lower_email (lower (strip email))) w.users)) [
      | inl f ↦ rw (f, forgot_password) refl
      | inr (u, f) ↦ rw (f, forgot_password) refl
    ])
  ])
]

reset-Left :
    (hash : Text → Text) (now : ℕ) (token : Token) (form : Option Form) (w : Site)
    → identity (reset_password hash now token form w).1 ≡ identity w
unfolding reset_password change_password
reset-Left hash now refused form w = refl
reset-Left hash now (valid id email) none w =
    elim (Option-cases (find (has_id_and_email id email) w.users)) [
      | inl f ↦ rw (f, reset_password) refl
      | inr (u, f) ↦ rw (f, reset_password) refl
    ]
reset-Left hash now (valid id email) (some form) w =
    elim (Option-cases (find (has_id_and_email id email) w.users)) [
      | inl f ↦ rw (f, reset_password) refl
      | inr (u, f) ↦
          rw (f, reset_password)
            (elim (Bool-cases (is_accepted form)) [ inl k ↦ rw k refl | inr k ↦ rw k refl ])
    ]

of_outcome :
    (c : Crypto) (r : Visit) (w w' : Site) (i : Identity)
    → Outcome c r w w'
    → identity w' ≡ some i
    → (identity w ≡ some i) ⊎ Passed c r w i
of_outcome c r w w' i (inl e) h = inl (sym e ∙ h)
of_outcome c r w w' i (inr (j, e, p)) h =
    let same : j ≡ i = ground (arith, e, h) in inr (rw (← same) p)

-- If a session is signed in as somebody after a request, it was signed in as them before, or the
-- request sent a code that fits the secret of a user, who is active and whose tenant, if they are no
-- super admin and have one, is active, for a pending login of theirs that came from the same address and is
-- at most ten minutes old; and they are that somebody.
pub serve-Passed :
    (c : Crypto) (r : Visit) (w : Site) (i : Identity)
    → identity (serve c r w).1 ≡ some i
    → (identity w ≡ some i) ⊎ Passed c r w i
unfolding serve
serve-Passed c (logs_in now secret ip email password) w i h =
    inl (sym (identity-login c.verify now secret ip email password w) ∙ h)
serve-Passed c (verifies a) w i h =
    of_outcome c (verifies a) w (two_factor_verify c.hmac a w).1 i (route_verify c a w) h
serve-Passed c (sets_up fresh a) w i h =
    of_outcome c (sets_up fresh a) w (two_factor_setup c.hmac fresh a w).1 i
      (route_setup c fresh a w) h
serve-Passed c cancels w i h = inl (unfold two_factor_cancel clear_pending in h)
serve-Passed c logs_out w i h = cc
serve-Passed c (changes now form) w i h = elim (forced-Left c.hash now form w) [
  | inl e ↦ inl (sym e ∙ h)
  | inr e ↦ cc
]
serve-Passed c (forgets now ip email) w i h = inl (sym (forgot-Left now ip email w) ∙ h)
serve-Passed c (resets now token form) w i h = inl (sym (reset-Left c.hash now token form w) ∙ h)

-- If a session is signed in as somebody after any requests, it was signed in as them at the start, or
-- one of the requests sent a code as `Passed` says, in the state that the requests before it have left.
pub serve_all-Passed :
    (c : Crypto) (rs : List Visit) (w : Site) (i : Identity)
    → identity (serve_all c rs w) ≡ some i
    → (identity w ≡ some i)
      ⊎ ((before after : List Visit) × (r : Visit) × (rs ≡ before ++ r ∷ after)
          × Passed c r (serve_all c before w) i)
unfolding serve_all
serve_all-Passed c [] w i h = inl h
serve_all-Passed c (r ∷ rs) w i h = elim (serve_all-Passed c rs (serve c r w).1 i h) [
  | inr (before, after, r', e, p) ↦ inr (r ∷ before, after, r', ap (◌∷◌ r) e, p)
  | inl e ↦ elim (serve-Passed c r w i e) [ inl f ↦ inl f | inr p ↦ inr ([], rs, r, refl, p) ]
]
