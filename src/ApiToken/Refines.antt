-- ===== src/ApiToken/Refines.antt =====
-- What the service of the API tokens promises: it answers as one that keeps the tokens themselves and
-- compares them (app/services/api_token_service.py).
use mathlib.Core.Bool.{false≢true}
use backup_center_ajust_cons.Base.{
  ℕ, ◌≡◌, refl, sym, ap, ◌∙◌, Bool, true, false, not, ◌&&◌, ◌||◌, List, [], ◌∷◌, ◌++◌, map, Option,
  none, some, if◌then◌else◌, inl, inr, Bool-cases, ltb, filter,
}
use backup_center_ajust_cons.Base.Rows.{find, replace}
use backup_center_ajust_cons.Base.Slice.{take}
use backup_center_ajust_cons.Text.{Text, is_empty, text_eq, starts_with}
use backup_center_ajust_cons.Text.Laws.{text_eq_iff}
use backup_center_ajust_cons.ApiToken.{
  TokenRow, token_start, is_expired, NewToken, raw_of, has_token_id, is_owned, is_candidate,
  revoke_found, keep_used, verify_among, Call, create, try_token, revoke, Reply, created, checked,
  revoked, owner_of, serve_call, serve_calls,
}

-- A token that was given, with what the table does not keep.
pub record Grant : Type 0 where
  pub token : NewToken
  pub is_active : Bool
  pub last_used_at : Option ℕ

abbrev pub grant_row : (Text → Text → Text) → Grant → TokenRow
grant_row hash g = record {
  id = g.token.id;
  tenant_id = g.token.tenant_id;
  user_id = g.token.user_id;
  name = g.token.name;
  token_prefix = take 12 (raw_of g.token);
  token_hash = hash g.token.salt (raw_of g.token);
  is_active = g.is_active;
  last_used_at = g.last_used_at;
  expires_at = g.token.expires_at;
}

abbrev pub grant_over : ℕ → Grant → Bool
grant_over now g = elim g.token.expires_at [ none ↦ false | some moment ↦ ltb moment now ]

-- The first active grant of the very token, unless it is over.
unfoldable pub grant_for : Text → ℕ → List Grant → Option Grant
grant_for raw now [] = none
grant_for raw now (g ∷ gs) =
    let rest = grant_for raw now gs in
    if g.is_active && text_eq raw (raw_of g.token)
    then (if grant_over now g then none else some (record g { last_used_at = some now }))
    else rest

abbrev pub holder_of : Option Grant → Option (Text × Text)
holder_of none = none
holder_of (some g) = some (g.token.id, g.token.tenant_id)

abbrev owns : Text → Text → Grant → Bool
owns id tenant g = text_eq g.token.id id && text_eq g.token.tenant_id tenant

abbrev has_grant_id : Text → Grant → Bool
has_grant_id id g = text_eq g.token.id id

abbrev check_found : List Grant → Option Grant → Reply × List Grant
check_found gs none = (checked none, gs)
check_found gs (some g) =
    (checked (some (g.token.id, g.token.tenant_id)), replace (has_grant_id g.token.id) g gs)

abbrev revoke_grant : (Grant → Bool) → List Grant → Option Grant → Reply × List Grant
revoke_grant owned gs none = (revoked false, gs)
revoke_grant owned gs (some g) = (revoked true, replace owned (record g { is_active = false }) gs)

-- A call, for the service that keeps the tokens.
unfoldable pub grant_call : Call → List Grant → Reply × List Grant
grant_call (create a) gs =
    (created (raw_of a), gs ++ record { token = a; is_active = true; last_used_at = none } ∷ [])
grant_call (try_token raw now) gs = check_found gs (grant_for raw now gs)
grant_call (revoke id tenant) gs = revoke_grant (owns id tenant) gs (find (owns id tenant) gs)

unfoldable pub grant_calls : List Call → List Grant → List Reply × List Grant
grant_calls [] gs = ([], gs)
grant_calls (c ∷ cs) gs =
    let (answer, gs') = grant_call c gs in
    let (answers, after) = grant_calls cs gs' in (answer ∷ answers, after)

module _ (hash : Text → Text → Text) (verify : Text → Text → Bool)
    (law : (raw salt text : Text) → verify raw (hash salt text) ≡ text_eq raw text) where
  and_false : (b : Bool) → (b && false) ≡ false
  and_false true = refl
  and_false false = refl

  abbrev rows : List Grant → List TokenRow
  rows = map (grant_row hash)

  abbrev row_if : Option Grant → Option TokenRow
  row_if none = none
  row_if (some g) = some (grant_row hash g)

  row_if_else :
      (b : Bool) (g : Grant)
      → (if b then none else some (grant_row hash g)) ≡ row_if (if b then none else some g)
  row_if_else true g = refl
  row_if_else false g = refl

  rows-append : (gs hs : List Grant) → rows (gs ++ hs) ≡ rows gs ++ rows hs
  rows-append [] hs = refl
  rows-append (g ∷ gs) hs = ap (◌∷◌ (grant_row hash g)) (rows-append gs hs)

  find-rows :
      (id tenant : Text) (gs : List Grant)
      → find (is_owned id tenant) (rows gs) ≡ row_if (find (owns id tenant) gs)
  unfolding find
  find-rows id tenant [] = refl
  find-rows id tenant (g ∷ gs) = elim (Bool-cases (owns id tenant g)) [
    | inl e ↦ rw e refl
    | inr e ↦ rw e (find-rows id tenant gs)
  ]

  replace-rows :
      (p : TokenRow → Bool) (g : Grant) (gs : List Grant)
      → replace p (grant_row hash g) (rows gs) ≡ rows (replace (λ h. p (grant_row hash h)) g gs)
  unfolding replace
  replace-rows p g [] = refl
  replace-rows p g (h ∷ gs) = elim (Bool-cases (p (grant_row hash h))) [
    | inl e ↦ rw e refl
    | inr e ↦ rw e (ap (◌∷◌ (grant_row hash h)) (replace-rows p g gs))
  ]

  verify_among-rows :
      (raw : Text) (now : ℕ) (gs : List Grant)
      → verify_among hash verify raw now (filter (is_candidate (take 12 raw)) (rows gs))
        ≡ row_if (grant_for raw now gs)
  unfolding verify_among is_expired grant_for
  verify_among-rows raw now [] = refl
  verify_among-rows raw now (g ∷ gs) =
      let token = raw_of g.token in
      elim (Bool-cases (text_eq raw token)) [
        | inl e ↦
            let same =
              (text_eq_iff (take 12 token) (take 12 raw)).1
                (ap (take 12) (sym ((text_eq_iff raw token).0 e))) in
            elim (Bool-cases g.is_active) [
              | inl a ↦
                  rw (same, a, law raw g.token.salt token, e)
                    (row_if_else (grant_over now g)
                      (record g { is_active = true; last_used_at = some now }))
              | inr a ↦ rw (same, a) (verify_among-rows raw now gs)
            ]
        | inr e ↦ elim (Bool-cases (is_candidate (take 12 raw) (grant_row hash g))) [
          | inl c ↦
              rw (c, law raw g.token.salt token, e, and_false g.is_active)
                (verify_among-rows raw now gs)
          | inr c ↦ rw (c, e, and_false g.is_active) (verify_among-rows raw now gs)
        ]
      ]

  not_ours :
      (raw : Text) (now : ℕ) (gs : List Grant)
      → (is_empty raw || not (starts_with token_start raw)) ≡ true
      → grant_for raw now gs ≡ none
  unfolding grant_for starts_with
  not_ours raw now [] h = refl
  not_ours raw now (g ∷ gs) h = elim (Bool-cases (text_eq raw (raw_of g.token))) [
    | inl e ↦ absurd (
        false≢true (
          sym (
            ap (λ t. is_empty t || not (starts_with token_start t))
              ((text_eq_iff raw (raw_of g.token)).0 e))
          ∙ h))
    | inr e ↦ rw (e, and_false g.is_active) (not_ours raw now gs h)
  ]

  unfoldable both : Reply × List Grant → Reply × List TokenRow
  both (answer, gs) = (answer, rows gs)

  revoke_found-rows :
      (id tenant : Text) (gs : List Grant) (o : Option Grant)
      → let (ok, after) = revoke_found (is_owned id tenant) (rows gs) (row_if o) in
        (revoked ok, after) ≡ both (revoke_grant (owns id tenant) gs o)
  unfolding both
  revoke_found-rows id tenant gs none = refl
  revoke_found-rows id tenant gs (some g) =
      ap (λ ts. (revoked true, ts))
        (replace-rows (is_owned id tenant) (record g { is_active = false }) gs)

  keep_used-rows :
      (gs : List Grant) (o : Option Grant)
      → let (found, after) = keep_used (rows gs) (row_if o) in
        (checked (owner_of found), after) ≡ both (check_found gs o)
  unfolding both
  keep_used-rows gs none = refl
  keep_used-rows gs (some g) =
      ap (λ ts. (checked (some (g.token.id, g.token.tenant_id)), ts))
        (replace-rows (has_token_id g.token.id) g gs)

  verify_token-rows :
      (raw : Text) (now : ℕ) (gs : List Grant)
      → serve_call hash verify (try_token raw now) (rows gs)
        ≡ both (grant_call (try_token raw now) gs)
  unfolding serve_call grant_call both
  verify_token-rows raw now gs =
      elim (Bool-cases (is_empty raw || not (starts_with token_start raw))) [
        | inl e ↦ rw e (sym (ap (λ o. both (check_found gs o)) (not_ours raw now gs e)))
        | inr e ↦ rw e (
            ap (λ o. (checked (owner_of (keep_used (rows gs) o).0), (keep_used (rows gs) o).1))
              (verify_among-rows raw now gs)
            ∙ keep_used-rows gs (grant_for raw now gs))
      ]

  -- Each call is answered the same, and leaves the rows of the grants.
  serve_call-rows :
      (call : Call) (gs : List Grant)
      → serve_call hash verify call (rows gs) ≡ both (grant_call call gs)
  unfolding serve_call grant_call both
  serve_call-rows (create a) gs = ap (λ ts. (created (raw_of a), ts)) (sym (rows-append gs _))
  serve_call-rows (try_token raw now) gs = verify_token-rows raw now gs
  serve_call-rows (revoke id tenant) gs =
      ap
        (λ o.
          let (ok, after) = revoke_found (is_owned id tenant) (rows gs) o in (revoked ok, after))
        (find-rows id tenant gs)
      ∙ revoke_found-rows id tenant gs (find (owns id tenant) gs)

  -- The service answers every history of calls as one that keeps the tokens themselves and takes the
  -- first active token that is the very text it is shown, if it is not over; and its table holds only the
  -- rows of those tokens. A text fits the hash of another exactly when it is the same.
  pub serve_calls-Refines :
      (calls : List Call) (gs : List Grant)
      → serve_calls hash verify calls (map (grant_row hash) gs)
        ≡ ((grant_calls calls gs).0, map (grant_row hash) (grant_calls calls gs).1)
  unfolding serve_calls grant_calls both
  serve_calls-Refines [] gs = refl
  serve_calls-Refines (c ∷ cs) gs =
      rw (serve_call-rows c gs)
        (ap (λ r. ((grant_call c gs).0 ∷ r.0, r.1)) (serve_calls-Refines cs (grant_call c gs).1))
