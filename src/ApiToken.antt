-- ===== src/ApiToken.antt =====
-- The API tokens of a tenant (app/services/api_token_service.py, app/models/api_token.py). The table keeps
-- only the start and the hash of a token. The random text, the ids, the salts and the moments are
-- arguments; `hash` and `verify` are those of the password library; the rows stand in the order of their
-- creation.
pub mod Refines
mod Tests
use backup_center_ajust_cons.Base.{
  ℕ, Bool, true, false, not, ◌&&◌, ◌||◌, List, [], ◌∷◌, ◌++◌, map, reverse, Option, none, some,
  if◌then◌else◌, ltb, filter,
}
use backup_center_ajust_cons.Base.Rows.{find, replace}
use backup_center_ajust_cons.Base.Slice.{take}
use backup_center_ajust_cons.Text.{Text, codes, is_empty, text_eq, starts_with}

-- `ApiToken`
pub record TokenRow : Type 0 where
  pub id : Text
  pub tenant_id : Text
  pub user_id : Text
  pub name : Text
  pub token_prefix : Text
  pub token_hash : Text
  pub is_active : Bool
  pub last_used_at : Option ℕ
  pub expires_at : Option ℕ

-- TOKEN_PREFIX
abbrev pub token_start : Text
token_start = codes "bc_"

-- `is_expired`
unfoldable pub is_expired : ℕ → TokenRow → Bool
is_expired now t = elim t.expires_at [ none ↦ false | some moment ↦ ltb moment now ]

-- The arguments of `create_token`, with the id and the random text that it makes, and the salt.
pub record NewToken : Type 0 where
  pub id : Text
  pub tenant_id : Text
  pub user_id : Text
  pub name : Text
  pub expires_at : Option ℕ
  pub secret : Text
  pub salt : Text

-- `generate_raw_token`
abbrev pub raw_of : NewToken → Text
raw_of a = token_start ++ a.secret

abbrev pub has_token_id : Text → TokenRow → Bool
has_token_id id t = text_eq t.id id

abbrev pub is_owned : Text → Text → TokenRow → Bool
is_owned id tenant t = text_eq t.id id && text_eq t.tenant_id tenant

abbrev pub is_candidate : Text → TokenRow → Bool
is_candidate prefix t = text_eq t.token_prefix prefix && t.is_active

abbrev pub revoke_found : (TokenRow → Bool) → List TokenRow → Option TokenRow → Bool × List TokenRow
revoke_found owned rows none = (false, rows)
revoke_found owned rows (some t) = (true, replace owned (record t { is_active = false }) rows)

-- `revoke_token`
unfoldable pub revoke_token : Text → Text → List TokenRow → Bool × List TokenRow
revoke_token id tenant rows =
    revoke_found (is_owned id tenant) rows (find (is_owned id tenant) rows)

-- `get_token`
unfoldable pub get_token : Text → Text → List TokenRow → Option TokenRow
unfolding find text_eq
get_token id tenant rows = find (is_owned id tenant) rows

-- `list_tokens`
unfoldable pub list_tokens : Text → List TokenRow → List TokenRow
unfolding text_eq
list_tokens tenant rows = reverse (filter (λ t. text_eq t.tenant_id tenant) rows)

-- The calls of the service, and what they answer: a new token, the id and the tenant of a token that is
-- valid, or whether one was revoked.
pub data Call : Type 0 where
  create : NewToken → Call
  try_token : (raw : Text) (now : ℕ) → Call
  revoke : (id tenant_id : Text) → Call

pub data Reply : Type 0 where
  created : Text → Reply
  checked : Option (Text × Text) → Reply
  revoked : Bool → Reply

abbrev pub owner_of : Option TokenRow → Option (Text × Text)
owner_of none = none
owner_of (some t) = some (t.id, t.tenant_id)

-- The row with its new `last_used_at` is stored.
abbrev pub keep_used : List TokenRow → Option TokenRow → Option TokenRow × List TokenRow
keep_used rows none = (none, rows)
keep_used rows (some t) = (some t, replace (has_token_id t.id) t rows)

module _ (hash : Text → Text → Text) (verify : Text → Text → Bool) where
  -- `create_token`: the row and the token that is shown once
  unfoldable pub create_token : NewToken → List TokenRow → Text × List TokenRow
  create_token a rows = (
    raw_of a,
    rows
        ++ record {
          id = a.id;
          tenant_id = a.tenant_id;
          user_id = a.user_id;
          name = a.name;
          token_prefix = take 12 (raw_of a);
          token_hash = hash a.salt (raw_of a);
          is_active = true;
          last_used_at = none;
          expires_at = a.expires_at;
        }
          ∷ [],
  )

  -- The loop over the candidates: the first whose hash fits decides.
  unfoldable pub verify_among : Text → ℕ → List TokenRow → Option TokenRow
  unfolding is_expired
  verify_among raw now [] = none
  verify_among raw now (t ∷ ts) =
      let rest = verify_among raw now ts in
      if verify raw t.token_hash
      then (if is_expired now t then none else some (record t { last_used_at = some now }))
      else rest

  -- `verify_token`
  unfoldable pub verify_token : Text → ℕ → List TokenRow → Option TokenRow × List TokenRow
  verify_token raw now rows =
      if is_empty raw || not (starts_with token_start raw)
      then (none, rows)
      else keep_used rows (verify_among raw now (filter (is_candidate (take 12 raw)) rows))

  unfoldable pub serve_call : Call → List TokenRow → Reply × List TokenRow
  unfolding create_token verify_token revoke_token
  serve_call (create a) rows = let (raw, rows') = create_token a rows in (created raw, rows')
  serve_call (try_token raw now) rows =
      let (found, rows') = verify_token raw now rows in (checked (owner_of found), rows')
  serve_call (revoke id tenant) rows =
      let (ok, rows') = revoke_token id tenant rows in (revoked ok, rows')

  -- The answers to a history of calls, and the table after it.
  unfoldable pub serve_calls : List Call → List TokenRow → List Reply × List TokenRow
  unfolding serve_call
  serve_calls [] rows = ([], rows)
  serve_calls (c ∷ cs) rows =
      let (answer, rows') = serve_call c rows in
      let (answers, after) = serve_calls cs rows' in (answer ∷ answers, after)
