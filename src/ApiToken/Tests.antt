-- ===== src/ApiToken/Tests.antt =====
-- A history of an API token, and the theorem on it.
use backup_center_ajust_cons.Base.{◌≡◌, refl, true, false, List, [], ◌∷◌, map, none, some}
use backup_center_ajust_cons.Base.Rows.{find, replace}
use backup_center_ajust_cons.Text.{Text, codes, text_eq, starts_with}
use backup_center_ajust_cons.ApiToken.{
  NewToken, Call, create, try_token, revoke, created, checked, revoked, serve_calls, verify_among,
  list_tokens, get_token,
}
use backup_center_ajust_cons.ApiToken.Refines.{grant_row, grant_calls, serve_calls-Refines}

abbrev hash : Text → Text → Text
hash salt text = text

hash-law : (raw salt text : Text) → text_eq raw (hash salt text) ≡ text_eq raw text
hash-law raw salt text = refl

abbrev token : Text → Text → NewToken
token id secret = record {
  id = id;
  tenant_id = codes "t";
  user_id = codes "u";
  name = codes "erp";
  expires_at = some 10;
  secret = secret;
  salt = codes "s";
}

-- A token works until it is over or revoked; a text that is none of the tokens does not.
abbrev history : List Call
history =
    create (token (codes "1") (codes "0123456789a"))
    ∷ create (token (codes "2") (codes "0123456789b"))
    ∷ try_token (codes "bc_0123456789b") 10
    ∷ try_token (codes "bc_0123456789b") 11
    ∷ try_token (codes "bc_0123456789c") 3
    ∷ revoke (codes "1") (codes "other")
    ∷ revoke (codes "1") (codes "t")
    ∷ try_token (codes "bc_0123456789a") 3
    ∷ []

answers_of_history :
    (serve_calls hash text_eq history []).0
    ≡ created (codes "bc_0123456789a")
      ∷ created (codes "bc_0123456789b")
      ∷ checked (some (codes "2", codes "t"))
      ∷ checked none
      ∷ checked none
      ∷ revoked false
      ∷ revoked true
      ∷ checked none
      ∷ []
unfolding serve_calls starts_with verify_among text_eq find replace
answers_of_history = refl

listed : list_tokens (codes "other") (serve_calls hash text_eq history []).1 ≡ []
unfolding serve_calls list_tokens starts_with verify_among text_eq find replace
listed = refl

not_got : get_token (codes "1") (codes "other") (serve_calls hash text_eq history []).1 ≡ none
unfolding serve_calls get_token starts_with verify_among text_eq find replace
not_got = refl

serve_calls-Refines_example :
    serve_calls hash text_eq history (map (grant_row hash) [])
    ≡ ((grant_calls history []).0, map (grant_row hash) (grant_calls history []).1)
serve_calls-Refines_example = serve_calls-Refines hash text_eq hash-law history []
