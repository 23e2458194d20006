-- ===== src/Diagnostics/Retry.antt =====
-- When a failed backup may be tried again: `_should_retry_transient_failure` and its helpers
-- (app/tasks/backups.py).
pub mod Laws
use backup_center_ajust_cons.Base.{
  ◌≡◌, Bool, true, false, not, ◌&&◌, ◌||◌, List, [], ◌∷◌, if◌then◌else◌,
}
use backup_center_ajust_cons.Text.{
  Text, codes, is_empty, normalize, any_in, mem_text, text_eq, strip, lower,
}
use backup_center_ajust_cons.Text.Split.{words, unwords, split_on}
use backup_center_ajust_cons.Diagnostics.Classify.{is_transient_failure}

-- `_normalize_retry_token`
unfoldable pub normalize_token : Text → Text
unfolding normalize words unwords
normalize_token value = unwords (words (normalize value))

add_tokens : List Text → List Text
unfolding normalize_token
add_tokens [] = []
add_tokens (chunk ∷ chunks) =
    let rest = add_tokens chunks in
    let token = normalize_token chunk in if is_empty token then rest else token ∷ rest

-- `_env_csv_normalized_set` of the text in the environment; a list stands for the set
unfoldable pub parse_denylist : Text → List Text
unfolding add_tokens split_on
parse_denylist raw = add_tokens (split_on 44 raw)

-- `TRANSIENT_RETRY_DENYLIST_DEVICE_NAMES` and `…_IDS`
pub record Denylist : Type 0 where
  pub names : List Text
  pub ids : List Text

abbrev pub nmcli_markers : List Text
nmcli_markers =
    codes "networkmanager indisponivel neste worker"
    ∷ codes "networkmanager indisponível neste worker"
    ∷ codes "backend do networkmanager indisponivel"
    ∷ codes "backend do networkmanager indisponível"
    ∷ codes "nmcli general status"
    ∷ codes "could not create nmclient object"
    ∷ codes "could not connect: no such file or directory"
    ∷ codes "nmcli nao encontrado"
    ∷ codes "nmcli não encontrado"
    ∷ []

-- `_is_nmcli_backend_unavailable_message`
unfoldable pub is_nmcli_unavailable : Text → Bool
is_nmcli_unavailable message =
    let text = normalize message in if is_empty text then false else any_in nmcli_markers text

-- `_is_transient_retry_denied_for_device`; a missing name or id is the empty text
unfoldable pub is_denied : Denylist → Text → Text → Bool
is_denied deny device_name device_id =
    let name = normalize_token device_name in
    let id = normalize_token device_id in
    if is_empty deny.names && is_empty deny.ids
    then false
    else if not (is_empty id) && mem_text id deny.ids
    then true
    else not (is_empty name) && mem_text name deny.names

abbrev pub hard_markers : List Text
hard_markers =
    codes "connection refused"
    ∷ codes "no route to host"
    ∷ codes "network is unreachable"
    ∷ codes "unable to connect to remote host"
    ∷ codes "unable to connect to port"
    ∷ codes "timeout opening channel"
    ∷ codes "administratively prohibited"
    ∷ codes "jump host nao conseguiu abrir canal tcp"
    ∷ codes "jump host não conseguiu abrir canal tcp"
    ∷ codes "authentication failed"
    ∷ codes "invalid username"
    ∷ codes "invalid password"
    ∷ codes "unauthorized"
    ∷ codes "access denied"
    ∷ codes "permission denied"
    ∷ codes "wrong tcp port"
    ∷ codes "incorrect hostname"
    ∷ []

-- `_should_retry_transient_failure`
unfoldable pub should_retry : Denylist → Text → Text → Text → Text → Bool
should_retry deny category message device_name device_id =
    let kind = normalize category in
    let text = normalize message in
    if is_empty kind
    then false
    else if not (is_transient_failure kind)
    then false
    else if is_nmcli_unavailable text
    then false
    else if is_denied deny device_name device_id
    then false
    else if text_eq kind (codes "connection") && any_in hard_markers text
    then false
    else true
