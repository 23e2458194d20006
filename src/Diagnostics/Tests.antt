-- ===== src/Diagnostics/Tests.antt =====
-- The categories and the retries at concrete texts.
use backup_center_ajust_cons.Base.{◌≡◌, ◌↔◌, refl, true, false, []}
use backup_center_ajust_cons.Text.{Text, codes, any_in, normalize, contains}
use backup_center_ajust_cons.Diagnostics.Classify.{
  banner_timeout, connection, category_text, classify_failure, failure_label, classify_text,
  is_transient_failure,
}
use backup_center_ajust_cons.Diagnostics.Retry.{
  Denylist, parse_denylist, should_retry, is_denied, is_nmcli_unavailable, normalize_token,
}
use backup_center_ajust_cons.Diagnostics.Retry.Laws.{Retries, should_retry_iff}

abbrev banner : Text
banner = codes " TIMEOUT: Error reading SSH protocol banner"

banner_category : classify_failure banner ≡ banner_timeout
unfolding classify_failure classify_text normalize contains any_in
banner_category = refl

auth_label :
    failure_label (category_text (classify_failure (codes "Senha invalida"))) ≡ codes "Autenticacao"
unfolding classify_failure failure_label classify_text normalize contains any_in
auth_label = refl

-- A text on a wrong password over SSH counts as a failure of the connection, since that test comes first.
ssh_first : classify_failure (codes "SSH: senha invalida") ≡ connection
unfolding classify_failure classify_text normalize contains any_in
ssh_first = refl

abbrev deny : Denylist
deny = record { names = parse_denylist (codes "Core  Router, edge"); ids = [] }

denied :
    should_retry deny (codes "timeout") (codes "timed out") (codes " CORE router ") (codes "7")
    ≡ false
unfolding should_retry parse_denylist is_denied is_nmcli_unavailable is_transient_failure
    normalize_token any_in
denied = refl

should_retry_iff_example :
    (should_retry deny (category_text connection) (codes "eof") (codes "sw1") (codes "7") ≡ true)
    ↔ Retries deny connection (codes "eof") (codes "sw1") (codes "7")
should_retry_iff_example = should_retry_iff deny connection (codes "eof") (codes "sw1") (codes "7")
