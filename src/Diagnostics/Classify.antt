-- ===== src/Diagnostics/Classify.antt =====
-- `classify_failure`, `failure_label` and `is_transient_failure`
-- (app/services/backup_diagnostics.py).
pub mod Laws
use backup_center_ajust_cons.Base.{
  Bool, true, false, ◌&&◌, ◌||◌, List, [], ◌∷◌, Option, none, some, if◌then◌else◌,
}
use backup_center_ajust_cons.Text.{Text, codes, is_empty, normalize, any_in, contains, mem_text}
use backup_center_ajust_cons.Text.Dict.{Dict, lookup}

-- The texts that `classify_failure` returns.
pub data Category : Type 0 where
  circuit_breaker banner_timeout jump_session_closed timeout connection port_refused no_ping auth
        vpn script unknown :
      Category

abbrev pub category_text : Category → Text
category_text circuit_breaker = codes "circuit_breaker"
category_text banner_timeout = codes "banner_timeout"
category_text jump_session_closed = codes "jump_session_closed"
category_text timeout = codes "timeout"
category_text connection = codes "connection"
category_text port_refused = codes "port_refused"
category_text no_ping = codes "no_ping"
category_text auth = codes "auth"
category_text vpn = codes "vpn"
category_text script = codes "script"
category_text unknown = codes "unknown"

abbrev pub breaker_states : List Text
breaker_states = codes "aberto" ∷ codes "ativado" ∷ codes "bloqueado" ∷ []

abbrev pub banner_marker : Text
banner_marker = codes "error reading ssh protocol banner"

abbrev pub session_markers : List Text
session_markers =
    codes "sessao com jump host encerrada"
    ∷ codes "sessão com jump host encerrada"
    ∷ codes "nao foi possivel abrir shell interativo no jump host"
    ∷ codes "não foi possível abrir shell interativo no jump host"
    ∷ []

abbrev pub timeout_markers : List Text
timeout_markers =
    codes "timed out"
    ∷ codes "timeout"
    ∷ codes "timeoutexception"
    ∷ codes "softtimelimitexceeded"
    ∷ []

abbrev pub unreachable_markers : List Text
unreachable_markers =
    codes "rede inalcan"
    ∷ codes "não foi possível acessar a porta"
    ∷ codes "nao foi possivel acessar a porta"
    ∷ codes "precheck/fail-fast"
    ∷ []

abbrev pub refused_markers : List Text
refused_markers =
    codes "connection refused" ∷ codes "refused" ∷ codes "errno 111" ∷ codes "port closed" ∷ []

abbrev pub connection_markers : List Text
connection_markers =
    codes "eof"
    ∷ codes "connection closed"
    ∷ codes "socket"
    ∷ codes "network"
    ∷ codes "host unreachable"
    ∷ codes "no route to host"
    ∷ codes "tcp connection"
    ∷ codes "ssh"
    ∷ codes "telnet"
    ∷ []

abbrev pub ping_markers : List Text
ping_markers =
    codes "sem resposta ao ping" ∷ codes "no ping" ∷ codes "icmp" ∷ codes "100% packet loss" ∷ []

abbrev pub auth_markers : List Text
auth_markers =
    codes "auth"
    ∷ codes "autentic"
    ∷ codes "credencia"
    ∷ codes "senha"
    ∷ codes "password"
    ∷ codes "access denied"
    ∷ codes "permission denied"
    ∷ codes "login failed"
    ∷ codes "unauthorized"
    ∷ codes "invalid credentials"
    ∷ []

abbrev pub vpn_markers : List Text
vpn_markers = codes "vpn" ∷ codes "nmcli" ∷ codes "l2tp" ∷ codes "ipsec" ∷ codes "ppp" ∷ []

abbrev pub script_markers : List Text
script_markers =
    codes "script"
    ∷ codes "traceback"
    ∷ codes "syntaxerror"
    ∷ codes "attributeerror"
    ∷ codes "typeerror"
    ∷ codes "keyerror"
    ∷ codes "modulenotfound"
    ∷ codes "importerror"
    ∷ []

-- The chain of tests on the normalised text, in the code's order.
unfoldable pub classify_text : Text → Category
classify_text text =
    if is_empty text
    then unknown
    else if contains (codes "circuit breaker") text && any_in breaker_states text
    then circuit_breaker
    else if contains banner_marker text
    then banner_timeout
    else if any_in session_markers text
    then jump_session_closed
    else if any_in timeout_markers text
    then timeout
    else if any_in unreachable_markers text
    then connection
    else if any_in refused_markers text
    then port_refused
    else if any_in connection_markers text
    then connection
    else if any_in ping_markers text
    then no_ping
    else if any_in auth_markers text
    then auth
    else if any_in vpn_markers text
    then vpn
    else if any_in script_markers text
    then script
    else unknown

-- `classify_failure`
unfoldable pub classify_failure : Text → Category
classify_failure message = classify_text (normalize message)

abbrev failure_labels : Dict Text
failure_labels =
    (codes "auth", codes "Autenticacao")
    ∷ (codes "timeout", codes "Timeout")
    ∷ (codes "banner_timeout", codes "Banner SSH (sobrecarga/lentidao)")
    ∷ (codes "jump_session_closed", codes "Sessao Jump Host encerrada")
    ∷ (codes "port_refused", codes "Porta recusada")
    ∷ (codes "vpn", codes "VPN")
    ∷ (codes "no_ping", codes "Sem ping")
    ∷ (codes "connection", codes "Conectividade")
    ∷ (codes "circuit_breaker", codes "Jump Host bloqueado (Circuit Breaker)")
    ∷ (codes "script", codes "Script")
    ∷ (codes "unknown", codes "Outros")
    ∷ []

-- `failure_label`
unfoldable pub failure_label : Text → Text
unfolding lookup normalize
failure_label category = elim (lookup (normalize category) failure_labels) [
  | some l ↦ l
  | none ↦ codes "Outros"
]

abbrev pub transient_categories : List Text
transient_categories =
    codes "timeout" ∷ codes "connection" ∷ codes "vpn" ∷ codes "jump_session_closed" ∷ []

-- `is_transient_failure`
unfoldable pub is_transient_failure : Text → Bool
unfolding mem_text normalize
is_transient_failure category = mem_text (normalize category) transient_categories
