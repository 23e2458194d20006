-- ===== src/Diagnostics/Retry/Laws.antt =====
-- Which failures are tried again.
use backup_center_ajust_cons.Base.{◌≡◌, ◌↔◌, refl, Bool, true, false, not, ◌&&◌, arith}
use backup_center_ajust_cons.Text.{Text, codes, is_empty, normalize, any_in, text_eq}
use backup_center_ajust_cons.Text.Laws.{normalize_idem}
use backup_center_ajust_cons.Diagnostics.Classify.{
  Category, circuit_breaker, banner_timeout, jump_session_closed, timeout, connection, port_refused,
  no_ping, auth, vpn, script, unknown, category_text,
}
use backup_center_ajust_cons.Diagnostics.Classify.Laws.{
  is_transient, is_transient_failure_of_category,
}
use backup_center_ajust_cons.Diagnostics.Retry.{
  Denylist, is_nmcli_unavailable, is_denied, hard_markers, should_retry,
}

-- The letters and the white space of the message play no part.
is_nmcli_unavailable-normalize :
    (m : Text) → is_nmcli_unavailable (normalize m) ≡ is_nmcli_unavailable m
unfolding is_nmcli_unavailable
is_nmcli_unavailable-normalize m = rw (normalize_idem m)

-- What a failure of a category must meet to be tried again.
pub record Retries (deny : Denylist) (c : Category) (message device_name device_id : Text)
    : Type 0 where
  pub transient : is_transient c ≡ true
  pub worker_sound : is_nmcli_unavailable message ≡ false
  pub allowed : is_denied deny device_name device_id ≡ false
  pub not_hard : c ≡ connection → any_in hard_markers (normalize message) ≡ false

category_normal : (c : Category) → normalize (category_text c) ≡ category_text c
unfolding normalize
category_normal circuit_breaker = refl
category_normal banner_timeout = refl
category_normal jump_session_closed = refl
category_normal timeout = refl
category_normal connection = refl
category_normal port_refused = refl
category_normal no_ping = refl
category_normal auth = refl
category_normal vpn = refl
category_normal script = refl
category_normal unknown = refl

abbrev is_connection : Category → Bool
is_connection connection = true
is_connection c = false

text_eq-connection :
    (c : Category) → text_eq (category_text c) (codes "connection") ≡ is_connection c
unfolding text_eq
text_eq-connection circuit_breaker = refl
text_eq-connection banner_timeout = refl
text_eq-connection jump_session_closed = refl
text_eq-connection timeout = refl
text_eq-connection connection = refl
text_eq-connection port_refused = refl
text_eq-connection no_ping = refl
text_eq-connection auth = refl
text_eq-connection vpn = refl
text_eq-connection script = refl
text_eq-connection unknown = refl

category_nonempty : (c : Category) → is_empty (category_text c) ≡ false
category_nonempty circuit_breaker = refl
category_nonempty banner_timeout = refl
category_nonempty jump_session_closed = refl
category_nonempty timeout = refl
category_nonempty connection = refl
category_nonempty port_refused = refl
category_nonempty no_ping = refl
category_nonempty auth = refl
category_nonempty vpn = refl
category_nonempty script = refl
category_nonempty unknown = refl

should_retry_of_category :
    (deny : Denylist) (c : Category) (m device_name device_id : Text)
    → should_retry deny (category_text c) m device_name device_id ≡ (
        is_transient c
        && not (is_nmcli_unavailable m)
        && not (is_denied deny device_name device_id)
        && not (is_connection c && any_in hard_markers (normalize m)))
unfolding should_retry
should_retry_of_category deny c m device_name device_id =
    rw
      (
        category_normal c,
        category_nonempty c,
        is_transient_failure_of_category c,
        is_nmcli_unavailable-normalize m,
        text_eq-connection c,
      )
      (ground arith)

-- A failure of one of the categories is tried again exactly when its category is transient, its
-- text does not say that the worker lacks the VPN backend, its device is not on the deny list, and,
-- for the category connection, its text holds none of the hard markers.
pub should_retry_iff :
    (deny : Denylist) (c : Category) (m device_name device_id : Text)
    → (should_retry deny (category_text c) m device_name device_id ≡ true)
      ↔ Retries deny c m device_name device_id
should_retry_iff deny c m device_name device_id =
    rw (should_retry_of_category deny c m device_name device_id) (
      λ h. record {
        transient = ground arith;
        worker_sound = ground arith;
        allowed = ground arith;
        not_hard = ground arith;
      },
      λ r. ground arith,
    )
