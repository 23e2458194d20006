-- ===== src/Diagnostics/Classify/Laws.antt =====
-- What the category of an error text says of the text.
use backup_center_ajust_cons.Base.{
  ◌≡◌, refl, ap, ◌∙◌, if◌then◌else◌, ◌⊎◌, inl, inr, Bool, true, false, ◌&&◌, arith,
}
use backup_center_ajust_cons.Text.{Text, codes, is_empty, normalize, any_in, contains}
use backup_center_ajust_cons.Text.Laws.{normalize_idem}
use backup_center_ajust_cons.Diagnostics.Classify.{
  Category, circuit_breaker, banner_timeout, jump_session_closed, timeout, connection, port_refused,
  no_ping, auth, vpn, script, unknown, category_text, breaker_states, banner_marker,
  session_markers, timeout_markers, unreachable_markers, refused_markers, connection_markers,
  ping_markers, auth_markers, vpn_markers, script_markers, classify_text, classify_failure,
  is_transient_failure,
}

-- White space around an error text and the case of its letters do not change its category.
pub classify_failure-normalize : (m : Text) → classify_failure (normalize m) ≡ classify_failure m
unfolding classify_failure
classify_failure-normalize m = ap classify_text (normalize_idem m)

-- The categories that a retry may help.
abbrev pub is_transient : Category → Bool
is_transient jump_session_closed = true
is_transient timeout = true
is_transient connection = true
is_transient vpn = true
is_transient c = false

-- Of the categories exactly timeout, connection, vpn and jump_session_closed are transient.
pub is_transient_failure_of_category :
    (c : Category) → is_transient_failure (category_text c) ≡ is_transient c
unfolding is_transient_failure
is_transient_failure_of_category circuit_breaker = refl
is_transient_failure_of_category banner_timeout = refl
is_transient_failure_of_category jump_session_closed = refl
is_transient_failure_of_category timeout = refl
is_transient_failure_of_category connection = refl
is_transient_failure_of_category port_refused = refl
is_transient_failure_of_category no_ping = refl
is_transient_failure_of_category auth = refl
is_transient_failure_of_category vpn = refl
is_transient_failure_of_category script = refl
is_transient_failure_of_category unknown = refl

-- What a text must hold to be given a category.
abbrev pub Shows : Category → Text → Type 0
Shows circuit_breaker t =
    (contains (codes "circuit breaker") t ≡ true) × (any_in breaker_states t ≡ true)
Shows banner_timeout t = contains banner_marker t ≡ true
Shows jump_session_closed t = any_in session_markers t ≡ true
Shows timeout t = any_in timeout_markers t ≡ true
Shows connection t = (any_in unreachable_markers t ≡ true) ⊎ (any_in connection_markers t ≡ true)
Shows port_refused t = any_in refused_markers t ≡ true
Shows no_ping t = any_in ping_markers t ≡ true
Shows auth t = any_in auth_markers t ≡ true
Shows vpn t = any_in vpn_markers t ≡ true
Shows script t = any_in script_markers t ≡ true
Shows unknown t = Unit

-- A property of both branches, each under its test.
both {ℓ} :
    {A : Type ℓ} (P : A → Type 0) (b : Bool) (x y : A)
    → (b ≡ true → P x)
    → (b ≡ false → P y)
    → P (if b then x else y)
both P true x y f g = f refl
both P false x y f g = g refl

and_true : (a b : Bool) → (a && b) ≡ true → (a ≡ true) × (b ≡ true)
and_true true b h = (refl, h)
and_true false b h = (h, cc)

classify_text-Shows : (t : Text) → Shows (classify_text t) t
unfolding classify_text
classify_text-Shows t =
    let P : Category → Type 0 = λ c. Shows c t in
    both P (is_empty t) _ _ (λ h. tt)
      λ _.
        both P (contains (codes "circuit breaker") t && any_in breaker_states t) _ _ (and_true _ _)
          λ _.
            both P (contains banner_marker t) _ _ (λ h. h)
              λ _.
                both P (any_in session_markers t) _ _ (λ h. h)
                  λ _.
                    both P (any_in timeout_markers t) _ _ (λ h. h)
                      λ _. both P (any_in unreachable_markers t) _ _ inl λ _.
                        both P (any_in refused_markers t) _ _ (λ h. h)
                          λ _. both P (any_in connection_markers t) _ _ inr λ _.
                            both P (any_in ping_markers t) _ _ (λ h. h)
                              λ _.
                                both P (any_in auth_markers t) _ _ (λ h. h)
                                  λ _.
                                    both P (any_in vpn_markers t) _ _ (λ h. h)
                                      λ _. both P (any_in script_markers t) _ _ (λ h. h) (λ _. tt)

-- The category of an error text is one of whose markers the normalised text holds.
pub classify_failure-Shows : (m : Text) → Shows (classify_failure m) (normalize m)
unfolding classify_failure
classify_failure-Shows m = classify_text-Shows (normalize m)

classify_text-banner :
    (t : Text) → contains banner_marker t ≡ true → is_transient (classify_text t) ≡ false
unfolding classify_text
classify_text-banner t h = ground arith

-- A text with the marker of an overloaded banner is never taken for a transient failure, whatever
-- else it holds.
pub banner_never_transient :
    (m : Text)
    → contains banner_marker (normalize m) ≡ true
    → is_transient_failure (category_text (classify_failure m)) ≡ false
unfolding classify_failure
banner_never_transient m h =
    is_transient_failure_of_category (classify_text (normalize m))
    ∙ classify_text-banner (normalize m) h
