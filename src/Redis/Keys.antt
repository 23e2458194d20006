-- ===== src/Redis/Keys.antt =====
-- The test of equality on the keys.
use backup_center_ajust_cons.Base.{
  ℕ, ◌≡◌, ◌≢◌, refl, sym, ◌∙◌, inl, inr, Bool, true, false, ◌&&◌, [], if◌then◌else◌, Bool-cases,
  ◌==◌, ==_iff, ==_refl,
}
use mathlib.Core.Path.{ap₂}
use backup_center_ajust_cons.Text.{Text, text_eq}
use backup_center_ajust_cons.Text.Laws.{text_eq_iff, text_eq_refl}
use backup_center_ajust_cons.Redis.{
  Key, cb_open, cb_outcomes, adaptive_fail, adaptive_success, adaptive_cooldown, tenant_active_bulk,
  task_meta, force_stop,
}

abbrev key_kind : Key → ℕ
key_kind (cb_open t) = 0
key_kind (cb_outcomes t) = 1
key_kind (adaptive_fail t) = 2
key_kind (adaptive_success t) = 3
key_kind (adaptive_cooldown t) = 4
key_kind (tenant_active_bulk t) = 5
key_kind (task_meta t) = 6
key_kind force_stop = 7

abbrev key_text : Key → Text
key_text (cb_open t) = t
key_text (cb_outcomes t) = t
key_text (adaptive_fail t) = t
key_text (adaptive_success t) = t
key_text (adaptive_cooldown t) = t
key_text (tenant_active_bulk t) = t
key_text (task_meta t) = t
key_text force_stop = []

abbrev key_of : ℕ → Text → Key
key_of n t =
    if n == 0
    then cb_open t
    else if n == 1
    then cb_outcomes t
    else if n == 2
    then adaptive_fail t
    else if n == 3
    then adaptive_success t
    else if n == 4
    then adaptive_cooldown t
    else if n == 5
    then tenant_active_bulk t
    else if n == 6
    then task_meta t
    else force_stop

key_of_parts : (k : Key) → key_of (key_kind k) (key_text k) ≡ k
key_of_parts (cb_open t) = refl
key_of_parts (cb_outcomes t) = refl
key_of_parts (adaptive_fail t) = refl
key_of_parts (adaptive_success t) = refl
key_of_parts (adaptive_cooldown t) = refl
key_of_parts (tenant_active_bulk t) = refl
key_of_parts (task_meta t) = refl
key_of_parts force_stop = refl

unfoldable pub key_eq : Key → Key → Bool
unfolding text_eq
key_eq j k = key_kind j == key_kind k && text_eq (key_text j) (key_text k)

pub key_eq_refl : (k : Key) → key_eq k k ≡ true
unfolding key_eq
key_eq_refl k = rw (==_refl (key_kind k)) (text_eq_refl (key_text k))

and_true : (a b : Bool) → (a && b) ≡ true → (a ≡ true) × (b ≡ true)
and_true true b h = (refl, h)
and_true false b h = (h, cc)

pub eq_of_key_eq : (j k : Key) → key_eq j k ≡ true → j ≡ k
unfolding key_eq
eq_of_key_eq j k h =
    let (kinds, texts) =
      and_true (key_kind j == key_kind k) (text_eq (key_text j) (key_text k)) h in
    sym (key_of_parts j)
    ∙ ap₂ key_of ((==_iff _ _).0 kinds) ((text_eq_iff _ _).0 texts)
    ∙ key_of_parts k

pub key_eq_ne : (j k : Key) → j ≢ k → key_eq j k ≡ false
key_eq_ne j k ne = elim (Bool-cases (key_eq j k)) [
  | inl e ↦ absurd (ne (eq_of_key_eq j k e))
  | inr e ↦ e
]

pub text_eq_ne : (s t : Text) → s ≢ t → text_eq s t ≡ false
text_eq_ne s t ne = elim (Bool-cases (text_eq s t)) [
  | inl e ↦ absurd (ne ((text_eq_iff s t).0 e))
  | inr e ↦ e
]
