-- ===== src/Text/Laws.antt =====
-- Laws of the text functions: `strip` and `lower` commute and are idempotent, and the test `==`
-- decides equality.
use backup_center_ajust_cons.Base.{
  ℕ, ◌≡◌, refl, ap, ◌∙◌, ◌↔◌, inl, inr, true, false, [], ◌∷◌, arith, Bool-cases,
}
use backup_center_ajust_cons.Text.{
  Text, is_space, lower_char, lower, lstrip, rstrip, strip, cons_strip, text_eq, normalize,
}

pub lower_char_idem : (c : ℕ) → lower_char (lower_char c) ≡ lower_char c
lower_char_idem c = ground arith

pub is_space-lower_char : (c : ℕ) → is_space (lower_char c) ≡ is_space c
is_space-lower_char c = ground arith

pub lower_idem : (s : Text) → lower (lower s) ≡ lower s
unfolding lower
lower_idem [] = refl
lower_idem (c ∷ s) = cc (lower_char_idem c, lower_idem s)

-- A text that is empty or begins with a character that is no white space.
abbrev IsTrimmed : Text → Type 0
IsTrimmed [] = Unit
IsTrimmed (c ∷ s) = is_space c ≡ false

lstrip-IsTrimmed : (s : Text) → IsTrimmed (lstrip s)
unfolding lstrip
lstrip-IsTrimmed [] = tt
lstrip-IsTrimmed (c ∷ s) = elim (Bool-cases (is_space c)) [
  | inl e ↦ rw e (lstrip-IsTrimmed s)
  | inr e ↦ rw e e
]

lstrip_of_IsTrimmed : (s : Text) → IsTrimmed s → lstrip s ≡ s
unfolding lstrip
lstrip_of_IsTrimmed [] h = refl
lstrip_of_IsTrimmed (c ∷ s) h = rw h

cons_strip-IsTrimmed : (c : ℕ) (r : Text) → is_space c ≡ false → IsTrimmed (cons_strip c r)
cons_strip-IsTrimmed c [] h = rw h h
cons_strip-IsTrimmed c (d ∷ r) h = h

rstrip-IsTrimmed : (s : Text) → IsTrimmed s → IsTrimmed (rstrip s)
unfolding rstrip
rstrip-IsTrimmed [] h = tt
rstrip-IsTrimmed (c ∷ s) h = cons_strip-IsTrimmed c (rstrip s) h

rstrip-cons_strip : (c : ℕ) (r : Text) → rstrip r ≡ r → rstrip (cons_strip c r) ≡ cons_strip c r
unfolding rstrip
rstrip-cons_strip c [] h = elim (Bool-cases (is_space c)) [
  | inl e ↦ rw e refl
  | inr e ↦ rw (e, e) refl
]
rstrip-cons_strip c (d ∷ r) h = ap (cons_strip c) h

rstrip_idem : (s : Text) → rstrip (rstrip s) ≡ rstrip s
unfolding rstrip
rstrip_idem [] = refl
rstrip_idem (c ∷ s) = rstrip-cons_strip c (rstrip s) (rstrip_idem s)

pub strip_idem : (s : Text) → strip (strip s) ≡ strip s
unfolding strip
strip_idem s =
    ap rstrip
      (lstrip_of_IsTrimmed (rstrip (lstrip s)) (rstrip-IsTrimmed (lstrip s) (lstrip-IsTrimmed s)))
    ∙ rstrip_idem (lstrip s)

lstrip-lower : (s : Text) → lstrip (lower s) ≡ lower (lstrip s)
unfolding lstrip lower
lstrip-lower [] = refl
lstrip-lower (c ∷ s) = elim (Bool-cases (is_space c)) [
  | inl e ↦ rw (is_space-lower_char c, e) (lstrip-lower s)
  | inr e ↦ rw (is_space-lower_char c, e) refl
]

cons_strip-lower : (c : ℕ) (r : Text) → cons_strip (lower_char c) (lower r) ≡ lower (cons_strip c r)
unfolding lower
cons_strip-lower c [] = elim (Bool-cases (is_space c)) [
  | inl e ↦ rw (is_space-lower_char c, e) refl
  | inr e ↦ rw (is_space-lower_char c, e) refl
]
cons_strip-lower c (d ∷ r) = refl

rstrip-lower : (s : Text) → rstrip (lower s) ≡ lower (rstrip s)
unfolding rstrip lower
rstrip-lower [] = refl
rstrip-lower (c ∷ s) = rw (rstrip-lower s) (cons_strip-lower c (rstrip s))

pub strip-lower : (s : Text) → strip (lower s) ≡ lower (strip s)
unfolding strip
strip-lower s = ap rstrip (lstrip-lower s) ∙ rstrip-lower (lstrip s)

pub normalize_idem : (s : Text) → normalize (normalize s) ≡ normalize s
unfolding normalize
normalize_idem s = rw (strip-lower, strip_idem, lower_idem)

pub text_eq_iff : (s t : Text) → (text_eq s t ≡ true) ↔ (s ≡ t)
unfolding text_eq
text_eq_iff [] [] = (λ h. refl, λ h. refl)
text_eq_iff [] (d ∷ t) = (λ h. cc, λ h. cc)
text_eq_iff (c ∷ s) [] = (λ h. cc, λ h. cc)
text_eq_iff (c ∷ s) (d ∷ t) =
    (λ h. grind (arith, text_eq_iff s t), λ h. grind (arith, text_eq_iff s t))

pub text_eq_refl : (s : Text) → text_eq s s ≡ true
text_eq_refl s = (text_eq_iff s s).1 refl
