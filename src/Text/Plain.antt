-- ===== src/Text/Plain.antt =====
-- Texts without a separator or without white space: `split` and `strip` leave them whole.
use backup_center_ajust_cons.Base.{ℕ, ◌≡◌, refl, Bool, false, [], ◌∷◌, ◌++◌, ◌==◌, arith, All, any}
use backup_center_ajust_cons.Text.{Text, cons_strip, strip, lstrip, rstrip, is_space}
use backup_center_ajust_cons.Text.Split.{split_on}

abbrev pub Free : ℕ → ℕ → Type 0
Free sep c = (c == sep) ≡ false

abbrev pub NotSpace : ℕ → Type 0
NotSpace c = is_space c ≡ false

pub All-map {ℓ} : {P Q : ℕ → Type ℓ} → ((c : ℕ) → P c → Q c) → (s : Text) → All P s → All Q s
All-map f [] h = tt
All-map f (c ∷ s) (h, hs) = (f c h, All-map f s hs)

pub All-append {ℓ} : (P : ℕ → Type ℓ) (s t : Text) → All P s → All P t → All P (s ++ t)
All-append P [] t h k = k
All-append P (c ∷ s) t (h, hs) k = (h, All-append P s t hs k)

pub split_on-Free : (sep : ℕ) (s : Text) → All (Free sep) s → split_on sep s ≡ s ∷ []
unfolding split_on
split_on-Free sep [] h = refl
split_on-Free sep (c ∷ s) (h, hs) = rw h (rw (split_on-Free sep s hs) refl)

pub split_on-append :
    (sep : ℕ) (s t : Text) → All (Free sep) s → split_on sep (s ++ sep ∷ t) ≡ s ∷ split_on sep t
unfolding split_on
split_on-append sep [] t h = ground arith
split_on-append sep (c ∷ s) t (h, hs) = rw h (rw (split_on-append sep s t hs) refl)

lstrip_same : (s : Text) → All NotSpace s → lstrip s ≡ s
unfolding lstrip
lstrip_same [] h = refl
lstrip_same (c ∷ s) (h, hs) = rw h refl

cons_same : (c : ℕ) (s : Text) → NotSpace c → cons_strip c s ≡ c ∷ s
cons_same c [] h = rw h refl
cons_same c (d ∷ s) h = refl

rstrip_same : (s : Text) → All NotSpace s → rstrip s ≡ s
unfolding rstrip
rstrip_same [] h = refl
rstrip_same (c ∷ s) (h, hs) = rw (rstrip_same s hs) (cons_same c s h)

pub strip_same : (s : Text) → All NotSpace s → strip s ≡ s
unfolding strip
strip_same s h = rw (lstrip_same s h) (rstrip_same s h)

pub free_of : (p : ℕ → Bool) (s : Text) → any p s ≡ false → All (λ c. p c ≡ false) s
free_of p [] h = tt
free_of p (c ∷ s) h = (ground arith, free_of p s (ground arith))
