-- ===== src/Text/Order.antt =====
-- The order of texts, and `sorted(set(…))` of texts.
use backup_center_ajust_cons.Base.{
  ◌≡◌, refl, sym, ap, ◌∙◌, Bool, true, false, ◌||◌, List, [], ◌∷◌, ◌++◌, if◌then◌else◌, ltb, ◌==◌,
  inl, inr, Bool-cases,
}
use backup_center_ajust_cons.Text.{Text, text_eq, mem_text}
use backup_center_ajust_cons.Text.Laws.{text_eq_iff}

unfoldable pub text_ltb : Text → Text → Bool
text_ltb s [] = false
text_ltb [] (d ∷ t) = true
text_ltb (c ∷ s) (d ∷ t) = if c == d then text_ltb s t else ltb c d

-- A text is put in its place, unless it is there.
unfoldable pub insert_sorted : Text → List Text → List Text
unfolding text_eq text_ltb
insert_sorted s [] = s ∷ []
insert_sorted s (t ∷ ts) =
    let rest = insert_sorted s ts in
    if text_eq s t then t ∷ ts else (if text_ltb s t then s ∷ t ∷ ts else t ∷ rest)

unfoldable pub sorted_set : List Text → List Text
unfolding insert_sorted
sorted_set [] = []
sorted_set (s ∷ ss) = insert_sorted s (sorted_set ss)

pub or_assoc : (a b c : Bool) → ((a || b) || c) ≡ (a || (b || c))
or_assoc true b c = refl
or_assoc false b c = refl

pub or_swap : (a b c : Bool) → (a || (b || c)) ≡ (b || (a || c))
or_swap true true c = refl
or_swap true false c = refl
or_swap false b c = refl

pub or_same : (a b : Bool) → (a || b) ≡ (a || (a || b))
or_same true b = refl
or_same false b = refl

pub mem_text-append :
    (x : Text) (ss ts : List Text) → mem_text x (ss ++ ts) ≡ (mem_text x ss || mem_text x ts)
unfolding mem_text
mem_text-append x [] ts = refl
mem_text-append x (s ∷ ss) ts =
    ap (λ b. text_eq x s || b) (mem_text-append x ss ts)
    ∙ sym (or_assoc (text_eq x s) (mem_text x ss) (mem_text x ts))

pub mem_text-insert_sorted :
    (x s : Text) (ts : List Text) → mem_text x (insert_sorted s ts) ≡ (text_eq x s || mem_text x ts)
unfolding mem_text insert_sorted
mem_text-insert_sorted x s [] = refl
mem_text-insert_sorted x s (t ∷ ts) = elim (Bool-cases (text_eq s t)) [
  | inl e ↦ rw (e, (text_eq_iff s t).0 e) (or_same (text_eq x t) (mem_text x ts))
  | inr e ↦ elim (Bool-cases (text_ltb s t)) [
    | inl l ↦ rw (e, l) refl
    | inr l ↦
        rw (e, l)
          (ap (λ b. text_eq x t || b) (mem_text-insert_sorted x s ts)
            ∙ or_swap (text_eq x t) (text_eq x s) (mem_text x ts))
  ]
]

-- The sorted list holds what the list holds.
pub mem_text-sorted_set : (x : Text) (ss : List Text) → mem_text x (sorted_set ss) ≡ mem_text x ss
unfolding mem_text sorted_set
mem_text-sorted_set x [] = refl
mem_text-sorted_set x (s ∷ ss) =
    mem_text-insert_sorted x s (sorted_set ss)
    ∙ ap (λ b. text_eq x s || b) (mem_text-sorted_set x ss)
