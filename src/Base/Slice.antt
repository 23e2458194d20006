-- ===== src/Base/Slice.antt =====
-- The start and the end of a list, with native lengths: Python's slices, and the ranges of Redis.
use Prim.Native.Nat.{ℕ, zero, suc, ◌-◌, ◌≤◌, ◌<◌, min}
use mathlib.Core.Path.{◌≡◌, refl, sym, ap, ◌∙◌, ◌≡⟨◌⟩◌, ◌∎}
use mathlib.Core.Logic.{inl, inr}
use mathlib.Core.Bool.{Bool, false}
use mathlib.Core.List.{
  List, [], ◌∷◌, ◌++◌, reverse, reverse-append, reverse-reverse, reverse-cons, append-nil,
}
use native.Mathlib.Omega.{arith}
use backup_center_ajust_cons.Base.Test.{leb, Bool-cases, leb→le}
use backup_center_ajust_cons.Base.Seq.{length, length-append, filter}

leb→gt : (a b : ℕ) → leb a b ≡ false → b < a
leb→gt a b h = ground arith

module _ {ℓ} {A : Type ℓ} where
  abbrev pub take : ℕ → List A → List A
  take zero xs = []
  take (suc n) [] = []
  take (suc n) (x ∷ xs) = x ∷ take n xs

  abbrev pub drop : ℕ → List A → List A
  drop zero xs = xs
  drop (suc n) [] = []
  drop (suc n) (x ∷ xs) = drop n xs

  -- `xs[-n:]` for a positive n
  unfoldable pub keep_last : ℕ → List A → List A
  keep_last n xs = drop (length xs - n) xs

  pub take-append-drop : (n : ℕ) (xs : List A) → take n xs ++ drop n xs ≡ xs
  take-append-drop zero xs = refl
  take-append-drop (suc n) [] = refl
  take-append-drop (suc n) (x ∷ xs) = ap (◌∷◌ x) (take-append-drop n xs)

  pub drop-append : (n : ℕ) (xs ys : List A) → n ≤ length xs → drop n (xs ++ ys) ≡ drop n xs ++ ys
  drop-append zero xs ys h = refl
  drop-append (suc n) [] ys h = absurd (omega arith)
  drop-append (suc n) (x ∷ xs) ys h = drop-append n xs ys (omega arith)

  -- The last element stays in a positive number of last ones.
  pub keep_last-snoc :
      (n : ℕ) (xs : List A) (x : A)
      → 0 < n
      → keep_last n (xs ++ x ∷ []) ≡ drop (length (xs ++ x ∷ []) - n) xs ++ x ∷ []
  unfolding keep_last
  keep_last-snoc n xs x h =
      drop-append (length (xs ++ x ∷ []) - n) xs (x ∷ []) (omega (arith, length-append xs (x ∷ [])))

  pub keep_last-one : (n : ℕ) (x : A) → 0 < n → keep_last n (x ∷ []) ≡ x ∷ []
  unfolding keep_last
  keep_last-one n x h =
      let none_left : 1 - n ≡ 0 = omega arith in ap (λ (k : ℕ). drop k (x ∷ [])) none_left

  pub drop-nil : (n : ℕ) → drop n [] ≡ []
  drop-nil zero = refl
  drop-nil (suc n) = refl

  pub keep_last-nil : (n : ℕ) → keep_last n [] ≡ []
  unfolding keep_last
  keep_last-nil n = drop-nil (0 - n)

  pub length-drop : (n : ℕ) (xs : List A) → length (drop n xs) ≡ length xs - n
  length-drop zero xs = omega arith
  length-drop (suc n) [] = omega arith
  length-drop (suc n) (x ∷ xs) = omega (arith, length-drop n xs)

  pub length-take : (n : ℕ) (xs : List A) → length (take n xs) ≡ min n (length xs)
  length-take zero xs = omega arith
  length-take (suc n) [] = omega arith
  length-take (suc n) (x ∷ xs) = omega (arith, length-take n xs)

  pub take_all : (n : ℕ) (xs : List A) → length xs ≤ n → take n xs ≡ xs
  take_all zero [] h = refl
  take_all zero (x ∷ xs) h = absurd (omega arith)
  take_all (suc n) [] h = refl
  take_all (suc n) (x ∷ xs) h = ap (◌∷◌ x) (take_all n xs (omega arith))

  pub take-append_exact : (xs ys : List A) → take (length xs) (xs ++ ys) ≡ xs
  take-append_exact [] ys = refl
  take-append_exact (x ∷ xs) ys = ap (◌∷◌ x) (take-append_exact xs ys)

  pub length-reverse : (xs : List A) → length (reverse xs) ≡ length xs
  length-reverse [] = refl
  length-reverse (x ∷ xs) =
      let ends = length-append (reverse xs) (x ∷ []) in
      ap length (reverse-cons x xs) ∙ omega (arith, ends, length-reverse xs)

  pub length-keep_last : (n : ℕ) (xs : List A) → length (keep_last n xs) ≡ min n (length xs)
  unfolding keep_last
  length-keep_last n xs = omega (arith, length-drop (length xs - n) xs)

  pub take-nil : (n : ℕ) → take n [] ≡ []
  take-nil zero = refl
  take-nil (suc n) = refl

  -- The first `m` elements are those of the first `n`, and the slice between.
  pub take-slice :
      (m n : ℕ) (xs : List A) → m ≤ n → take n xs ≡ take m xs ++ take (n - m) (drop m xs)
  take-slice zero n xs h = ap (λ k. take k xs) (omega arith)
  take-slice (suc m) zero xs h = absurd (omega arith)
  take-slice (suc m) (suc n) [] h = sym (take-nil (suc n - suc m))
  take-slice (suc m) (suc n) (x ∷ xs) h =
      let same : suc n - suc m ≡ n - m = omega arith in
      ap (◌∷◌ x) (rw same (take-slice m n xs (omega arith)))

  split_reverse :
      (k m : ℕ) (xs : List A) → length (drop m xs) ≡ k → take k (reverse xs) ≡ reverse (drop m xs)
  split_reverse k m xs h =
      take k (reverse xs)
      ≡⟨ ap (λ (ys : List A). take k (reverse ys)) (sym (take-append-drop m xs)) ⟩
        take k (reverse (take m xs ++ drop m xs))
      ≡⟨ ap (take k) (reverse-append (take m xs) (drop m xs)) ⟩
        take k (reverse (drop m xs) ++ reverse (take m xs))
      ≡⟨ ap (λ (j : ℕ). take j (reverse (drop m xs) ++ reverse (take m xs)))
          (sym h ∙ sym (length-reverse (drop m xs))) ⟩
        take (length (reverse (drop m xs))) (reverse (drop m xs) ++ reverse (take m xs))
      ≡⟨ take-append_exact (reverse (drop m xs)) (reverse (take m xs)) ⟩ reverse (drop m xs) ∎

  -- The last elements are the first ones of the reversed list.
  pub reverse-take-reverse : (n : ℕ) (xs : List A) → reverse (take n (reverse xs)) ≡ keep_last n xs
  unfolding keep_last
  reverse-take-reverse n xs = elim (Bool-cases (leb n (length xs))) [
    | inl e ↦
        ap reverse (
          split_reverse n (length xs - n) xs
            (omega (arith, length-drop (length xs - n) xs, leb→le n (length xs) e)))
        ∙ reverse-reverse _
    | inr e ↦
        let none_left : 0 ≡ length xs - n = omega (arith, leb→gt n (length xs) e) in
        ap reverse
          (take_all n (reverse xs) (omega (arith, length-reverse xs, leb→gt n (length xs) e)))
        ∙ reverse-reverse xs
        ∙ ap (λ (m : ℕ). drop m xs) none_left
  ]

  pub filter-append :
      (p : A → Bool) (xs ys : List A) → filter p (xs ++ ys) ≡ filter p xs ++ filter p ys
  filter-append p [] ys = refl
  filter-append p (x ∷ xs) ys = elim (Bool-cases (p x)) [
    | inl e ↦ rw e (ap (◌∷◌ x) (filter-append p xs ys))
    | inr e ↦ rw e (filter-append p xs ys)
  ]

  pub filter-reverse : (p : A → Bool) (xs : List A) → filter p (reverse xs) ≡ reverse (filter p xs)
  filter-reverse p [] = refl
  filter-reverse p (x ∷ xs) =
      rw (reverse-cons x xs, filter-append p (reverse xs), filter-reverse p xs)
        (elim (Bool-cases (p x)) [
          | inl e ↦ rw e (sym (reverse-cons x (filter p xs)))
          | inr e ↦ rw e (append-nil _)
        ])
