-- ===== src/Logs/Write/Order.antt =====
-- The numbers of the logs grow, whatever is written, pruned and cleared.
use mathlib.Core.List.{reverse-append}
use backup_center_ajust_cons.Base.{
  ℕ, suc, ◌-◌, ◌≤◌, ◌≡◌, sym, ap, ◌∙◌, inl, inr, Bool, List, [], ◌∷◌, ◌++◌, reverse, arith, filter,
  length, Bool-cases,
}
use backup_center_ajust_cons.Base.Slice.{take, drop, keep_last, take-append-drop, filter-reverse}
use backup_center_ajust_cons.Logs.{Entry, Raw, junk, other, object}
use backup_center_ajust_cons.Logs.Scan.Walk.{Falls, Under}

-- The numbers of a list that fall and lie below a bound, from its newest entry on.
abbrev pub Ordered : (Entry → ℕ) → ℕ → List Raw → Type 0
Ordered seq_of last log = Falls seq_of (reverse log) × Under seq_of (suc last) (reverse log)

module _ (seq_of : Entry → ℕ) where
  Under-prefix : (n : ℕ) (xs ys : List Raw) → Under seq_of n (xs ++ ys) → Under seq_of n xs
  Under-prefix n [] ys u = tt
  Under-prefix n (junk ∷ xs) ys u = Under-prefix n xs ys u
  Under-prefix n (other ∷ xs) ys u = Under-prefix n xs ys u
  Under-prefix n (object e ∷ xs) ys (u, us) = (u, Under-prefix n xs ys us)

  Falls-prefix : (xs ys : List Raw) → Falls seq_of (xs ++ ys) → Falls seq_of xs
  Falls-prefix [] ys d = tt
  Falls-prefix (junk ∷ xs) ys d = Falls-prefix xs ys d
  Falls-prefix (other ∷ xs) ys d = Falls-prefix xs ys d
  Falls-prefix (object e ∷ xs) ys (u, d) = (Under-prefix (seq_of e) xs ys u, Falls-prefix xs ys d)

  Under-mono : (m n : ℕ) (xs : List Raw) → m ≤ n → Under seq_of m xs → Under seq_of n xs
  Under-mono m n [] h u = tt
  Under-mono m n (junk ∷ xs) h u = Under-mono m n xs h u
  Under-mono m n (other ∷ xs) h u = Under-mono m n xs h u
  Under-mono m n (object e ∷ xs) h (u, us) = (omega arith, Under-mono m n xs h us)

  Under-filter :
      (p : Raw → Bool) (n : ℕ) (xs : List Raw) → Under seq_of n xs → Under seq_of n (filter p xs)
  Under-filter p n [] u = tt
  Under-filter p n (junk ∷ xs) u = elim (Bool-cases (p junk)) [
    | inl e ↦ rw e (Under-filter p n xs u)
    | inr e ↦ rw e (Under-filter p n xs u)
  ]
  Under-filter p n (other ∷ xs) u = elim (Bool-cases (p other)) [
    | inl e ↦ rw e (Under-filter p n xs u)
    | inr e ↦ rw e (Under-filter p n xs u)
  ]
  Under-filter p n (object x ∷ xs) (u, us) = elim (Bool-cases (p (object x))) [
    | inl e ↦ rw e (u, Under-filter p n xs us)
    | inr e ↦ rw e (Under-filter p n xs us)
  ]

  Falls-filter : (p : Raw → Bool) (xs : List Raw) → Falls seq_of xs → Falls seq_of (filter p xs)
  Falls-filter p [] d = tt
  Falls-filter p (junk ∷ xs) d = elim (Bool-cases (p junk)) [
    | inl e ↦ rw e (Falls-filter p xs d)
    | inr e ↦ rw e (Falls-filter p xs d)
  ]
  Falls-filter p (other ∷ xs) d = elim (Bool-cases (p other)) [
    | inl e ↦ rw e (Falls-filter p xs d)
    | inr e ↦ rw e (Falls-filter p xs d)
  ]
  Falls-filter p (object x ∷ xs) (u, d) = elim (Bool-cases (p (object x))) [
    | inl e ↦ rw e (Under-filter p (seq_of x) xs u, Falls-filter p xs d)
    | inr e ↦ rw e (Falls-filter p xs d)
  ]

  pub drop-Ordered :
      (m last : ℕ) (log : List Raw) → Ordered seq_of last log → Ordered seq_of last (drop m log)
  drop-Ordered m last log (d, u) = (
    Falls-prefix (reverse (drop m log)) (reverse (take m log)) (rw (split m log) d),
    Under-prefix (suc last) (reverse (drop m log)) (reverse (take m log)) (rw (split m log) u),
  )
    where
      split : (m : ℕ) (log : List Raw) → reverse (drop m log) ++ reverse (take m log) ≡ reverse log
      split m log =
          sym (reverse-append (take m log) (drop m log)) ∙ ap reverse (take-append-drop m log)

  pub keep_last-Ordered :
      (n last : ℕ) (log : List Raw)
      → Ordered seq_of last log
      → Ordered seq_of last (keep_last n log)
  unfolding keep_last
  keep_last-Ordered n last log o = drop-Ordered (length log - n) last log o

  pub filter-Ordered :
      (p : Raw → Bool) (last : ℕ) (log : List Raw)
      → Ordered seq_of last log
      → Ordered seq_of last (filter p log)
  filter-Ordered p last log (d, u) =
      rw (← filter-reverse p log)
        (Falls-filter p (reverse log) d, Under-filter p (suc last) (reverse log) u)

  pub snoc-Ordered :
      (last : ℕ) (log : List Raw) (e : Entry)
      → seq_of e ≡ suc last
      → Ordered seq_of last log
      → Ordered seq_of (seq_of e) (log ++ object e ∷ [])
  snoc-Ordered last log e h (d, u) = rw (reverse-append log (object e ∷ [])) (
    (Under-mono (suc last) (seq_of e) (reverse log) (omega arith) u, d),
    (omega arith, Under-mono (suc last) (suc (seq_of e)) (reverse log) (omega arith) u),
  )
