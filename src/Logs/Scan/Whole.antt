-- ===== src/Logs/Scan/Whole.antt =====
-- The size of the chunks does not matter: the log is read from its end in one pass.
use mathlib.Core.List.{reverse-append}
use backup_center_ajust_cons.Base.{
  ℕ, zero, suc, ◌-◌, ◌≤◌, ◌<◌, ◌≡◌, refl, sym, ap, ◌∙◌, inl, inr, true, false, List, [], ◌∷◌, ◌++◌,
  reverse, arith, if◌then◌else◌, leb, ◌==◌, length, Bool-cases,
}
use backup_center_ajust_cons.Base.Slice.{take, drop, take-slice}
use backup_center_ajust_cons.Logs.{Entry, Raw, junk, other, object}
use backup_center_ajust_cons.Logs.Scan.{Query, Found, is_tenant, is_done, with_entry, walk, chunks}

module _ (seq_of : Entry → ℕ) (q : Query) where
  boundary_done : (f : Found) → is_done q (record f { reached_boundary = true }) ≡ true
  unfolding is_done
  boundary_done f = refl

  entry_done :
      (f : Found) (e : Entry)
      → is_done q f ≡ false
      → is_done q (with_entry (seq_of e) e f)
        ≡ leb q.limit (length (with_entry (seq_of e) e f).entries)
  unfolding is_done with_entry
  entry_done f e h = ground arith

  -- A walk that is done stops; one that is not goes on with what follows.
  walk-append :
      (f : Found) (xs ys : List Raw)
      → is_done q f ≡ false
      → walk seq_of q f (xs ++ ys) ≡ (
          if is_done q (walk seq_of q f xs)
          then walk seq_of q f xs
          else walk seq_of q (walk seq_of q f xs) ys)
  unfolding walk
  walk-append f [] ys h = rw h refl
  walk-append f (junk ∷ xs) ys h = walk-append f xs ys h
  walk-append f (other ∷ xs) ys h = walk-append f xs ys h
  walk-append f (object e ∷ xs) ys h = elim (Bool-cases (leb (seq_of e) q.after_seq)) [
    | inl p ↦ rw p (rw (boundary_done f))
    | inr p ↦ rw p (elim (Bool-cases (is_tenant q e)) [
      | inr t ↦ rw t (walk-append f xs ys h)
      | inl t ↦ rw t (elim (Bool-cases (leb q.limit (length (with_entry (seq_of e) e f).entries))) [
        | inl l ↦ rw l (rw (entry_done f e h ∙ l))
        | inr l ↦ rw l (walk-append (with_entry (seq_of e) e f) xs ys (entry_done f e h ∙ l))
      ])
    ])
  ]

  chunks_done :
      (size fuel n : ℕ) (log : List Raw) (f : Found)
      → is_done q f ≡ true
      → chunks seq_of q size fuel n log f ≡ f
  unfolding chunks
  chunks_done size zero n log f h = refl
  chunks_done size (suc fuel) n log f h = elim (Bool-cases (n == 0)) [
    | inl z ↦ rw z refl
    | inr z ↦ rw (z, h) refl
  ]

  -- The walk over the first `n` entries is one over a slice at their end, and one over the rest.
  walk_slice :
      (m n : ℕ) (log : List Raw) (f : Found)
      → m ≤ n
      → is_done q f ≡ false
      → let f' = walk seq_of q f (reverse (take (n - m) (drop m log))) in
        walk seq_of q f (reverse (take n log))
        ≡ (if is_done q f' then f' else walk seq_of q f' (reverse (take m log)))
  walk_slice m n log f hm h =
      ap (λ (xs : List Raw). walk seq_of q f (reverse xs)) (take-slice m n log hm)
      ∙ ap (walk seq_of q f) (reverse-append (take m log) (take (n - m) (drop m log)))
      ∙ walk-append f (reverse (take (n - m) (drop m log))) (reverse (take m log)) h

  walk_none :
      (m : ℕ) (log : List Raw) (f : Found) → m ≡ 0 → walk seq_of q f (reverse (take m log)) ≡ f
  unfolding walk
  walk_none m log f e = rw e refl

  -- The chunks of any positive size, with a round for each entry, find what one pass finds.
  pub chunks_whole :
      (size fuel n : ℕ) (log : List Raw) (f : Found)
      → 0 < size
      → n ≤ fuel
      → is_done q f ≡ false
      → chunks seq_of q size fuel n log f ≡ walk seq_of q f (reverse (take n log))
  unfolding chunks
  chunks_whole size zero n log f hs hn h = let e : n ≡ 0 = omega arith in rw e (unfold walk in refl)
  chunks_whole size (suc fuel) n log f hs hn h = elim (Bool-cases (n == 0)) [
    | inl z ↦ let e : n ≡ 0 = ground arith in rw e (unfold walk in refl)
    | inr z ↦
        rw (z, h)
          (next (n - size) (walk seq_of q f (reverse (take (n - (n - size)) (drop (n - size) log))))
            (walk_slice (n - size) n log f (omega arith) h)
            (λ k.
              chunks_whole size fuel (n - size) log
                (walk seq_of q f (reverse (take (n - (n - size)) (drop (n - size) log)))) hs
                (ground arith) k))
  ]
    where
      next :
          (m : ℕ) (f' : Found)
          → walk seq_of q f (reverse (take n log))
            ≡ (if is_done q f' then f' else walk seq_of q f' (reverse (take m log)))
          → (is_done q f' ≡ false
              → chunks seq_of q size fuel m log f' ≡ walk seq_of q f' (reverse (take m log)))
          → (if m == 0 then f' else chunks seq_of q size fuel m log f')
            ≡ walk seq_of q f (reverse (take n log))
      next m f' whole ih = elim (Bool-cases (is_done q f')) [
        | inl d ↦ ground (arith, chunks_done size fuel m log f' d)
        | inr d ↦ elim (Bool-cases (m == 0)) [
          | inl z ↦ rw z (sym (whole ∙ rw d (walk_none m log f' (ground arith))))
          | inr z ↦ rw z (ih d ∙ sym (whole ∙ rw d refl))
        ]
      ]
