-- ===== src/Logs/Scan/Walk.antt =====
-- The walk over a log whose numbers fall, from its newest entry: what it finds is the first of what
-- is asked for (`_scan_recent_entries` of app/services/realtime_backup_logs.py).
use mathlib.Core.List.{append_assoc, append-nil, reverse-cons}
use backup_center_ajust_cons.Base.{
  ℕ, zero, suc, ◌+◌, ◌-◌, ◌≤◌, ◌<◌, max, ◌≡◌, refl, sym, ap, ◌∙◌, inl, inr, Bool, true, false, ◌&&◌,
  List, [], ◌∷◌, ◌++◌, reverse, arith, ltb, leb, length, Bool-cases, filter,
}
use backup_center_ajust_cons.Base.Slice.{take, take_all}
use backup_center_ajust_cons.Logs.{Entry, Raw, junk, other, object}
use backup_center_ajust_cons.Logs.Scan.{Query, Found, is_tenant, with_entry, walk}

-- The entries of a log, without what does not read as one.
unfoldable pub entries_of : List Raw → List Entry
entries_of [] = []
entries_of (junk ∷ raws) = entries_of raws
entries_of (other ∷ raws) = entries_of raws
entries_of (object e ∷ raws) = e ∷ entries_of raws

pub entries_of-append : (xs ys : List Raw) → entries_of (xs ++ ys) ≡ entries_of xs ++ entries_of ys
unfolding entries_of
entries_of-append [] ys = refl
entries_of-append (junk ∷ xs) ys = entries_of-append xs ys
entries_of-append (other ∷ xs) ys = entries_of-append xs ys
entries_of-append (object e ∷ xs) ys = ap (◌∷◌ e) (entries_of-append xs ys)

pub entries_of-reverse : (xs : List Raw) → entries_of (reverse xs) ≡ reverse (entries_of xs)
unfolding entries_of
entries_of-reverse [] = refl
entries_of-reverse (x ∷ xs) =
    ap entries_of (reverse-cons x xs)
    ∙ entries_of-append (reverse xs) (x ∷ [])
    ∙ ap (λ (es : List Entry). es ++ entries_of (x ∷ [])) (entries_of-reverse xs)
    ∙ last x
  where
    last :
        (x : Raw) → reverse (entries_of xs) ++ entries_of (x ∷ []) ≡ reverse (entries_of (x ∷ xs))
    last junk = append-nil _
    last other = append-nil _
    last (object e) = sym (reverse-cons e (entries_of xs))

module _ (seq_of : Entry → ℕ) where
  -- The number of an entry is below a bound; what is no entry has none.
  abbrev pub Under : ℕ → List Raw → Type 0
  Under n [] = Unit
  Under n (junk ∷ raws) = Under n raws
  Under n (other ∷ raws) = Under n raws
  Under n (object e ∷ raws) = (seq_of e < n) × Under n raws

  -- The numbers fall from the start of the list to its end.
  abbrev pub Falls : List Raw → Type 0
  Falls [] = Unit
  Falls (junk ∷ raws) = Falls raws
  Falls (other ∷ raws) = Falls raws
  Falls (object e ∷ raws) = Under (seq_of e) raws × Falls raws

  module _ (q : Query) where
    take_nothing : (k : ℕ) (fs : List Entry) → reverse (take k []) ++ fs ≡ fs
    take_nothing zero fs = refl
    take_nothing (suc k) fs = refl

    -- What a page wants: the entries after its last number, of its tenant.
    unfoldable pub is_wanted : Entry → Bool
    is_wanted e = ltb q.after_seq (seq_of e) && is_tenant q e

    abbrev pub wanted : List Raw → List Entry
    wanted raws = filter is_wanted (entries_of raws)

    wanted_above : (e : Entry) → is_wanted e ≡ true → ¬ (seq_of e ≤ q.after_seq)
    unfolding is_wanted
    wanted_above e w h = ground arith

    pub none_wanted :
        (n : ℕ) (raws : List Raw) → n ≤ q.after_seq + 1 → Under n raws → wanted raws ≡ []
    unfolding entries_of is_wanted
    none_wanted n [] h u = refl
    none_wanted n (junk ∷ raws) h u = none_wanted n raws h u
    none_wanted n (other ∷ raws) h u = none_wanted n raws h u
    none_wanted n (object e ∷ raws) h (u, us) = elim (Bool-cases (is_wanted e)) [
      | inl w ↦ absurd (wanted_above e w (omega arith))
      | inr w ↦ rw w (none_wanted n raws h us)
    ]

    skip-wanted :
        (k : ℕ) (e : Entry) (raws : List Raw) (fs : List Entry)
        → is_wanted e ≡ false
        → reverse (take k (wanted raws)) ++ fs ≡ reverse (take k (wanted (object e ∷ raws))) ++ fs
    unfolding entries_of
    skip-wanted k e raws fs w = rw w refl

    take-wanted :
        (k n : ℕ) (e : Entry) (raws : List Raw) (fs : List Entry)
        → is_wanted e ≡ true
        → n ≡ suc k
        → reverse (take k (wanted raws)) ++ e ∷ fs
          ≡ reverse (take n (wanted (object e ∷ raws))) ++ fs
    unfolding entries_of
    take-wanted k n e raws fs w h =
        rw (w, h, reverse-cons e (take k (wanted raws)), append_assoc) refl

    is_wanted_late : (e : Entry) → leb (seq_of e) q.after_seq ≡ false → is_wanted e ≡ is_tenant q e
    unfolding is_wanted
    is_wanted_late e h = ground arith

    is_wanted_early : (e : Entry) → leb (seq_of e) q.after_seq ≡ true → is_wanted e ≡ false
    unfolding is_wanted
    is_wanted_early e h = ground arith

    -- The walk puts the first entries that are wanted in front of those found, in the order of the
    -- log, until the limit is met.
    pub walk-wanted :
        (f : Found) (raws : List Raw)
        → Falls raws
        → length f.entries < q.limit
        → (walk seq_of q f raws).entries
          ≡ reverse (take (q.limit - length f.entries) (wanted raws)) ++ f.entries
    unfolding walk entries_of with_entry
    walk-wanted f [] d h = rw (take_all (q.limit - length f.entries) (wanted []) (omega arith)) refl
    walk-wanted f (junk ∷ raws) d h = walk-wanted f raws d h
    walk-wanted f (other ∷ raws) d h = walk-wanted f raws d h
    walk-wanted f (object e ∷ raws) (u, d) h = elim (Bool-cases (leb (seq_of e) q.after_seq)) [
      | inl p ↦ rw p (
          sym (
            sym (skip-wanted (q.limit - length f.entries) e raws f.entries (is_wanted_early e p))
            ∙ rw (none_wanted (seq_of e) raws (ground arith) u)
                (take_nothing (q.limit - length f.entries) f.entries)))
      | inr p ↦ rw p (elim (Bool-cases (is_tenant q e)) [
        | inr t ↦ rw t (
            walk-wanted f raws d h
            ∙ skip-wanted (q.limit - length f.entries) e raws f.entries (is_wanted_late e p ∙ t))
        | inl t ↦ rw t (elim (Bool-cases (leb q.limit (suc (length f.entries)))) [
          | inl l ↦ rw l (
              take-wanted 0 (q.limit - length f.entries) e raws f.entries (is_wanted_late e p ∙ t)
                (ground arith))
          | inr l ↦ rw l (
              walk-wanted (with_entry (seq_of e) e f) raws d (ground arith)
              ∙ take-wanted (q.limit - suc (length f.entries)) (q.limit - length f.entries) e raws
                  f.entries (is_wanted_late e p ∙ t) (ground arith))
        ])
      ])
    ]

    -- The number of the newest entry of a falling list, 0 for none.
    abbrev pub top : List Entry → ℕ
    top [] = 0
    top (e ∷ es) = seq_of e

    top-Under : (n : ℕ) (raws : List Raw) → Under n raws → top (wanted raws) ≤ n
    unfolding entries_of
    top-Under n [] u = omega arith
    top-Under n (junk ∷ raws) u = top-Under n raws u
    top-Under n (other ∷ raws) u = top-Under n raws u
    top-Under n (object e ∷ raws) (u, us) = elim (Bool-cases (is_wanted e)) [
      | inl w ↦ rw w (omega arith)
      | inr w ↦ rw w (top-Under n raws us)
    ]

    -- The last number is that of the newest entry that is wanted.
    pub walk_last :
        (f : Found) (raws : List Raw)
        → Falls raws
        → length f.entries < q.limit
        → (walk seq_of q f raws).last_seq ≡ max f.last_seq (top (wanted raws))
    unfolding walk entries_of with_entry
    walk_last f [] d h = omega arith
    walk_last f (junk ∷ raws) d h = walk_last f raws d h
    walk_last f (other ∷ raws) d h = walk_last f raws d h
    walk_last f (object e ∷ raws) (u, d) h = elim (Bool-cases (leb (seq_of e) q.after_seq)) [
      | inl p ↦
          rw (p, is_wanted_early e p)
            (rw (none_wanted (seq_of e) raws (ground arith) u) (omega arith))
      | inr p ↦
          rw (p, is_wanted_late e p)
            (elim (Bool-cases (is_tenant q e)) [
              | inr t ↦ rw t (walk_last f raws d h)
              | inl t ↦ rw t (elim (Bool-cases (leb q.limit (suc (length f.entries)))) [
                | inl l ↦ rw l refl
                | inr l ↦ rw l (
                    omega (
                      arith,
                      walk_last (with_entry (seq_of e) e f) raws d (ground arith),
                      top-Under (seq_of e) raws u,
                    ))
              ])
            ])
    ]

  not_newer :
      (q : Query) (m : ℕ) (e : Entry)
      → seq_of e ≤ m
      → is_wanted (record q { after_seq = m }) e ≡ false
  unfolding is_wanted
  not_newer q m e h = ground arith

  not_wanted_later :
      (q : Query) (m : ℕ) (e : Entry)
      → q.after_seq ≤ m
      → is_wanted q e ≡ false
      → is_wanted (record q { after_seq = m }) e ≡ false
  unfolding is_wanted is_tenant
  not_wanted_later q m e h w = ground arith

  -- Nothing is wanted after a number that neither the last one nor the newest wanted exceeds.
  pub none_after :
      (q : Query) (m : ℕ) (raws : List Raw)
      → Falls raws
      → q.after_seq ≤ m
      → top q (wanted q raws) ≤ m
      → wanted (record q { after_seq = m }) raws ≡ []
  unfolding entries_of
  none_after q m [] d h t = refl
  none_after q m (junk ∷ raws) d h t = none_after q m raws d h t
  none_after q m (other ∷ raws) d h t = none_after q m raws d h t
  none_after q m (object e ∷ raws) (u, d) h t = elim (Bool-cases (is_wanted q e)) [
    | inl w ↦
        rw (not_newer q m e (rw w at t))
          (none_wanted (record q { after_seq = m }) (seq_of e) raws (omega (arith, rw w at t)) u)
    | inr w ↦ rw (not_wanted_later q m e h w) (none_after q m raws d h (rw w at t))
  ]
