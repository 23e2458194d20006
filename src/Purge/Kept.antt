-- ===== src/Purge/Kept.antt =====
-- The backups and the files that the purges leave (app/tasks/backups.py).
use mathlib.Core.Bool.{false≢true}
use backup_center_ajust_cons.Base.{
  ℕ, ◌≡◌, refl, sym, ap, ◌∙◌, Bool, true, false, not, ◌&&◌, ◌||◌, List, [], ◌∷◌, map, Option,
  if◌then◌else◌, inl, inr, Bool-cases, filter, any,
}
use backup_center_ajust_cons.Text.{Text, is_empty, text_eq, mem_text}
use backup_center_ajust_cons.Text.Laws.{text_eq_iff}
use backup_center_ajust_cons.Text.Order.{or_assoc, or_swap}
use backup_center_ajust_cons.Purge.{
  StoredBackup, Retainer, Disk, is_expired_for, is_stale_failure, remove_file, purge_all,
  purge_tenant, purge_expired, purge_failed,
}

-- The backup has the id of one in the list.
abbrev pub is_listed : List StoredBackup → StoredBackup → Bool
is_listed bs b = mem_text b.id (map (λ (c : StoredBackup). c.id) bs)

-- The backups whose ids are not those of the ones that the test finds.
unfoldable pub without : (StoredBackup → Bool) → List StoredBackup → List StoredBackup
without p rows = filter (λ b. not (is_listed (filter p rows) b)) rows

filter_two :
    (f g h : StoredBackup → Bool)
    → ((b : StoredBackup) → (g b && f b) ≡ h b)
    → (rows : List StoredBackup) → filter f (filter g rows) ≡ filter h rows
filter_two f g h same [] = refl
filter_two f g h same (b ∷ rows) = elim (Bool-cases (g b)) [
  | inl e ↦ rw (e, sym (same b), e) (filter_step (f b) (filter_two f g h same rows))
  | inr e ↦ rw (e, sym (same b), e) (filter_two f g h same rows)
]
  where
    filter_step :
        (c : Bool) {xs ys : List StoredBackup}
        → xs ≡ ys
        → (if c then b ∷ xs else xs) ≡ (if c then b ∷ ys else ys)
    filter_step true h = ap (◌∷◌ b) h
    filter_step false h = h

or_middle : (a p q : Bool) → ((a || p) || (a || q)) ≡ (a || (p || q))
or_middle true p q = refl
or_middle false p q = refl

is_listed-or :
    (p q : StoredBackup → Bool) (c : StoredBackup) (rows : List StoredBackup)
    → is_listed (filter (λ b. p b || q b) rows) c
      ≡ (is_listed (filter p rows) c || is_listed (filter q rows) c)
unfolding mem_text
is_listed-or p q c [] = refl
is_listed-or p q c (r ∷ rows) =
    let own = text_eq c.id r.id in
    let ps = is_listed (filter p rows) c in
    let qs = is_listed (filter q rows) c in
    elim (Bool-cases (p r)) [
      | inl e ↦ elim (Bool-cases (q r)) [
        | inl f ↦
            rw (e, f) (ap (λ b. own || b) (is_listed-or p q c rows) ∙ sym (or_middle own ps qs))
        | inr f ↦
            rw (e, f) (ap (λ b. own || b) (is_listed-or p q c rows) ∙ sym (or_assoc own ps qs))
      ]
      | inr e ↦ elim (Bool-cases (q r)) [
        | inl f ↦ rw (e, f) (ap (λ b. own || b) (is_listed-or p q c rows) ∙ or_swap own ps qs)
        | inr f ↦ rw (e, f) (is_listed-or p q c rows)
      ]
    ]

is_listed-left :
    (q : StoredBackup → Bool) (s : List StoredBackup) (c : StoredBackup) (rows : List StoredBackup)
    → is_listed s c ≡ false
    → is_listed (filter q (filter (λ b. not (is_listed s b)) rows)) c ≡ is_listed (filter q rows) c
unfolding mem_text
is_listed-left q s c [] h = refl
is_listed-left q s c (r ∷ rows) h = elim (Bool-cases (is_listed s r)) [
  | inl e ↦ elim (Bool-cases (q r)) [
    | inl f ↦ elim (Bool-cases (text_eq c.id r.id)) [
      | inl m ↦ absurd (
          false≢true (
            sym h
            ∙ ap (λ id. mem_text id (map (λ (b : StoredBackup). b.id) s))
                ((text_eq_iff c.id r.id).0 m)
            ∙ e))
      | inr m ↦ rw (e, f, m) (is_listed-left q s c rows h)
    ]
    | inr f ↦ rw (e, f) (is_listed-left q s c rows h)
  ]
  | inr e ↦ elim (Bool-cases (q r)) [
    | inl f ↦ rw (e, f) (ap (λ b. text_eq c.id r.id || b) (is_listed-left q s c rows h))
    | inr f ↦ rw (e, f) (is_listed-left q s c rows h)
  ]
]

without_twice :
    (p q : StoredBackup → Bool) (rows : List StoredBackup)
    → without q (without p rows) ≡ without (λ b. p b || q b) rows
unfolding without
without_twice p q rows = filter_two _ _ _ same rows
  where
    same :
        (b : StoredBackup)
        → (not (is_listed (filter p rows) b)
            && not (is_listed (filter q (filter (λ c. not (is_listed (filter p rows) c)) rows)) b))
          ≡ not (is_listed (filter (λ c. p c || q c) rows) b)
    same b = elim (Bool-cases (is_listed (filter p rows) b)) [
      | inl e ↦ rw (is_listed-or p q b rows, e) refl
      | inr e ↦ rw (is_listed-or p q b rows, is_listed-left q (filter p rows) b rows e, e) refl
    ]

keep_all : (rows : List StoredBackup) → filter (λ c. not (is_listed [] c)) rows ≡ rows
unfolding mem_text
keep_all [] = refl
keep_all (c ∷ rows) = ap (◌∷◌ c) (keep_all rows)

nothing_found : (xs : List StoredBackup) → filter (λ (b : StoredBackup). false) xs ≡ []
nothing_found [] = refl
nothing_found (x ∷ xs) = nothing_found xs

without_none : (rows : List StoredBackup) → without (λ b. false) rows ≡ rows
unfolding without
without_none rows =
    ap (λ xs. filter (λ b. not (is_listed xs b)) rows) (nothing_found rows) ∙ keep_all rows

module _ (removable : Text → Bool) where
  backups-remove_file :
      (path : Text) (d : Disk) → (remove_file removable path d).backups ≡ d.backups
  unfolding remove_file
  backups-remove_file path d =
      elim (Bool-cases (not (is_empty path) && (mem_text path d.files && removable path))) [
        | inl e ↦ rw e refl
        | inr e ↦ rw e refl
      ]

  drop_one :
      (b : StoredBackup) (bs rows : List StoredBackup)
      → filter
          (λ c. not (is_listed bs c))
          (filter (λ (c : StoredBackup). not (text_eq c.id b.id)) rows)
        ≡ filter (λ c. not (is_listed (b ∷ bs) c)) rows
  unfolding mem_text
  drop_one b bs [] = refl
  drop_one b bs (c ∷ rows) = elim (Bool-cases (text_eq c.id b.id)) [
    | inl e ↦ rw e (drop_one b bs rows)
    | inr e ↦ rw e (elim (Bool-cases (is_listed bs c)) [
      | inl m ↦ rw m (drop_one b bs rows)
      | inr m ↦ rw m (ap (◌∷◌ c) (drop_one b bs rows))
    ])
  ]

  backups-purge_all :
      (path_of : Option Text → Text) (bs : List StoredBackup) (d : Disk)
      → (purge_all removable path_of bs d).backups ≡ filter (λ c. not (is_listed bs c)) d.backups
  unfolding purge_all
  backups-purge_all path_of [] d = sym (keep_all d.backups)
  backups-purge_all path_of (b ∷ bs) d =
      backups-purge_all path_of bs _
      ∙ ap
          (λ rows.
            filter (λ c. not (is_listed bs c))
              (filter (λ (c : StoredBackup). not (text_eq c.id b.id)) rows))
          (backups-remove_file (path_of b.file_path) d)
      ∙ drop_one b bs d.backups

  -- The retention removes the backups that are over for one of the active tenants, and no other (the ids
  -- are taken to name one backup each: one with the id of a backup that is over goes with it).
  pub backups-purge_expired :
      (now default : ℕ) (tenants : List Retainer) (d : Disk)
      → (purge_expired removable now default tenants d).backups
        ≡ without
            (λ b. any (λ (t : Retainer). t.is_active && is_expired_for now default t b) tenants)
            d.backups
  unfolding purge_expired purge_tenant without
  backups-purge_expired now default [] d = sym (without_none d.backups)
  backups-purge_expired now default (t ∷ ts) d =
      by_activity t.is_active (backups-purge_expired now default ts)
    where
      over_later : StoredBackup → Bool
      over_later b = any (λ (u : Retainer). u.is_active && is_expired_for now default u b) ts

      by_activity :
          (active : Bool)
          → ((e : Disk)
              → (purge_expired removable now default ts e).backups ≡ without over_later e.backups)
          → (purge_expired removable now default ts
              (if active then purge_tenant removable now default t d else d)).backups
            ≡ without (λ b. (active && is_expired_for now default t b) || over_later b) d.backups
      by_activity true later =
          later (purge_tenant removable now default t d)
          ∙ ap (without over_later)
              (backups-purge_all _ (filter (is_expired_for now default t) d.backups) d)
          ∙ without_twice (is_expired_for now default t) over_later d.backups
      by_activity false later = later d

  pub backups-purge_failed :
      (now : ℕ) (d : Disk)
      → (purge_failed removable now d).backups ≡ without (is_stale_failure now) d.backups
  unfolding purge_failed without
  backups-purge_failed now d = backups-purge_all _ (filter (is_stale_failure now) d.backups) d
