-- ===== src/Batch/Phases/Children.antt =====
-- The children in the metadata of a batch (`child_task_ids`, as the callbacks of
-- app/tasks/backups.py merge them).
use mathlib.Core.Bool.{false≢true}
use backup_center_ajust_cons.Base.{
  ℕ, ◌+◌, ◌≤◌, ◌≡◌, refl, sym, ap, ◌∙◌, Bool, true, false, not, ◌||◌, List, [], ◌∷◌, ◌++◌, inl, inr,
  arith, Bool-cases, filter, All, length,
}
use backup_center_ajust_cons.Text.{Text, is_empty, text_eq, mem_text}
use backup_center_ajust_cons.Text.Laws.{text_eq_refl, text_eq_iff}
use backup_center_ajust_cons.Text.Order.{mem_text-append}
use backup_center_ajust_cons.Batch.Phases.{GroupTask, Note, BatchMeta}
use backup_center_ajust_cons.Batch.Phases.Steps.{unique, ids_of, merged, add_children}

-- The batch knows the task.
abbrev pub IsChild : List Text → GroupTask → Type 0
IsChild children t = (is_empty t.id ≡ false) × (mem_text t.id children ≡ true)

-- The task has an id.
abbrev pub Named : GroupTask → Type 0
Named t = is_empty t.id ≡ false

All-append :
    (P : GroupTask → Type 0) (xs ys : List GroupTask) → All P xs → All P ys → All P (xs ++ ys)
All-append P [] ys h k = k
All-append P (x ∷ xs) ys (h, hs) k = (h, All-append P xs ys hs k)

All-map :
    (P Q : GroupTask → Type 0)
    → ((t : GroupTask) → P t → Q t)
    → (xs : List GroupTask) → All P xs
    → All Q xs
All-map P Q f [] h = tt
All-map P Q f (x ∷ xs) (h, hs) = (f x h, All-map P Q f xs hs)

mem_text-filter :
    (p : Text → Bool) (s : Text) (ts : List Text)
    → p s ≡ true
    → mem_text s (filter p ts) ≡ mem_text s ts
unfolding mem_text
mem_text-filter p s [] h = refl
mem_text-filter p s (t ∷ ts) h = elim (Bool-cases (p t)) [
  | inl e ↦ rw e (ap (λ b. text_eq s t || b) (mem_text-filter p s ts h))
  | inr e ↦ elim (Bool-cases (text_eq s t)) [
    | inl f ↦ absurd (false≢true (sym e ∙ sym (ap p ((text_eq_iff s t).0 f)) ∙ h))
    | inr f ↦ rw (e, f) (mem_text-filter p s ts h)
  ]
]

mem_text-unique : (s : Text) (ts : List Text) → mem_text s (unique ts) ≡ mem_text s ts
unfolding mem_text unique
mem_text-unique s [] = refl
mem_text-unique s (t ∷ ts) = elim (Bool-cases (text_eq s t)) [
  | inl e ↦ rw e refl
  | inr e ↦
      ap (λ b. text_eq s t || b)
        (mem_text-filter (λ u. not (text_eq u t)) s (unique ts) (rw e refl) ∙ mem_text-unique s ts)
]

mem_text-merged :
    (s : Text) (children : List Text) (tasks : List GroupTask)
    → is_empty s ≡ false
    → mem_text s (merged children tasks) ≡ (mem_text s children || mem_text s (ids_of tasks))
unfolding merged
mem_text-merged s children tasks h =
    mem_text-unique s (filter (λ id. not (is_empty id)) children ++ ids_of tasks)
    ∙ mem_text-append s (filter (λ id. not (is_empty id)) children) (ids_of tasks)
    ∙ ap (λ b. b || mem_text s (ids_of tasks))
        (mem_text-filter (λ id. not (is_empty id)) s children (rw h refl))

merged-old :
    (children : List Text) (tasks : List GroupTask) (t : GroupTask)
    → IsChild children t
    → IsChild (merged children tasks) t
merged-old children tasks t (n, c) = (n, mem_text-merged t.id children tasks n ∙ rw c refl)

or_true : (b : Bool) → (b || true) ≡ true
or_true true = refl
or_true false = refl

own : (tasks : List GroupTask) → All Named tasks → All (IsChild (ids_of tasks)) tasks
unfolding mem_text
own [] h = tt
own (t ∷ ts) (n, h) = (
  (n, rw (text_eq_refl t.id) refl),
  All-map (IsChild (ids_of ts)) (IsChild (ids_of (t ∷ ts)))
      (λ u (m, c). (m, rw c (or_true (text_eq u.id t.id)))) ts (own ts h),
)

merged-new :
    (children : List Text) (tasks : List GroupTask)
    → All Named tasks
    → All (IsChild (merged children tasks)) tasks
merged-new children tasks h =
    All-map (IsChild (ids_of tasks)) (IsChild (merged children tasks))
      (λ t (n, m).
        (n, mem_text-merged t.id children tasks n ∙ rw m (or_true (mem_text t.id children))))
      tasks (own tasks h)

-- The metadata after groups were queued: it knows them, and what it knew before, and expects them all.
pub add_children_lem :
    (pending : ℕ) (n : Note) (olds tasks : List GroupTask) (current : BatchMeta)
    → All (IsChild current.child_task_ids) olds
    → All Named tasks
    → let after = add_children pending n tasks current in
      All (IsChild after.child_task_ids) (olds ++ tasks)
      × (length after.child_task_ids + pending ≤ after.total_tasks)
      × (current.total_tasks ≤ after.total_tasks)
unfolding add_children
add_children_lem pending n olds tasks current k named = (
  All-append (IsChild (merged current.child_task_ids tasks)) olds tasks
      (All-map (IsChild current.child_task_ids) (IsChild (merged current.child_task_ids tasks))
        (merged-old current.child_task_ids tasks) olds k)
      (merged-new current.child_task_ids tasks named),
  ground arith,
  ground arith,
)
