-- ===== src/Scheduler/Run/Queued.antt =====
-- The devices that a run of `run_scheduled_backups` queues (app/tasks/backups.py).
use mathlib.Core.List.{append-nil}
use backup_center_ajust_cons.Base.{
  ◌≡◌, refl, sym, ap, ◌∙◌, Bool, true, false, not, ◌&&◌, ◌||◌, List, [], ◌∷◌, ◌++◌, inl, inr,
  Bool-cases, any,
}
use backup_center_ajust_cons.Text.{Text, text_eq, mem_text}
use backup_center_ajust_cons.Text.Laws.{text_eq_iff}
use backup_center_ajust_cons.Text.Order.{
  text_ltb, insert_sorted, sorted_set, or_assoc, or_same, or_swap,
}
use backup_center_ajust_cons.Connection.{Policy}
use backup_center_ajust_cons.Schedule.Next.{IsDate}
use backup_center_ajust_cons.Scheduler.{Tables, eligible}
use backup_center_ajust_cons.Scheduler.Rows.{missing_schedules, normalize_rows}
use backup_center_ajust_cons.Scheduler.Jobs.{jobs_of}
use backup_center_ajust_cons.Scheduler.Jobs.Routes.{
  job_ids, device_ids, or_false, reaches, reaches-append, reaches-jobs_of,
}
use backup_center_ajust_cons.Scheduler.Run.{Clock, Outcome, run_tenants, run_due, run_scheduled}
use backup_center_ajust_cons.Scheduler.Run.Due.{
  due_tenants, due_tenants-append, due_tenants-missing_schedules, normalize_rows-due,
}

any-insert_sorted :
    (f : Text → Bool) (s : Text) (ts : List Text) → any f (insert_sorted s ts) ≡ (f s || any f ts)
unfolding insert_sorted
any-insert_sorted f s [] = refl
any-insert_sorted f s (t ∷ ts) = elim (Bool-cases (text_eq s t)) [
  | inl e ↦ rw (e, (text_eq_iff s t).0 e) (or_same (f t) (any f ts))
  | inr e ↦ elim (Bool-cases (text_ltb s t)) [
    | inl l ↦ rw (e, l) refl
    | inr l ↦
        rw (e, l) (ap (λ b. f t || b) (any-insert_sorted f s ts) ∙ or_swap (f t) (f s) (any f ts))
  ]
]

any-sorted_set : (f : Text → Bool) (ts : List Text) → any f (sorted_set ts) ≡ any f ts
unfolding sorted_set
any-sorted_set f [] = refl
any-sorted_set f (t ∷ ts) =
    any-insert_sorted f t (sorted_set ts) ∙ ap (λ b. f t || b) (any-sorted_set f ts)

-- The device is one that a run queues for the tenant.
abbrev pub is_eligible : Tables → Text → Text → Bool
is_eligible db id tenant = mem_text id (device_ids (eligible db tenant))

-- The tenants whose schedules have come, as the tables stand before the run.
abbrev pub due_before : Clock → Tables → List Text
due_before clock db = due_tenants clock.now db.devices db.schedules

reaches-run_tenants :
    (policy : Policy) (clock : Clock) (db : Tables) (id : Text) (tenants : List Text) (o : Outcome)
    → reaches id (run_tenants policy clock db tenants o).jobs
      ≡ (reaches id o.jobs || any (is_eligible db id) tenants)
unfolding run_tenants
reaches-run_tenants policy clock db id [] o = sym (or_false (reaches id o.jobs))
reaches-run_tenants policy clock db id (tenant ∷ tenants) o =
    reaches-run_tenants policy clock db id tenants _
    ∙ ap (λ b. b || any (is_eligible db id) tenants)
        (reaches-append id o.jobs (jobs_of policy tenant (eligible db tenant))
          ∙ ap (λ b. reaches id o.jobs || b)
              (reaches-jobs_of id policy tenant (eligible db tenant)))
    ∙ or_assoc (reaches id o.jobs) (is_eligible db id tenant) (any (is_eligible db id) tenants)

-- The tenants that the loop of a run finds due are those before the run.
pub due_lem :
    (clock : Clock) (db : Tables)
    → IsDate clock.now
    → (normalize_rows clock.now db.devices []
        (db.schedules ++ missing_schedules clock.now db.devices db.schedules)).due
      ≡ due_before clock db
due_lem clock db d =
    let added = missing_schedules clock.now db.devices db.schedules in
    (normalize_rows-due clock.now db.devices d [] (db.schedules ++ added)).0
    ∙ due_tenants-append clock.now db.devices db.schedules added
    ∙ ap (λ ts. due_before clock db ++ ts)
        (due_tenants-missing_schedules clock.now db.devices d db.schedules)
    ∙ append-nil (due_before clock db)

reaches-run_due :
    (policy : Policy) (clock : Clock) (db : Tables) (id : Text)
    → IsDate clock.now
    → reaches id (run_due policy clock db).2 ≡ any (is_eligible db id) (due_before clock db)
unfolding run_due job_ids mem_text
reaches-run_due policy clock db id d =
    let added = missing_schedules clock.now db.devices db.schedules in
    let loop = normalize_rows clock.now db.devices [] (db.schedules ++ added) in
    reaches-run_tenants policy clock db id (sorted_set loop.due) _
    ∙ any-sorted_set (is_eligible db id) loop.due
    ∙ ap (any (is_eligible db id)) (due_lem clock db d)

-- A run queues a task for a device exactly when no stop is set and no batch runs, and the device is an
-- eligible one (enabled, and not of an excluded kind) of a tenant one of whose schedules has come; the
-- moment of the run is a date of the calendar.
pub queued_iff :
    (policy : Policy) (stopped busy : Bool) (clock : Clock) (db : Tables) (id : Text)
    → IsDate clock.now
    → reaches id (run_scheduled policy stopped busy clock db).2
      ≡ (not (stopped || busy) && any (is_eligible db id) (due_before clock db))
unfolding run_scheduled job_ids mem_text
queued_iff policy true busy clock db id d = refl
queued_iff policy false true clock db id d = refl
queued_iff policy false false clock db id d = reaches-run_due policy clock db id d
