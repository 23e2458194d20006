-- ===== src/Scheduler/Run/Again.antt =====
-- A run of `run_scheduled_backups` leaves no schedule due (app/tasks/backups.py).
use backup_center_ajust_cons.Base.{
  ◌≤◌, ◌≡◌, refl, sym, ap, ◌∙◌, Bool, true, false, not, List, [], ◌∷◌, ◌++◌, arith, inl, inr,
  Bool-cases, filter,
}
use backup_center_ajust_cons.Text.{Text, text_eq, mem_text}
use backup_center_ajust_cons.Text.Laws.{text_eq_refl}
use backup_center_ajust_cons.Text.Order.{sorted_set, mem_text-sorted_set}
use backup_center_ajust_cons.Connection.{Policy}
use backup_center_ajust_cons.Schedule.{wall}
use backup_center_ajust_cons.Schedule.Next.{IsDate}
use backup_center_ajust_cons.Schedule.Time.Sane.{daily_ahead}
use backup_center_ajust_cons.Scheduler.{Tables}
use backup_center_ajust_cons.Scheduler.Rows.{tenant_daily_time, missing_schedules, normalize_rows}
use backup_center_ajust_cons.Scheduler.Run.{Clock, Outcome, run_tenants, run_due, run_scheduled}
use backup_center_ajust_cons.Scheduler.Run.Due.{
  due_tenants, normalize_rows-due, due_tenants-ran_rows,
}
use backup_center_ajust_cons.Scheduler.Run.Queued.{due_lem, due_before}

-- The moments of a run: dates of the calendar, in their order.
pub record IsClock (clock : Clock) : Type 0 where
  pub now_date : IsDate clock.now
  pub later_date : IsDate clock.later
  pub in_order : wall clock.now ≤ wall clock.later

unfoldable not_in : List Text → Text → Bool
not_in tenants t = not (mem_text t tenants)

filter_twice :
    (tenant : Text) (tenants ts : List Text)
    → filter (not_in tenants) (filter (λ t. not (text_eq t tenant)) ts)
      ≡ filter (not_in (tenant ∷ tenants)) ts
unfolding not_in mem_text
filter_twice tenant tenants [] = refl
filter_twice tenant tenants (t ∷ ts) = elim (Bool-cases (text_eq t tenant)) [
  | inl e ↦ rw e (filter_twice tenant tenants ts)
  | inr e ↦ rw e (elim (Bool-cases (mem_text t tenants)) [
    | inl m ↦ rw m (filter_twice tenant tenants ts)
    | inr m ↦ rw m (ap (◌∷◌ t) (filter_twice tenant tenants ts))
  ])
]

filter_none_out :
    (tenants ts : List Text)
    → ((t : Text) → mem_text t ts ≡ true → mem_text t tenants ≡ true)
    → filter (not_in tenants) ts ≡ []
unfolding not_in mem_text
filter_none_out tenants [] h = refl
filter_none_out tenants (t ∷ ts) h =
    rw (h t (rw (text_eq_refl t) refl)) (filter_none_out tenants ts (λ u m. h u (ground arith)))

keep_all : (ts : List Text) → filter (not_in []) ts ≡ ts
unfolding not_in mem_text
keep_all [] = refl
keep_all (t ∷ ts) = ap (◌∷◌ t) (keep_all ts)

module _ (policy : Policy) (clock : Clock) (db : Tables) (c : IsClock clock) where
  -- The batches of tenants leave due only the other tenants.
  run_tenants-due :
      (tenants : List Text) (o : Outcome)
      → due_tenants clock.now db.devices (run_tenants policy clock db tenants o).schedules
        ≡ filter (not_in tenants) (due_tenants clock.now db.devices o.schedules)
  unfolding run_tenants
  run_tenants-due [] o = sym (keep_all (due_tenants clock.now db.devices o.schedules))
  run_tenants-due (tenant ∷ tenants) o =
      let time = tenant_daily_time db.devices tenant o.schedules in
      run_tenants-due tenants _
      ∙ ap (filter (not_in tenants)) (
          due_tenants-ran_rows clock.now db.devices clock time tenant o.schedules
            (omega (arith, daily_ahead time clock.later c.later_date, c.in_order)))
      ∙ filter_twice tenant tenants (due_tenants clock.now db.devices o.schedules)

  -- After a run no tenant is due.
  none_due : due_before clock (run_due policy clock db).1 ≡ []
  unfolding run_due due_tenants
  none_due =
      let added = missing_schedules clock.now db.devices db.schedules in
      let loop = normalize_rows clock.now db.devices [] (db.schedules ++ added) in
      let (found, kept) =
        normalize_rows-due clock.now db.devices c.now_date [] (db.schedules ++ added) in
      run_tenants-due (sorted_set loop.due) _
      ∙ ap (filter (not_in (sorted_set loop.due))) (kept ∙ refl ∙ sym found)
      ∙ filter_none_out (sorted_set loop.due) loop.due (λ t m. mem_text-sorted_set t loop.due ∙ m)

-- Without a tenant that is due, a run queues nothing.
no_jobs :
    (policy : Policy) (clock : Clock) (db : Tables)
    → IsDate clock.now
    → due_before clock db ≡ []
    → (run_due policy clock db).2 ≡ []
unfolding run_due run_tenants sorted_set
no_jobs policy clock db d h =
    let added = missing_schedules clock.now db.devices db.schedules in
    let loop = normalize_rows clock.now db.devices [] (db.schedules ++ added) in
    ap
      (λ ts.
        (run_tenants policy clock db (sorted_set ts)
          (record { schedules = loop.rows; jobs = []; batches = 0; devices = 0 })).jobs)
      (due_lem clock db d ∙ h)

-- A run right after another, at the same moment, queues no task at all: no tenant's batch is started
-- twice. The two moments that a run reads are dates of the calendar, in their order.
pub run_again :
    (policy : Policy) (stopped busy : Bool) (clock : Clock) (db : Tables)
    → IsClock clock
    → (run_scheduled policy stopped busy clock (run_scheduled policy false false clock db).1).2 ≡ []
unfolding run_scheduled
run_again policy true busy clock db c = refl
run_again policy false true clock db c = refl
run_again policy false false clock db c =
    no_jobs policy clock (run_due policy clock db).1 c.now_date (none_due policy clock db c)
