-- ===== src/Scheduler/Run/Due.antt =====
-- The tenants that are due, before and after the loops of `run_scheduled_backups`
-- (app/tasks/backups.py).
use mathlib.Core.List.{append_assoc, append-nil}
use backup_center_ajust_cons.Base.{
  ℕ, ◌+◌, ◌<◌, ◌≡◌, refl, sym, ap, ◌∙◌, Bool, true, false, not, ◌&&◌, List, [], ◌∷◌, ◌++◌, map,
  Option, none, some, if◌then◌else◌, arith, leb, inl, inr, Bool-cases, Option-cases, filter,
}
use backup_center_ajust_cons.Base.Slice.{filter-append}
use backup_center_ajust_cons.Text.{Text, codes, text_eq, is_empty}
use backup_center_ajust_cons.Schedule.{Local, wall}
use backup_center_ajust_cons.Schedule.Next.{IsDate}
use backup_center_ajust_cons.Schedule.Time.{sanitize, next_daily_run}
use backup_center_ajust_cons.Schedule.Time.Sane.{daily_ahead}
use backup_center_ajust_cons.Scheduler.{DeviceRow, ScheduleRow, is_enabled}
use backup_center_ajust_cons.Scheduler.Rows.{
  device_of, tenant_of, is_tenant, has_schedule, is_due, Loop, tenant_daily_time, new_schedule,
  missing_schedules, daily_row, normalize_rows,
}
use backup_center_ajust_cons.Scheduler.Run.{Clock, ran_row, ran_rows}

-- The tenant of a row, if its next run has come.
abbrev pub due_of : Local → Option Text → Option ℕ → List Text
due_of now none next = []
due_of now (some tenant) next = if is_due now next then tenant ∷ [] else []

-- The tenants of the rows whose next run has come.
unfoldable pub due_tenants : Local → List DeviceRow → List ScheduleRow → List Text
due_tenants now devices [] = []
due_tenants now devices (r ∷ rows) =
    due_of now (tenant_of devices r) r.next_run_at ++ due_tenants now devices rows

not_due : (now : Local) (t : ℕ) → wall now < t → leb t (wall now) ≡ false
not_due now t h = ground arith

due_of-ahead : (now : Local) (o : Option Text) (t : ℕ) → wall now < t → due_of now o (some t) ≡ []
due_of-ahead now none t h = refl
due_of-ahead now (some tenant) t h = rw (not_due now t h) refl

due_of-none : (now : Local) (o : Option Text) → due_of now o none ≡ []
due_of-none now none = refl
due_of-none now (some tenant) = refl

if_due :
    (b : Bool) (t : Text) (ts : List Text)
    → (if b then t ∷ ts else ts) ≡ (if b then t ∷ [] else []) ++ ts
if_due true t ts = refl
if_due false t ts = refl

filter_gone :
    (tenant t : Text) (b : Bool)
    → text_eq t tenant ≡ true
    → filter (λ u. not (text_eq u tenant)) (if b then t ∷ [] else []) ≡ []
filter_gone tenant t true h = rw h refl
filter_gone tenant t false h = refl

filter_kept :
    (tenant t : Text) (b : Bool)
    → text_eq t tenant ≡ false
    → filter (λ u. not (text_eq u tenant)) (if b then t ∷ [] else []) ≡ (if b then t ∷ [] else [])
filter_kept tenant t true h = rw h refl
filter_kept tenant t false h = refl

due_of-first :
    (now : Local) (o : Option Text) (next : Option ℕ) (t : ℕ)
    → wall now < t
    → due_of now o (elim next [ none ↦ some t | some u ↦ some u ]) ≡ due_of now o next
due_of-first now o none t h = due_of-ahead now o t h ∙ sym (due_of-none now o)
due_of-first now o (some u) t h = refl

module _ (now : Local) (devices : List DeviceRow) where
  pub due_tenants-append :
      (xs ys : List ScheduleRow)
      → due_tenants now devices (xs ++ ys)
        ≡ due_tenants now devices xs ++ due_tenants now devices ys
  unfolding due_tenants
  due_tenants-append [] ys = refl
  due_tenants-append (r ∷ xs) ys =
      ap (λ ts. due_of now (tenant_of devices r) r.next_run_at ++ ts) (due_tenants-append xs ys)
      ∙ sym (
          append_assoc (due_of now (tenant_of devices r) r.next_run_at) (due_tenants now devices xs)
            (due_tenants now devices ys))

  shift :
      (before : List ScheduleRow) (r : ScheduleRow) (ts : List Text)
      → due_tenants now devices (before ++ r ∷ []) ++ ts
        ≡ due_tenants now devices before ++ (due_of now (tenant_of devices r) r.next_run_at ++ ts)
  unfolding due_tenants
  shift before r ts =
      let own = due_of now (tenant_of devices r) r.next_run_at in
      ap (λ us. us ++ ts) (due_tenants-append before (r ∷ []))
      ∙ append_assoc (due_tenants now devices before) (own ++ []) ts
      ∙ ap (λ us. due_tenants now devices before ++ (us ++ ts)) (append-nil own)

  module _ (before rows : List ScheduleRow) (r : ScheduleRow) where
    -- The loop at a row, by the tenant that the query finds.
    abbrev by_tenant : Option Text → Loop
    by_tenant o = elim o [
      | none ↦ normalize_rows now devices (before ++ r ∷ []) rows
      | some tenant ↦
          let r' = daily_row now (tenant_daily_time devices tenant (before ++ r ∷ rows)) r in
          let rest = normalize_rows now devices (before ++ r' ∷ []) rows in
          record {
            rows = rest.rows;
            due = if is_due now r.next_run_at then tenant ∷ rest.due else rest.due;
            initialized = (elim r.next_run_at [ none ↦ 1 | some t ↦ 0 ]) + rest.initialized;
          }
    ]

    normalize_rows-none :
        tenant_of devices r ≡ none
        → normalize_rows now devices before (r ∷ rows)
          ≡ normalize_rows now devices (before ++ r ∷ []) rows
    unfolding normalize_rows
    normalize_rows-none e = ap by_tenant e

    normalize_rows-some :
        (tenant : Text)
        → tenant_of devices r ≡ some tenant
        → let r' = daily_row now (tenant_daily_time devices tenant (before ++ r ∷ rows)) r in
          let rest = normalize_rows now devices (before ++ r' ∷ []) rows in
          ((normalize_rows now devices before (r ∷ rows)).rows ≡ rest.rows)
          × ((normalize_rows now devices before (r ∷ rows)).due
              ≡ (if is_due now r.next_run_at then tenant ∷ rest.due else rest.due))
    unfolding normalize_rows
    normalize_rows-some tenant e =
        (ap (λ (o : Option Text). (by_tenant o).rows) e, ap (λ o. (by_tenant o).due) e)

  module _ (d : IsDate now) where
    -- A schedule that is added is not due.
    pub due_tenants-missing_schedules :
        (rows : List ScheduleRow)
        → due_tenants now devices (missing_schedules now devices rows) ≡ []
    unfolding missing_schedules new_schedule due_tenants
    due_tenants-missing_schedules rows =
        none_new (filter (λ d. is_enabled d && not (has_schedule devices rows d)) devices)
      where
        none_new :
            (ds : List DeviceRow)
            → due_tenants now devices (map (new_schedule now devices rows) ds) ≡ []
        none_new [] = refl
        none_new (e ∷ ds) =
            let time = tenant_daily_time devices e.tenant_id rows in
            rw
              (due_of-ahead now (tenant_of devices (new_schedule now devices rows e))
                (next_daily_run time now) (daily_ahead time now d))
              (none_new ds)

    due_of-daily_row :
        (default : Text) (r : ScheduleRow)
        → due_of now
            (tenant_of devices (daily_row now default r))
            (daily_row now default r).next_run_at
          ≡ due_of now (tenant_of devices r) r.next_run_at
    unfolding tenant_of device_of daily_row
    due_of-daily_row default r =
        let time = if is_empty r.time then default else sanitize (codes "02:00") r.time in
        let shown = if is_empty time then codes "02:00" else time in
        due_of-first now (tenant_of devices r) r.next_run_at (next_daily_run shown now)
          (daily_ahead shown now d)

    -- The tenants that the loop finds are those of the rows that are due, and the loop makes no other due.
    pub normalize_rows-due :
        (before rows : List ScheduleRow)
        → ((normalize_rows now devices before rows).due ≡ due_tenants now devices rows)
          × (due_tenants now devices (normalize_rows now devices before rows).rows
              ≡ due_tenants now devices before ++ due_tenants now devices rows)
    unfolding normalize_rows due_tenants
    normalize_rows-due before [] = (refl, sym (append-nil (due_tenants now devices before)))
    normalize_rows-due before (r ∷ rows) = elim (Option-cases (tenant_of devices r)) [
      | inl e ↦
          let (same, kept) = normalize_rows-due (before ++ r ∷ []) rows in
          rw (normalize_rows-none before rows r e, e)
            (same, kept ∙ shift before r (due_tenants now devices rows) ∙ rw e refl)
      | inr (tenant, e) ↦
          let default = tenant_daily_time devices tenant (before ++ r ∷ rows) in
          let (same, kept) = normalize_rows-due (before ++ daily_row now default r ∷ []) rows in
          let (after, found) = normalize_rows-some before rows r tenant e in
          rw (after, found, e)
            (
              rw same (if_due (is_due now r.next_run_at) tenant (due_tenants now devices rows)),
              kept
                  ∙ shift before (daily_row now default r) (due_tenants now devices rows)
                  ∙ ap
                      (λ us. due_tenants now devices before ++ (us ++ due_tenants now devices rows))
                      (due_of-daily_row default r)
                  ∙ rw e refl,
            )
    ]

  due_of-ran :
      (clock : Clock) (time tenant : Text) (r : ScheduleRow)
      → wall now < next_daily_run time clock.later
      → let r' = if is_tenant tenant (tenant_of devices r) then ran_row clock time r else r in
        due_of now (tenant_of devices r') r'.next_run_at
        ≡ filter (λ t. not (text_eq t tenant)) (due_of now (tenant_of devices r) r.next_run_at)
  unfolding tenant_of device_of ran_row
  due_of-ran clock time tenant r h = elim (Option-cases (tenant_of devices r)) [
    | inl e ↦ rw e (rw e refl)
    | inr (t, e) ↦ rw e (elim (Bool-cases (text_eq t tenant)) [
      | inl same ↦ rw same (
          due_of-ahead now (tenant_of devices r) (next_daily_run time clock.later) h
          ∙ sym (filter_gone tenant t (is_due now r.next_run_at) same))
      | inr other ↦ rw other (rw e (sym (filter_kept tenant t (is_due now r.next_run_at) other)))
    ])
  ]

  -- The rows of a tenant after its batch are not due, and the others are as before.
  pub due_tenants-ran_rows :
      (clock : Clock) (time tenant : Text) (rows : List ScheduleRow)
      → wall now < next_daily_run time clock.later
      → due_tenants now devices (ran_rows clock devices time tenant rows)
        ≡ filter (λ t. not (text_eq t tenant)) (due_tenants now devices rows)
  unfolding ran_rows due_tenants
  due_tenants-ran_rows clock time tenant [] h = refl
  due_tenants-ran_rows clock time tenant (r ∷ rows) h =
      rw
        (
          filter-append (λ t. not (text_eq t tenant))
              (due_of now (tenant_of devices r) r.next_run_at) (due_tenants now devices rows),
          ← due_tenants-ran_rows clock time tenant rows h,
        )
        (ap (λ us. us ++ due_tenants now devices (ran_rows clock devices time tenant rows))
          (due_of-ran clock time tenant r h))
