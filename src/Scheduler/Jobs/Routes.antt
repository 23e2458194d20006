-- ===== src/Scheduler/Jobs/Routes.antt =====
-- The tasks of a tenant's batch reach each of its devices, and no other (the loops of
-- `run_scheduled_backups` in app/tasks/backups.py).
use mathlib.Core.List.{append_assoc}
use backup_center_ajust_cons.Base.{
  ◌≡◌, refl, sym, ap, ◌∙◌, Bool, true, false, ◌||◌, List, [], ◌∷◌, ◌++◌, map, inl, inr, Bool-cases,
}
use backup_center_ajust_cons.Text.{Text, text_eq, mem_text}
use backup_center_ajust_cons.Text.Order.{
  sorted_set, or_assoc, or_swap, mem_text-append, mem_text-sorted_set,
}
use backup_center_ajust_cons.Connection.{Policy}
use backup_center_ajust_cons.Scheduler.{DeviceRow}
use backup_center_ajust_cons.Scheduler.Jobs.{
  Job, direct_job, jump_job, vpn_job, Way, by_vpn, by_jump, direct, way_of, Sorted, add_to_group,
  add_device, sort_devices, nothing_sorted, vpn_jobs, jobs_of,
}

-- The devices that tasks are queued for.
unfoldable pub job_ids : List Job → List Text
job_ids [] = []
job_ids (direct_job id ∷ jobs) = id ∷ job_ids jobs
job_ids (jump_job id ∷ jobs) = id ∷ job_ids jobs
job_ids (vpn_job group tenant ids ∷ jobs) = ids ++ job_ids jobs

unfoldable pub device_ids : List DeviceRow → List Text
device_ids = map (λ (d : DeviceRow). d.id)

-- A task is queued for the device.
abbrev pub reaches : Text → List Job → Bool
reaches x jobs = mem_text x (job_ids jobs)

unfoldable group_ids : List (Text × List Text) → List Text
group_ids [] = []
group_ids ((g, ids) ∷ groups) = ids ++ group_ids groups

or_right : (a b c : Bool) → ((a || (c || false)) || b) ≡ (c || (a || b))
or_right true b true = refl
or_right true b false = refl
or_right false b true = refl
or_right false b false = refl

pub or_false : (a : Bool) → (a || false) ≡ a
or_false true = refl
or_false false = refl

job_ids-append : (xs ys : List Job) → job_ids (xs ++ ys) ≡ job_ids xs ++ job_ids ys
unfolding job_ids
job_ids-append [] ys = refl
job_ids-append (direct_job id ∷ jobs) ys = ap (◌∷◌ id) (job_ids-append jobs ys)
job_ids-append (jump_job id ∷ jobs) ys = ap (◌∷◌ id) (job_ids-append jobs ys)
job_ids-append (vpn_job group tenant ids ∷ jobs) ys =
    ap (λ js. ids ++ js) (job_ids-append jobs ys)
    ∙ sym (append_assoc ids (job_ids jobs) (job_ids ys))

pub reaches-append :
    (x : Text) (xs ys : List Job) → reaches x (xs ++ ys) ≡ (reaches x xs || reaches x ys)
reaches-append x xs ys =
    ap (mem_text x) (job_ids-append xs ys) ∙ mem_text-append x (job_ids xs) (job_ids ys)

module _ (x : Text) where
  group_ids-add :
      (group id : Text) (groups : List (Text × List Text))
      → mem_text x (group_ids (add_to_group group id groups))
        ≡ (text_eq x id || mem_text x (group_ids groups))
  unfolding add_to_group group_ids mem_text
  group_ids-add group id [] = refl
  group_ids-add group id ((g, ids) ∷ groups) = elim (Bool-cases (text_eq g group)) [
    | inl e ↦ rw e (
        mem_text-append x (ids ++ id ∷ []) (group_ids groups)
        ∙ ap (λ b. b || mem_text x (group_ids groups)) (mem_text-append x ids (id ∷ []))
        ∙ or_right (mem_text x ids) (mem_text x (group_ids groups)) (text_eq x id)
        ∙ ap (λ b. text_eq x id || b) (sym (mem_text-append x ids (group_ids groups))))
    | inr e ↦ rw e (
        mem_text-append x ids (group_ids (add_to_group group id groups))
        ∙ ap (λ b. mem_text x ids || b) (group_ids-add group id groups)
        ∙ or_swap (mem_text x ids) (text_eq x id) (mem_text x (group_ids groups))
        ∙ ap (λ b. text_eq x id || b) (sym (mem_text-append x ids (group_ids groups))))
  ]

  -- The device is in one of the three collections.
  unfoldable holds : Sorted → Bool
  holds s = mem_text x s.plain || (mem_text x s.jump || mem_text x (group_ids s.vpn))

  holds-add_device :
      (way : Way) (id : Text) (s : Sorted) → holds (add_device way id s) ≡ (text_eq x id || holds s)
  unfolding holds add_device mem_text
  holds-add_device (by_vpn group) id s =
      ap (λ b. mem_text x s.plain || (mem_text x s.jump || b)) (group_ids-add group id s.vpn)
      ∙ ap (λ b. mem_text x s.plain || b)
          (or_swap (mem_text x s.jump) (text_eq x id) (mem_text x (group_ids s.vpn)))
      ∙ or_swap (mem_text x s.plain) (text_eq x id)
          (mem_text x s.jump || mem_text x (group_ids s.vpn))
  holds-add_device by_jump id s =
      ap (λ b. mem_text x s.plain || (b || mem_text x (group_ids s.vpn)))
        (mem_text-append x s.jump (id ∷ []))
      ∙ ap (λ b. mem_text x s.plain || b)
          (or_right (mem_text x s.jump) (mem_text x (group_ids s.vpn)) (text_eq x id))
      ∙ or_swap (mem_text x s.plain) (text_eq x id)
          (mem_text x s.jump || mem_text x (group_ids s.vpn))
  holds-add_device direct id s =
      ap (λ b. b || (mem_text x s.jump || mem_text x (group_ids s.vpn)))
        (mem_text-append x s.plain (id ∷ []))
      ∙ or_right (mem_text x s.plain) (mem_text x s.jump || mem_text x (group_ids s.vpn))
          (text_eq x id)

  holds-sort_devices :
      (policy : Policy) (devices : List DeviceRow) (s : Sorted)
      → holds (sort_devices policy devices s) ≡ (mem_text x (device_ids devices) || holds s)
  unfolding sort_devices device_ids mem_text
  holds-sort_devices policy [] s = refl
  holds-sort_devices policy (d ∷ devices) s =
      holds-sort_devices policy devices (add_device (way_of policy d) d.id s)
      ∙ ap (λ b. mem_text x (device_ids devices) || b) (holds-add_device (way_of policy d) d.id s)
      ∙ or_swap (mem_text x (device_ids devices)) (text_eq x d.id) (holds s)
      ∙ sym (or_assoc (text_eq x d.id) (mem_text x (device_ids devices)) (holds s))

  reaches-vpn_jobs :
      (tenant : Text) (groups : List (Text × List Text))
      → reaches x (vpn_jobs tenant groups) ≡ mem_text x (group_ids groups)
  unfolding vpn_jobs group_ids job_ids
  reaches-vpn_jobs tenant [] = refl
  reaches-vpn_jobs tenant ((g, ids) ∷ groups) =
      mem_text-append x (sorted_set ids) (job_ids (vpn_jobs tenant groups))
      ∙ ap (λ b. b || reaches x (vpn_jobs tenant groups)) (mem_text-sorted_set x ids)
      ∙ ap (λ b. mem_text x ids || b) (reaches-vpn_jobs tenant groups)
      ∙ sym (mem_text-append x ids (group_ids groups))

  reaches-plain : (ids : List Text) → reaches x (map direct_job ids) ≡ mem_text x ids
  unfolding job_ids mem_text
  reaches-plain [] = refl
  reaches-plain (id ∷ ids) = ap (λ b. text_eq x id || b) (reaches-plain ids)

  reaches-jump : (ids : List Text) → reaches x (map jump_job ids) ≡ mem_text x ids
  unfolding job_ids mem_text
  reaches-jump [] = refl
  reaches-jump (id ∷ ids) = ap (λ b. text_eq x id || b) (reaches-jump ids)

  -- A task of a tenant's batch is queued for a device exactly when it is one of the tenant's devices,
  -- however it is reached.
  pub reaches-jobs_of :
      (policy : Policy) (tenant : Text) (devices : List DeviceRow)
      → reaches x (jobs_of policy tenant devices) ≡ mem_text x (device_ids devices)
  unfolding jobs_of holds group_ids mem_text
  reaches-jobs_of policy tenant devices =
      let s = sort_devices policy devices nothing_sorted in
      reaches-append x (map direct_job s.plain) (map jump_job s.jump ++ vpn_jobs tenant s.vpn)
      ∙ ap (λ b. reaches x (map direct_job s.plain) || b)
          (reaches-append x (map jump_job s.jump) (vpn_jobs tenant s.vpn))
      ∙ all_three s
      ∙ holds-sort_devices policy devices nothing_sorted
      ∙ empty (mem_text x (device_ids devices))
    where
      all_three :
          (s : Sorted)
          → (reaches x (map direct_job s.plain)
              || (reaches x (map jump_job s.jump) || reaches x (vpn_jobs tenant s.vpn)))
            ≡ holds s
      all_three s =
          rw (reaches-plain s.plain, reaches-jump s.jump, reaches-vpn_jobs tenant s.vpn) refl

      empty : (a : Bool) → (a || holds nothing_sorted) ≡ a
      empty a = or_false a
