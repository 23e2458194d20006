-- ===== src/Task/Run/Finish.antt =====
-- What every branch of `_internal_run_backup_task` leaves behind.
use backup_center_ajust_cons.Base.{
  ℕ, ◌≡◌, refl, Bool, true, false, not, List, [], ◌∷◌, ◌++◌, Option, some, Bool-cases, inl, inr,
}
use backup_center_ajust_cons.Text.{Text, codes, text_eq}
use backup_center_ajust_cons.Redis.{Redis}
use backup_center_ajust_cons.JumpHost.Breaker.{Answer, check}
use backup_center_ajust_cons.JumpHost.Slots.{LockInfo}
use backup_center_ajust_cons.Task.Gate.{Gate, allowed, blocked, validate, breaker_label}
use backup_center_ajust_cons.Task.Lock.{Entered, entered, slot_cancelled, slot_timeout}
use backup_center_ajust_cons.Task.Outcome.{
  Message, Result, Status, running, success, failed, stopped, Level, Attempt, Execution, returned,
  raised, Input, World, Settings, finish, touch,
}
use backup_center_ajust_cons.Task.Run.{
  run_returned, run_raised, run_executed, run_entered, run_locked, run_answered, run_allowed,
  run_gated, run, should_stop, started,
}

abbrev pub is_final : Status → Bool → Bool
is_final running ok = false
is_final success ok = ok
is_final failed ok = not ok
is_final stopped ok = not ok

-- The run is over: its metadata says so and holds the result, with a final status that is success
-- exactly for a successful result, and exactly one attempt has been counted.
pub record IsFinished {State : Type 0} (before : List Attempt) (r : Result × World State)
    : Type 0 where
  pub completed : r.1.meta.completed ≡ true
  pub whole : r.1.meta.progress ≡ 100
  pub holds_result : r.1.meta.result ≡ some r.0
  pub final_status : is_final r.1.meta.status r.0.success ≡ true
  pub one_attempt : (a : Attempt) × (r.1.attempts ≡ before ++ a ∷ [])

module _ (redis : Redis) (percent : ℕ → ℕ → ℕ) (cfg : Settings) where
  finish-IsFinished :
      (input : Input) (status : Status) (message : Message) (level : Level) (line : Message)
      (outcome category : Text) (tracked : Message) (result : Result) (w : World redis.State)
      → is_final status result.success ≡ true
      → IsFinished w.attempts (
          finish redis percent cfg input status message level line outcome category tracked result
            w)
  unfolding finish
  finish-IsFinished input status message level line outcome category tracked result w h = record {
    completed = refl;
    whole = refl;
    holds_result = refl;
    final_status = h;
    one_attempt = (record { outcome = outcome; category = category; message = tracked }, refl);
  }

  run_returned-IsFinished :
      (input : Input) (label : Text) (lock : Option LockInfo) (ok : Bool) (text : Text)
      (w : World redis.State)
      → IsFinished w.attempts (run_returned redis percent cfg input label lock ok text w)
  unfolding run_returned
  run_returned-IsFinished input label lock true text w =
      finish-IsFinished input success _ _ _ _ _ _ _ (record w { store = _ }) refl
  run_returned-IsFinished input label lock false text w =
      finish-IsFinished input failed _ _ _ _ _ _ _ (record w { store = _ }) refl

  run_executed-IsFinished :
      (input : Input) (label : Text) (lock : Option LockInfo) (w : World redis.State)
      (e : Execution)
      → IsFinished w.attempts (run_executed redis percent cfg input label lock w e)
  unfolding run_executed run_raised
  run_executed-IsFinished input label lock w (returned ok text) =
      run_returned-IsFinished input label lock ok text w
  run_executed-IsFinished input label lock w (raised txt name) =
      finish-IsFinished input failed _ _ _ _ _ _ _ (record w { store = _ }) refl

  run_entered-IsFinished :
      (input : Input) (label : Text) (w : World redis.State) (e : Entered)
      → IsFinished w.attempts (run_entered redis percent cfg input label w e)
  unfolding run_entered
  run_entered-IsFinished input label w (entered lock) =
      run_executed-IsFinished input label lock w input.execution
  run_entered-IsFinished input label w (slot_cancelled text) =
      finish-IsFinished input stopped _ _ _ _ _ _ _ (record w { store = _ }) refl
  run_entered-IsFinished input label w (slot_timeout text) =
      finish-IsFinished input failed _ _ _ _ _ _ _ (record w { store = _ }) refl

  run_locked-IsFinished :
      (input : Input) (label : Text) (w : World redis.State)
      → IsFinished w.attempts (run_locked redis percent cfg input label w)
  unfolding run_locked
  run_locked-IsFinished input label w = run_entered-IsFinished input label w _

  run_answered-IsFinished :
      (input : Input) (label : Text) (w : World redis.State) (a : Answer × redis.State)
      → IsFinished w.attempts (run_answered redis percent cfg input label w a)
  unfolding run_answered
  run_answered-IsFinished input label w (answer, s) = elim (Bool-cases answer.is_open) [
    | inl e ↦ rw e (finish-IsFinished input failed _ _ _ _ _ _ _ (record w { store = _ }) refl)
    | inr e ↦ rw e (run_locked-IsFinished input label (record w { store = s }))
  ]

  run_allowed-IsFinished :
      (input : Input) (w : World redis.State)
      → IsFinished w.attempts (run_allowed redis percent cfg input w)
  unfolding run_allowed
  run_allowed-IsFinished input w =
      elim (Bool-cases (text_eq (breaker_label cfg.policy input.device) (codes "direct"))) [
        | inl e ↦ rw e (
            run_locked-IsFinished input (breaker_label cfg.policy input.device)
              (started redis percent cfg input w))
        | inr e ↦ rw e (
            run_answered-IsFinished input (breaker_label cfg.policy input.device)
              (started redis percent cfg input w)
              (check redis percent cfg.breaker cfg.connected (breaker_label cfg.policy input.device)
                input.checked_ms w.store))
      ]

  run_gated-IsFinished :
      (input : Input) (w : World redis.State) (g : Gate)
      → IsFinished w.attempts (run_gated redis percent cfg input w g)
  unfolding run_gated
  run_gated-IsFinished input w allowed = run_allowed-IsFinished input w
  run_gated-IsFinished input w (blocked text category) =
      finish-IsFinished input failed _ _ _ _ _ _ _ (record w { store = _ }) refl

  -- Whatever a run of the task meets (a stop flag, a device that may not be backed up, an open
  -- breaker, no slot, a failure or an error of the executor, or success), it ends its bookkeeping:
  -- the task's metadata is complete at 100 percent and holds the result that the task returns, its
  -- status is final, and success only for a successful result, and exactly one attempt is counted.
  pub run-IsFinished :
      (input : Input) (w : World redis.State)
      → IsFinished w.attempts (run redis percent cfg input w)
  unfolding run
  run-IsFinished input w =
      elim (Bool-cases
        (should_stop redis percent cfg input (touch redis percent cfg input w).store)) [
          | inl e ↦
              rw e (
                finish-IsFinished input stopped _ _ _ _ _ _ _ (touch redis percent cfg input w)
                  refl)
          | inr e ↦
              rw e (
                run_gated-IsFinished input (touch redis percent cfg input w)
                  (validate input.device))
        ]
