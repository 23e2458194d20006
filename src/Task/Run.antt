-- ===== src/Task/Run.antt =====
-- One run of the task that backs up a device: `_internal_run_backup_task` of app/tasks/backups.py,
-- branch by branch. A failure of the database or of Redis is not modelled.
pub mod Finish
pub mod Feed
use backup_center_ajust_cons.Base.{
  ℕ, ◌+◌, ◌≡◌, Bool, true, false, not, ◌&&◌, ◌||◌, List, [], ◌∷◌, ◌++◌, Option, none, some,
  if◌then◌else◌, get_or, is_some,
}
use backup_center_ajust_cons.Text.{Text, codes, is_empty, strip, text_eq, mem_text}
use backup_center_ajust_cons.Text.Dict.{Dict}
use backup_center_ajust_cons.Redis.{Redis}
use backup_center_ajust_cons.Connection.{Policy}
use backup_center_ajust_cons.JumpHost.Breaker
use backup_center_ajust_cons.JumpHost.Breaker.{check, record_outcome, Answer, Reason}
use backup_center_ajust_cons.JumpHost.Slots
use backup_center_ajust_cons.JumpHost.Slots.{LockInfo, adapt}
use backup_center_ajust_cons.Diagnostics.Classify.{classify_failure, category_text}
use backup_center_ajust_cons.Task.Gate.{
  Device, Gate, allowed, blocked, validate, breaker_label, resolve_lock, is_force_stopped,
}
use backup_center_ajust_cons.Task.Lock.{
  Round, Entered, entered, slot_cancelled, slot_timeout, enter, effective_wait,
}
use backup_center_ajust_cons.Task.Lock
use backup_center_ajust_cons.Task.Outcome.{
  cb_failure_categories, Message, plain, of_breaker, Result, Status, running, success, failed,
  stopped, Meta, Level, info, succeeded, warning, error, Attempt, Execution, returned, raised,
  safe_error_text, Input, World, Settings, text_or, returned_text, failure, touch, finish, adapt_in,
  or_resolve, feed_breaker,
}

module _ (redis : Redis) (percent : ℕ → ℕ → ℕ) (cfg : Settings) where
  -- The executor has returned.
  unfoldable pub run_returned :
      Input → Text → Option LockInfo → Bool → Text → World redis.State → Result × World redis.State
  unfolding finish feed_breaker
  run_returned input label lock true text w =
      let message = strip text in
      let told = record w {
        store =
            feed_breaker redis percent cfg label true (codes "none") input.recorded_ms
              (adapt_in redis percent cfg lock true message w.store);
      } in
      finish redis percent cfg input success
        (plain (text_or message (codes "Backup concluido com sucesso."))) succeeded
        (plain (codes "Backup finalizado com sucesso.")) (codes "success") (codes "none")
        (plain message)
        (record { success = true; message = plain message; failure_category = none }) told
  run_returned input label lock false text w =
      let message = returned_text false (strip text) in
      let category = category_text (classify_failure message) in
      let told = record w {
        store =
            feed_breaker redis percent cfg label false category input.recorded_ms
              (adapt_in redis percent cfg lock false message w.store);
      } in
      finish redis percent cfg input failed
        (plain (text_or message (codes "Backup finalizado com falha."))) error
        (plain (codes "Backup finalizado com falha.")) (codes "failed") category (plain message)
        (failure (plain message) category) told

  -- The executor has raised an error: `except Exception`.
  unfoldable pub run_raised :
      Input → Option LockInfo → Text → World redis.State → Result × World redis.State
  unfolding finish
  run_raised input lock text w =
      let category = category_text (classify_failure text) in
      let message = plain (codes "Erro na task: " ++ text) in
      finish redis percent cfg input failed message error
        (plain (codes "Erro na task (" ++ category ++ codes "): " ++ text)) (codes "failed")
        category (plain text) (failure message category)
        (record w {
          store =
              adapt_in redis percent cfg (or_resolve redis percent cfg input lock) false text
                w.store;
        })

  unfoldable pub run_executed :
      Input → Text → Option LockInfo → World redis.State → Execution → Result × World redis.State
  unfolding run_returned run_raised safe_error_text
  run_executed input label lock w (returned ok text) = run_returned input label lock ok text w
  run_executed input label lock w (raised txt name) =
      run_raised input lock (safe_error_text txt name) w

  -- The context of the lock has yielded, or raised one of its two errors.
  unfoldable pub run_entered :
      Input → Text → World redis.State → Entered → Result × World redis.State
  unfolding run_executed finish
  run_entered input label w (entered lock) = run_executed input label lock w input.execution
  run_entered input label w (slot_cancelled text) =
      finish redis percent cfg input stopped (plain text) warning (plain text) (codes "stopped")
        (codes "jump_host_slot_cancelled") (plain text) (failure (plain text) (codes "cancelled")) w
  run_entered input label w (slot_timeout text) =
      finish redis percent cfg input failed (plain text) error (plain text) (codes "failed")
        (codes "jump_host_slot_timeout") (plain text)
        (failure (plain text) (codes "jump_host_slot_timeout"))
        (record w {
          store =
              adapt_in redis percent cfg (or_resolve redis percent cfg input none) false text
                w.store;
        })

  unfoldable pub run_locked : Input → Text → World redis.State → Result × World redis.State
  unfolding run_entered enter resolve_lock effective_wait
  run_locked input label w = run_entered input label w (
      enter redis cfg.slots cfg.connected cfg.overrides
        (effective_wait cfg.lock (if input.is_in_bulk then input.bulk_devices else 0))
        (resolve_lock cfg.max_slots cfg.policy input.device) input.rounds w.store)

  -- The breaker has answered.
  unfoldable pub run_answered :
      Input → Text → World redis.State → Answer × redis.State → Result × World redis.State
  unfolding run_locked finish
  run_answered input label w (answer, s) =
      let w' = record w { store = s } in
      if answer.is_open
      then finish redis percent cfg input failed (of_breaker answer.reason) warning
          (of_breaker answer.reason) (codes "circuit_breaker") (codes "circuit_breaker")
          (of_breaker answer.reason) (failure (of_breaker answer.reason) (codes "circuit_breaker"))
          w'
      else run_locked input label w'

  -- The world when the run has begun.
  abbrev pub started : Input → World redis.State → World redis.State
  started input w = record w {
    meta = record w.meta {
      status = running;
      progress = 10;
      message = plain (codes "Iniciando conexao com o dispositivo...");
      completed = false;
    };
    log =
        w.log ++ (info, plain (codes "Backup iniciado para dispositivo " ++ input.device_id)) ∷ [];
  }

  -- The device may be backed up.
  unfoldable pub run_allowed : Input → World redis.State → Result × World redis.State
  unfolding run_answered check breaker_label text_eq
  run_allowed input w =
      let label = breaker_label cfg.policy input.device in
      if text_eq label (codes "direct")
      then run_locked input label (started input w)
      else run_answered input label (started input w)
          (check redis percent cfg.breaker cfg.connected label input.checked_ms w.store)

  unfoldable pub run_gated : Input → World redis.State → Gate → Result × World redis.State
  unfolding run_allowed finish
  run_gated input w allowed = run_allowed input w
  run_gated input w (blocked text category) =
      finish redis percent cfg input failed (plain text) warning (plain text) (codes "failed")
        category (plain text) (failure (plain text) category) w

  -- `_should_stop_now`
  unfoldable pub should_stop : Input → redis.State → Bool
  unfolding is_force_stopped
  should_stop input s =
      is_force_stopped redis cfg.connected s || (input.is_in_bulk && input.bulk_cancelled)

  abbrev pub stop_text : Text
  stop_text = codes "Backup interrompido pelo operador (parada forçada)."

  -- `_internal_run_backup_task`
  unfoldable pub run : Input → World redis.State → Result × World redis.State
  unfolding run_gated should_stop validate finish
  run input w =
      let w' = touch redis percent cfg input w in
      if should_stop input w'.store
      then finish redis percent cfg input stopped
          (plain (codes "Execucao interrompida por parada forçada.")) warning
          (plain (codes "Task interrompida por parada forçada.")) (codes "stopped")
          (codes "cancelled") (plain stop_text)
          (record { success = false; message = plain stop_text; failure_category = none }) w'
      else run_gated input w' (validate input.device)
