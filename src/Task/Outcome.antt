-- ===== src/Task/Outcome.antt =====
-- What a run of the backup task reads, writes and returns, and the calls that it makes on every path:
-- parts of `_internal_run_backup_task` of app/tasks/backups.py. The executor that talks to the device
-- is what it returns or raises. The metrics and the events are left out, except the outcome that each
-- attempt is counted under; the texts of the log are those given to `append_task_log`.
use backup_center_ajust_cons.Base.{
  ℕ, ◌+◌, Bool, true, false, not, ◌&&◌, List, [], ◌∷◌, ◌++◌, Option, some, if◌then◌else◌, is_some,
}
use backup_center_ajust_cons.Text.{Text, codes, is_empty, strip, text_eq, mem_text}
use backup_center_ajust_cons.Text.Dict.{Dict}
use backup_center_ajust_cons.Redis.{Redis}
use backup_center_ajust_cons.Connection.{Policy}
use backup_center_ajust_cons.JumpHost.Breaker
use backup_center_ajust_cons.JumpHost.Breaker.{check, record_outcome, Answer, Reason}
use backup_center_ajust_cons.JumpHost.Slots
use backup_center_ajust_cons.JumpHost.Slots.{LockInfo, adapt}
use backup_center_ajust_cons.Task.Gate.{Device, resolve_lock}
use backup_center_ajust_cons.Task.Lock.{
  Round, Entered, entered, slot_cancelled, slot_timeout, enter, effective_wait,
}
use backup_center_ajust_cons.Task.Lock

-- `CB_FAILURE_CATEGORIES`
abbrev pub cb_failure_categories : List Text
cb_failure_categories =
    codes "timeout"
    ∷ codes "connection"
    ∷ codes "jump_session_closed"
    ∷ codes "port_refused"
    ∷ codes "no_ping"
    ∷ codes "jump_host_slot_timeout"
    ∷ []

-- A message: a text, or the reason that the breaker gives.
pub data Message : Type 0 where
  plain : Text → Message
  of_breaker : Reason → Message

-- The dict that the task returns.
pub record Result : Type 0 where
  pub success : Bool
  pub message : Message
  pub failure_category : Option Text

pub data Status : Type 0 where
  running success failed stopped : Status

-- The fields of the task's metadata that the task writes.
pub record Meta : Type 0 where
  pub status : Status
  pub progress : ℕ
  pub message : Message
  pub completed : Bool
  pub result : Option Result

pub data Level : Type 0 where
  info succeeded warning error : Level

-- What `_track_attempt_outcome` counts and reports.
pub record Attempt : Type 0 where
  pub outcome : Text
  pub category : Text
  pub message : Message

-- What `run_backup_for_device_id` does: it returns, or it raises an error, with its `str` and the
-- name of its class.
pub data Execution : Type 0 where
  returned : Bool → Text → Execution
  raised : Text → Text → Execution

-- `_safe_error_text` of an error
unfoldable pub safe_error_text : Text → Text → Text
unfolding strip
safe_error_text txt name =
    if not (is_empty (strip txt))
    then strip txt
    else if is_empty name
    then codes "Erro sem detalhe."
    else name

-- What a run is given and sees: the rows, the batch, the clock, the locks, and the device.
pub record Input : Type 0 where
  pub device_id : Text
  pub device : Option Device
  pub is_in_bulk : Bool
  pub bulk_devices : ℕ
  pub bulk_cancelled : Bool
  pub checked_ms : ℕ
  pub recorded_ms : ℕ
  pub rounds : ℕ → Round
  pub execution : Execution

-- `touches` counts the updates of the batch's last activity.
pub record World (State : Type 0) : Type 0 where
  pub store : State
  pub meta : Meta
  pub log : List (Level × Message)
  pub attempts : List Attempt
  pub touches : ℕ

pub record Settings : Type 0 where
  pub connected : Bool
  pub breaker : Breaker.Settings
  pub slots : Slots.Settings
  pub lock : Lock.Settings
  pub policy : Policy
  pub max_slots : ℕ
  pub overrides : Dict ℕ

abbrev pub text_or : Text → Text → Text
text_or t d = if is_empty t then d else t

-- The text of a failure that the executor returned without one.
abbrev pub returned_text : Bool → Text → Text
returned_text ok message =
    if not ok && is_empty message
    then codes "Falha sem mensagem retornada pelo executor."
    else message

abbrev pub failure : Message → Text → Result
failure message category = record {
  success = false;
  message = message;
  failure_category = some category;
}

module _ (redis : Redis) (percent : ℕ → ℕ → ℕ) (cfg : Settings) where
  abbrev pub touch : Input → World redis.State → World redis.State
  touch input w = record w { touches = if input.is_in_bulk then w.touches + 1 else w.touches }

  -- The four calls that end a run on every path: the metadata, the log, the attempt and the batch.
  unfoldable pub finish :
      Input
      → Status
      → Message
      → Level
      → Message
      → Text
      → Text
      → Message
      → Result
      → World redis.State
      → Result × World redis.State
  finish input status message level line outcome category tracked result w = (
    result,
    touch input (record w {
      meta = record {
        status = status;
        progress = 100;
        message = message;
        completed = true;
        result = some result;
      };
      log = w.log ++ (level, line) ∷ [];
      attempts =
          w.attempts ++ (record { outcome = outcome; category = category; message = tracked }) ∷ [];
    }),
  )

  abbrev pub adapt_in : Option LockInfo → Bool → Text → redis.State → redis.State
  adapt_in lock ok message s =
      (adapt redis cfg.slots cfg.connected cfg.overrides lock ok message s).1

  -- `lock_info`, or the lock that is resolved again in its place
  abbrev pub or_resolve : Input → Option LockInfo → Option LockInfo
  unfolding resolve_lock
  or_resolve input lock =
      if is_some lock then lock else resolve_lock cfg.max_slots cfg.policy input.device

  -- What the breaker of the label is told of an outcome; an overloaded banner counts as a success.
  unfoldable pub feed_breaker : Text → Bool → Text → ℕ → redis.State → redis.State
  unfolding record_outcome mem_text text_eq
  feed_breaker label ok category now_ms s =
      if text_eq label (codes "direct")
      then s
      else if ok
      then record_outcome redis percent cfg.breaker cfg.connected label true now_ms s
      else if text_eq category (codes "banner_timeout")
      then record_outcome redis percent cfg.breaker cfg.connected label true now_ms s
      else if mem_text category cb_failure_categories
      then record_outcome redis percent cfg.breaker cfg.connected label false now_ms s
      else s
