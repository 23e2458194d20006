-- ===== src/Lib.antt =====
-- A verification library for Backup Center, a service that backs up network devices of many tenants:
-- Celery tasks reach the devices (directly, by VPN or by a jump host that many devices share), and a
-- web application sells plans that limit what a tenant may use.
--
-- The parts and their files:
-- * Base, Text and Redis hold what the others share: lists and Boolean tests on native numbers,
--   Python's integers, tables as lists of rows, texts as code points with the methods of `str`, dicts,
--   and the Redis commands as an interface with laws (Redis), met by a server in memory (Redis.Memory).
-- * JumpHost.Breaker is the circuit breaker of app/tasks/backups.py:
--   `_check_jump_host_circuit_breaker` is `check`, `_record_jump_host_outcome` is `record_outcome`,
--   `reset_circuit_breakers_for_new_batch` is `reset`. Its state is the Redis store.
-- * JumpHost.Slots is the adaptive limit of connections of the same file:
--   `_resolve_effective_jump_host_slots` is `effective_slots`, `_adapt_jump_host_slots` is `adapt`,
--   `_parse_jump_host_slot_overrides` is `parse_overrides`.
-- * Task is the task that backs up one device: Task.Gate has what it reads first
--   (`_validate_device_execution_allowed`, `_resolve_jump_host_lock`, the stop flag), Task.Lock the wait
--   for a slot (`_jump_host_lock_context`), Task.Outcome what is read, written and returned, and Task.Run
--   the branches of `_internal_run_backup_task`. The task asks the breaker, waits for a slot within the
--   limit of JumpHost.Slots, calls the executor, and tells the breaker and the slots how it went.
-- * Diagnostics is app/services/backup_diagnostics.py (`classify_failure`, `failure_label`,
--   `is_transient_failure`) and the retry decision of app/tasks/backups.py
--   (`_should_retry_transient_failure` is `should_retry`).
-- * Batch is the lock that lets a tenant run one batch at a time (app/services/realtime_backup_logs.py:
--   `acquire_tenant_bulk_lock` is `acquire`, and Batch.Lock.Race has its commands as steps of two
--   workers) and `_has_active_bulk_operation` of app/tasks/backups.py (Batch.Active). Batch.Phases has the
--   groups that a batch queues after its direct devices
--   (`enqueue_jump_and_vpn_after_direct_phase_task` is `jump_phase`,
--   `enqueue_vpn_groups_after_direct_phase_task` is `vpn_phase`, and `run_phases` is both).
-- * Scheduler is the periodic task `run_scheduled_backups` of app/tasks/backups.py (`run_scheduled`) on
--   its tables: Scheduler has the tables and the devices that count
--   (app/services/mass_backup_scope.py: `is_excluded_type`), Scheduler.Rows the schedules before a run,
--   Scheduler.Jobs the tasks of one tenant, Scheduler.Run the loop over the tenants that are due. It asks
--   Connection how a device is reached and Schedule when a tenant's next run is.
-- * Logs is the realtime logs of app/services/realtime_backup_logs.py: Logs.Write has
--   `append_task_log` (`append_log`), Logs.Prune the pruning by age (`_prune_global_logs_by_age` is
--   `prune_head`, `prune_global_logs` is `prune_all`) and `clear_tenant_global_logs` (`clear_tenant`),
--   Logs.Scan the pages of a log (`_scan_recent_entries` is `scan_recent`).
-- * Auth is the sign-in of app/web/auth/routes.py: Auth.Throttle has its limits
--   (`_record_failed_login_attempt` is `record_failed`, `_is_login_blocked` is `is_login_blocked`,
--   `_consume_forgot_password_attempt` is `consume_forgot`), Auth.Totp the codes of app/core/totp.py,
--   Auth.Account the users and the state of the site, Auth.Session the session, Auth.Login the password,
--   Auth.TwoFactor the code, Auth.Password the changes of the password, and Auth.Serve the requests in
--   any order. The password is checked as `authenticate_user` of app/services/auth_service.py does it.
-- * ApiToken is app/services/api_token_service.py, function by function; ApiToken.Refines has the service
--   that it refines, which keeps the tokens themselves.
-- * Schedule is app/services/schedule_utils.py: `sanitize_daily_time` is `sanitize`, and
--   `compute_next_run_at` is `next_run`, on a calendar of its own.
-- * Purge is `purge_expired_backups` (`purge_expired`) and `purge_failed_backups_periodic`
--   (`purge_failed`) of app/tasks/backups.py, which read the device and the group of a backup.
-- * Connection is app/services/connection_mode.py: `get_effective_connection_type` is `effective_mode`.
-- * Billing is the billing: Billing.Policy is app/services/billing_policy_service.py, Billing.Limits
--   app/services/plan_limits_service.py, Billing.Access app/services/tenant_access_service.py with the
--   capacity table of app/web/billing/controller.py, and Billing.Payment the payments of the last file
--   (`process_mercadopago_payment` is `process`, `create_checkout_for_plan` is `create_checkout`). A payment
--   writes the tenant that the policy reads.
--
-- Bounds and fuel. The numbers of Python are unbounded, and so are those here; a column that may be
-- NULL is an Option. Moments are microseconds from a fixed start. The wait for a slot runs on fuel, one
-- round for each second of its limit and one more; each round sleeps a second, so the fuel is never
-- used up. The digits of a port or a limit are at most five. Texts are Python's on the code points
-- below 256. The keys of a batch's lock and of the logs do not expire. The loop of a log's scan has one
-- round for each entry. The moments of the limits and of the codes are whole seconds; the log's text is
-- what `json.loads` makes of it. HMAC, the hash of a password with its test, and the signed tokens are
-- parameters of Auth, and the salted hash of a token with its test one of ApiToken.
--
-- Not modelled: the dialogue with the devices (app/services/backup_executor.py and its scripts),
-- whose result is an argument; the VPN; the page that starts a batch, the task of a VPN group; the fields of a task's metadata that nothing here reads; the registration and the
-- roles; the metrics and the events; the conversions between UTC and the application's
-- zone; SQL, HTTP and the pages. The percentage of the breaker, which is computed in floating
-- point, is a parameter with its rounding as a hypothesis. A command of Redis or a query that
-- fails is not modelled, except a client that cannot connect.
pub mod ApiToken
pub mod Auth
pub mod Base
pub mod Batch
pub mod Billing
pub mod Connection
pub mod Diagnostics
pub mod JumpHost
pub mod Logs
pub mod Purge
pub mod Redis
pub mod Schedule
pub mod Scheduler
pub mod Task
pub mod Text
