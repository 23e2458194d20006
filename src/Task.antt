-- ===== src/Task.antt =====
-- The task that backs up one device (`_internal_run_backup_task` of app/tasks/backups.py): what it
-- checks before, the slot of the jump host that it waits for, and what it records after.
pub mod Gate
pub mod Lock
pub mod Outcome
pub mod Run
mod Tests
