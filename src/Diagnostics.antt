-- ===== src/Diagnostics.antt =====
-- The diagnosis of failures (app/services/backup_diagnostics.py and app/tasks/backups.py): the
-- category of an error text, and which failures are worth another try.
pub mod Classify
pub mod Retry
mod Tests
