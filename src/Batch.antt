-- ===== src/Batch.antt =====
-- Backups of many devices at once: the lock that lets a tenant run one batch at a time
-- (app/services/realtime_backup_logs.py), and the test for a running batch that the scheduler makes
-- (`_has_active_bulk_operation` of app/tasks/backups.py).
pub mod Lock
pub mod Active
pub mod Phases
mod Tests
