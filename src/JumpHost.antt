-- ===== src/JumpHost.antt =====
-- The jump hosts that many devices share (app/tasks/backups.py): the circuit breaker of a jump host,
-- and the number of connections that it takes at once.
pub mod Breaker
pub mod Slots
