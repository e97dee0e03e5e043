-- ===== src/Migration/Rollback.antt =====
-- `RollbackExecutor` of internal/migration/rollback.go.
pub mod Defs
pub mod Course
pub mod Revert
