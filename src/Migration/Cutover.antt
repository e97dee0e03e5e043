-- ===== src/Migration/Cutover.antt =====
-- `Execute` of internal/migration/executor.go.
pub mod Env
pub mod Defs
pub mod Course
pub mod Flip
