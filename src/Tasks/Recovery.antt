-- ===== src/Tasks/Recovery.antt =====
-- internal/tasks/recovery.go: rows left running by a process that ended.
pub mod Defs
pub mod Touch
pub mod Marks
