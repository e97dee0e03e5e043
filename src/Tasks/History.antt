-- ===== src/Tasks/History.antt =====
-- internal/tasks/history.go: the bbolt-backed table of operations.
pub mod Defs
pub mod Rows
pub mod Pruning
pub mod Listing
