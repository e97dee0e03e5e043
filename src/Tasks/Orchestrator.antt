-- ===== src/Tasks/Orchestrator.antt =====
-- internal/tasks/orchestrator.go: the dispatch of operations, one at a time for each cluster.
pub mod Types
pub mod Defs
pub mod Steps
pub mod Release
pub mod Dispatching
pub mod Owning
pub mod Exclusion
pub mod Ending
