-- ===== src/Tasks.antt =====
-- internal/tasks: the operation-dispatch pipeline.
pub mod Types
pub mod Examples
pub mod Hub
pub mod History
pub mod Recovery
pub mod Orchestrator
