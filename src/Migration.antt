-- ===== src/Migration.antt =====
-- internal/migration: moving a cluster from MinIO to Buckit, and back.
pub mod Types
pub mod Examples
pub mod Hosts
pub mod Online
pub mod Cutover
pub mod Rollback
