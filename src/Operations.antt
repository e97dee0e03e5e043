-- ===== src/Operations.antt =====
-- internal/operations: the executors of the actions on a cluster.
pub mod Shell
pub mod Versions
pub mod Waits
pub mod Types
pub mod Progress
pub mod Row
pub mod Hosts
pub mod Rolling
pub mod Scoped
pub mod Upgrade
pub mod Creds
pub mod Peers
pub mod Start
pub mod Examples
