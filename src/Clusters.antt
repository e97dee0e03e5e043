-- ===== src/Clusters.antt =====
-- internal/clusters: the health rollup, and the bucket of the clusters.
pub mod Health
pub mod Repo
pub mod Rollup
pub mod Examples
