-- ===== src/Deploy.antt =====
-- internal/deploy: what the install of a new cluster is given.
pub mod Params
pub mod Trim
pub mod Sizes
pub mod Topology
pub mod Examples
