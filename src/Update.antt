-- ===== src/Update.antt =====
-- internal/update: the update of bm's own binary.
pub mod Tags
pub mod Ordering
pub mod Service
pub mod Justified
pub mod Examples
