-- ===== src/Discovery.antt =====
-- internal/discovery: what a version text says of its engine.
pub mod Engine
