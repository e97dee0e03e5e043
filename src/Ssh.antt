-- ===== src/Ssh.antt =====
-- internal/ssh: the credentials of one host.
pub mod Config
pub mod Saved
pub mod Examples
