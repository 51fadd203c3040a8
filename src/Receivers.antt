-- ===== src/Receivers.antt =====
-- The package receivers/.
pub mod Filesystem
