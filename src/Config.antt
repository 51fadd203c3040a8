-- ===== src/Config.antt =====
-- opsincident_collector/config: the settings and how they are loaded.
pub mod Loader
pub mod Settings
