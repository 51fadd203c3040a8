-- ===== src/State.antt =====
-- opsincident_collector/state: the SQLite store and the checkpoint decisions.
pub mod Store
pub mod Uploads
pub mod Checkpoints
