-- ===== src/Exporters.antt =====
-- opsincident_collector/exporters
pub mod ExportState
pub mod IncidentopsApi
pub mod Local
