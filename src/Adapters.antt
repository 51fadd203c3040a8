-- ===== src/Adapters.antt =====
-- opsincident_collector/adapters: the HTTP client of IncidentOps Core.
pub mod Http
pub mod Endpoints
pub mod Client
