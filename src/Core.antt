-- ===== src/Core.antt =====
-- opsincident_collector/core: the data model, the payload for Core, the pipeline and its reports.
pub mod Json
pub mod Models
pub mod Payload
pub mod Machine
pub mod Collecting
pub mod Targets
pub mod Pipeline
pub mod Inspection
pub mod Analysis
