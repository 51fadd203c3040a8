-- ===== src/Tests.antt =====
-- Runs of the code, and the theorems at concrete data.
pub mod Fixtures
mod Queue
mod Files
mod Uploads
mod Syncs
mod Inspections
mod Commands
mod Daemons
mod Loads
mod Agents
mod Analyses
