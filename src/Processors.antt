-- ===== src/Processors.antt =====
-- opsincident_collector/processors and security: what happens to a file between discovery and export.
pub mod Batcher
pub mod Regex
pub mod FileFilter
pub mod PathPolicy
pub mod Redactor
pub mod Classifier
pub mod Hints
pub mod Normalizer
