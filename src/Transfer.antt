-- ===== src/Transfer.antt =====
-- Monobank transfer detection (services/enrichment/src/grosh_enrichment/sources/monobank).
pub mod Descriptions
pub mod Flags
pub mod Evidence
pub mod Records
pub mod Anomalies
pub mod Decision
pub mod Queries
pub mod Metadata
pub mod Detector
mod Examples
