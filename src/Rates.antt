-- ===== src/Rates.antt =====
-- Currency rates: the stored rows, their upkeep, the lookups and the conversion.
pub mod Table
pub mod Lookup
pub mod Convert
pub mod Display
pub mod Ingest
mod Examples
