-- ===== src/Adapter.antt =====
-- portfolio_analytics/ingestion/reader_adapter.py: the canonical store in the shapes of a broker's reader.
pub mod Canonical
pub mod Readback
mod Tests
