-- ===== src/Store.antt =====
-- The canonical store of the connectors (portfolio_analytics/ingestion/store.py, schema.py): its
-- merge, and its file. `bronze` payloads and log lines are output and are left out.
pub mod Records
pub mod Merge
pub mod Rows
pub mod Events
pub mod Persist
pub mod Valid
pub mod RoundTrip
pub mod Replace
pub mod Union
pub mod Tests
