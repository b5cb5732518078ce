-- ===== src/Quality.antt =====
-- portfolio_analytics/ingestion/quality.py: the gates that look over a snapshot before it is stored, and over a
-- series of closes.
pub mod Finding
pub mod Contract
pub mod Activities
pub mod Prices
pub mod Visible
pub mod Calm
mod Tests
