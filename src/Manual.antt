-- ===== src/Manual.antt =====
-- portfolio_analytics/broker_io/manual_entry.py: one position that a user types in.
pub mod Entry
pub mod Owned
mod Tests
