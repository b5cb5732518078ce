-- ===== src/Tranches.antt =====
-- portfolio_analytics/broker_io/transactions.py: a broker's activity rows become transactions, and these the
-- open lots behind each holding.
pub mod Activity
pub mod Kept
pub mod Grouping
pub mod Rebuild
pub mod Groups
pub mod Sound
mod Tests
