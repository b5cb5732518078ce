-- ===== src/Account.antt =====
-- portfolio_analytics/domain/account_performance.py: what an account earned between observations.
pub mod Events
pub mod Positions
pub mod Wealth
pub mod Rollup
pub mod Period
pub mod Identity
pub mod Gate
pub mod Series
pub mod Linked
pub mod Reasons
mod Tests
