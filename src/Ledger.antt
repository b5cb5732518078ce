-- ===== src/Ledger.antt =====
-- portfolio_analytics/domain/ledger.py: transactions become open tax lots, realized gains and cash.
pub mod Records
pub mod Relief
pub mod Apply
pub mod Valid
pub mod Rows
pub mod Invariant
pub mod Cash
pub mod Shares
pub mod Holdings
mod Tests
pub mod Reports
pub mod Transfer
pub mod Frame
pub mod Reinvestment
