-- ===== src/Tax.antt =====
-- portfolio_analytics/domain/tax.py: holding-period terms, tax estimates, and the hypothetical sale.
pub mod Terms
pub mod Sale
pub mod Netting
pub mod Picks
pub mod Totals
pub mod Tests
