-- ===== src/Income.antt =====
-- portfolio_analytics/domain/realized.py: taxable income by calendar year. A `dict` from years to
-- amounts is a list of pairs in which a year comes once.
pub mod Years
pub mod Summary
pub mod Tests
