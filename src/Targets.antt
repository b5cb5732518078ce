-- ===== src/Targets.antt =====
-- api/services/cash_to_targets.py: new cash spent in whole shares on the user's own targets. The
-- holdings and the price reader are other services': an argument each.
pub mod Line
pub mod Plan
pub mod Cover
pub mod Tests
