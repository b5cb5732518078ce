-- ===== src/Persisted.antt =====
-- Activities kept as rows of the `transactions` table and read back as ledger rows
-- (api/services/persistence.py, api/services/analytics.py).
pub mod Insert
pub mod Engine
