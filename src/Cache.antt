-- ===== src/Cache.antt =====
-- api/services/compute_cache.py: one computation for all workers that ask for the same key at once.
pub mod Flight
pub mod Effect
pub mod Coherent
pub mod Progress
mod Tests
