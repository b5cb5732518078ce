-- ===== src/Ranking.antt =====
-- api/insights/ranker.py: which of the candidate observations take a surface's few slots.
pub mod Rank
pub mod Ties
pub mod Slate
mod Tests
