-- ===== src/RagRefresh.antt =====
-- The refresh of one RAG source: scripts/rag/lib/plan.py and `refresh_one` of scripts/rag/refresh.py.
pub mod Documents
pub mod Plan
pub mod Batches
pub mod Apply
pub mod Diff
pub mod Uploads
pub mod Converges
pub mod Settles
pub mod Again
pub mod Guards
pub mod Losses
mod Tests
