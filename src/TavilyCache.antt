-- ===== src/TavilyCache.antt =====
-- The TTL and LRU cache of Tavily search responses: scripts/files/tavily_cache.py.
pub mod Ordered
pub mod Cache
pub mod Distinct
pub mod History
pub mod Recency
mod Tests
