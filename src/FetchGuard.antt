-- ===== src/FetchGuard.antt =====
-- The fetch of a web page that keeps to public addresses: scripts/files/web_fetch_guard.py.
pub mod Address
pub mod Fetch
pub mod Vetted
mod Tests
