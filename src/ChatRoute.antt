-- ===== src/ChatRoute.antt =====
-- The chat handler of scripts/files/router-app.py: what becomes of a chat request, from the checks
-- of its body to the way in which it is sent on.
pub mod Outcome
mod Alias
mod Text
mod Route
mod Stages
mod Prepared
mod Routed
mod Cleared
mod Scoped
mod Tests
