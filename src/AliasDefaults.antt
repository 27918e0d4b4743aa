-- ===== src/AliasDefaults.antt =====
-- The defaults that the router fills into a chat body: scripts/files/alias_defaults.py.
pub mod Fill
pub mod Filled
mod Raises
mod Tests
