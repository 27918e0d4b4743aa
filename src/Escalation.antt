-- ===== src/Escalation.antt =====
-- The budget, the ledger and the one retry of Claude escalation: scripts/files/escalation.py.
pub mod Budget
pub mod Ledger
pub mod Caps
pub mod Counts
pub mod Breaker
pub mod Post
pub mod Handle
pub mod Accounts
pub mod Once
mod Tests
