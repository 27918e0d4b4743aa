-- ===== src/Admission.antt =====
-- Who may hold a chat slot: scripts/files/stream_admission.py and scripts/files/workforce_lane.py.
-- `Gate` and `Lane` are the two counters, `System` the requests that compete for them.
pub mod Gate
pub mod Lane
pub mod System
pub mod Invariant
pub mod Safety
pub mod Reserve
pub mod Refresh
pub mod HoldSlot
mod Tests
