-- ===== src/Dashboard.antt =====
-- The live dashboard's state: scripts/files/live_dashboard/tracker.py, which follows the requests
-- of the chat server, and scripts/files/live_dashboard/history.py, which stores them.
pub mod Slots
mod Row
mod Tracker
mod Journal
mod Polling
mod Rows
mod JournalKept
mod PollsKept
mod Counted
mod Restarts
mod History
mod Held
mod Flush
mod Drained
mod Outage
mod Tests
mod StoreTests
