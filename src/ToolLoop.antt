-- ===== src/ToolLoop.antt =====
-- The router's server-side tool execution, in scripts/files/router-app.py: the deltas of tool
-- calls, the events of an upstream's stream, and the loop of turns in both modes.
mod Accumulator
mod Reassembly
mod Events
mod Chunking
mod Dispatch
mod Turn
mod Stream
mod Nonstream
mod Conversation
mod Endings
mod Answer
mod Tests
