-- ===== src/Runner.antt =====
-- The dispatcher of the agent runner, scripts/files/agent_runner_dispatch.py: the choice of a task
-- and the edits of its labels.
pub mod Names
mod Pick
mod AskedOnce
mod Chosen
mod Relabel
mod Reached
mod Dispatch
mod Endings
mod Tests
