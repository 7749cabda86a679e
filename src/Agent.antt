-- ===== src/Agent.antt =====
-- project-agent.ts: how an agent registers, waits in standby, loses its slot and shuts down.
pub mod State
pub mod Registering
pub mod Leaving
pub mod Runs
pub mod Moves
pub mod Drained
pub mod Evicting
pub mod Closing
pub mod Releasing
pub mod Waiting
pub mod Lost
mod Tests
