-- ===== src/Supervisor.antt =====
-- docker/docker-supervisor.ts: one container per project, started again or rebuilt by its exit code.
pub mod State
pub mod Starting
pub mod Stopping
pub mod Frames
pub mod Spawns
pub mod Single
pub mod Quiet
pub mod Settling
pub mod Ends
mod Tests
