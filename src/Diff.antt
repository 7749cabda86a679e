-- ===== src/Diff.antt =====
-- utils/unified-diff.ts: the lines that differ between two texts.
pub mod Int
pub mod Edits
pub mod Hunks
pub mod Shown
mod Tests
