-- ===== src/Guard.antt =====
-- server-setup/ansible-task-guard.ts: the static validation of server-setup recipes.
pub mod Yaml
pub mod Names
pub mod Scan
pub mod Role
pub mod Validate
pub mod Safe
mod Silence
pub mod Soundness
pub mod Accept
pub mod Templates
pub mod Mentions
pub mod Secrets
pub mod Policy
pub mod FullNames
pub mod Permitted
pub mod Matching
pub mod Clean
pub mod Described
pub mod Lookup
pub mod Confine
pub mod Routes
pub mod Staging
pub mod FreeForm
mod Tests
