-- ===== src/Daemon.antt =====
-- crates/vs-daemon: the daemon's own state.
pub mod Error
pub mod Fallible
pub mod Engine
pub mod World
pub mod Redact
pub mod Audit
pub mod Lifecycle
pub mod PageOps
pub mod Reaper
pub mod PromptForm
pub mod Invariant
pub mod Captures
pub mod Marks
pub mod Pending
pub mod Store
pub mod PageState
mod Examples
