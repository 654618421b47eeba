-- ===== src/Protocol/Delta.antt =====
-- crates/vs-protocol/src/delta: the operations on trees, their wire form, `apply` and `diff`.
pub mod Ops
pub mod Parse
pub mod Apply
pub mod Diff
pub mod Places
pub mod Heads
pub mod Lines
pub mod RoundTrip
mod Examples
