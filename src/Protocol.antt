-- ===== src/Protocol.antt =====
-- crates/vs-protocol: the wire format and its data.
pub mod Error
pub mod Codes
pub mod Tokenize
pub mod Request
pub mod Tree
pub mod Delta
pub mod Envelope
