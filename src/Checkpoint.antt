-- ===== src/Checkpoint.antt =====
-- src/check/Checkpoint.cpp: the journal of a check run, and the shard files of its workers.
pub mod Wire
pub mod Entries
pub mod Encode
pub mod Decode
pub mod Flags
pub mod Payload
pub mod Diagnostics
pub mod Findings
pub mod Journal
pub mod Shard
pub mod Identity
pub mod Samples
mod Tests
