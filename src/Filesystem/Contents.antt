-- ===== src/Filesystem/Contents.antt =====
-- src/filesystem/mod.rs and src/format.rs: what the operations do to the stored blobs.
pub mod Envelopes
pub mod Saved
pub mod Removed
pub mod Quarantined
pub mod Streamed
