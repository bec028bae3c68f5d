-- ===== src/Format.antt =====
-- src/format.rs: the envelope of a blob. `Encode` writes it and `Decode` reads it; the other
-- children hold the theorems.
pub mod Crc
pub mod Encode
pub mod Decode
mod Sections
pub mod Layout
pub mod Accepts
pub mod Sound
pub mod Agree
pub mod Streamed
