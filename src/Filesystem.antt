-- ===== src/Filesystem.antt =====
-- src/filesystem/mod.rs, and the loading of blobs in src/format.rs.
pub mod System
pub mod Names
pub mod Unix
pub mod Windows
pub mod Platform
pub mod Load
pub mod Contents
