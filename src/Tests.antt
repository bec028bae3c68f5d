-- ===== src/Tests.antt =====
-- Concrete runs, and the theorems at concrete inputs.
mod Castagnoli
mod Samples
mod Envelopes
mod Disk
mod Files
mod Coordinator
mod System
mod WindowsDisk
mod WindowsFiles
mod Stores
