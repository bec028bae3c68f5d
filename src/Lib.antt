-- ===== src/Lib.antt =====
-- atomic-blob-storage: crash-consistent storage of keyed blobs on a local filesystem.
--
-- A store keeps one file per key. A client's handle (src/engine/mod.rs) sends events to one coordinator
-- thread (src/engine/scheduler.rs), which keeps a queue per key, runs at most one operation of a key and
-- at most `max_concurrent_operations` of all keys at a time on a pool of workers (src/engine/workers.rs),
-- and treats flushes, maintenance and closes as barriers. A worker runs an operation
-- (src/engine/operation.rs) on the filesystem (src/filesystem/mod.rs), which writes and reads envelopes
-- (src/format.rs), and sends the result back as an event. Payloads that are not whole in memory pass
-- through channels of chunks (src/blocking.rs, src/tokio.rs, src/format.rs).
--
-- The files and what they model:
--   Base: numbers, lists, big-endian bytes. Error: src/error.rs. Config: src/config.rs.
--   Stream: std::io readers and writers, with the lengths of reads and the failures as data.
--   Format: src/format.rs. Encode and Decode are the code; Crc is the interface of crc32c; Layout is the
--     table of FORMAT.md as a function; Sections, Accepts, Sound, Agree and Streamed are proofs.
--   Naming: src/path.rs.
--   Filesystem: System is the interface of the operating system; Unix and Load are the code, of
--     src/filesystem/mod.rs and src/format.rs; Names has the names of src/filesystem/mod.rs on both
--     platforms; Contents has what the operations on Unix do to the stored files. Windows is the code for
--     Windows: its wide_path, delete_file and cleanup, with the interface of the Windows API; Initialize
--     has its initialize_platform, Calls what goes to that API, Operations the saves, clears and quarantine, Api the laws of the API, Views
--     what leaves the files alone, and Commit, Saved and Saves, Cleared and Relocated what a save, a clear
--     and a quarantine do to the stored files, with Attempts and Times; Lines and Treated what a cleanup
--     does. Platform joins the two platforms for the opening of a store.
--   Engine: Event, Operation, Workers, Queues, Scheduler and Store are src/engine/event.rs with
--     lifecycle.rs, operation.rs, workers.rs, scheduler.rs (Queues and Scheduler) and mod.rs (Store),
--     and Open has the open and from_config of mod.rs. System is the coordinator with its clients and its
--     workers, as a step relation, System/Work the work that is left, and System/Ordered the jobs of a
--     key in order; Ledger counts who holds the sending ends of the reply channels.
--     Scheduler/Defs is the state, Dispatch and Handle the code, the other files proofs.
--   Blocking: src/blocking.rs, its streams, and in Calls its other methods. Tokio: src/tokio.rs.
--   Tests: runs, and the theorems at concrete inputs.
--
-- How the code is modelled:
--   Fallible code returns Result, `?` is the bind of do blocks, and a panic is `none`. Code that changes
--   state takes it and returns it. A `u64`, a `usize` (of 64 bits) and a byte are natural numbers with
--   their bounds written out. A path is the list of its components. A key's hash, 32 bytes, is a number.
--   The sending end of a channel is the channel's number; what was sent is a list in the state. The
--   scheduler's state also holds what its Arcs share: the lifecycle, the waiting events and the replies,
--   and a list of the started operations, which no code reads. The order in which a HashMap is visited is
--   a parameter, with the law that it visits each entry. A method of the handle reads the lifecycle twice;
--   the first value, read without keeping the lock, is an argument of its own. A job is run by its worker
--   in one step, at any time after it was sent; whether it panics, and what it leaves then, is open.
--   Whether the engine's answer is there before the reader at each `select!` of the Tokio facade is data,
--   and so are the starts of threads.
--
-- Bounds and fuel: the loops over a declared length take at least one byte each time, so that length is
-- fuel enough; the loop of dispatch_available takes an operation off a queue each time, so the number of
-- queued operations is enough (Slots proves that every key is then served). The loops over random
-- names of a quarantine and, on Windows, of the saves and the clears have no bound in the code: they are
-- given a number of attempts, and the theorems ask that one of them meets a free name. On Windows a
-- streamed save reads its chunks once its staging file was made. The code tries again on any failure of
-- kind AlreadyExists, with the chunks that are left; the model assumes that only the creation of the
-- staging file fails so, when no chunk is read yet.
--
-- Parameters, with what is relied on: crc32c (Format.Crc.IsCrc32c; Tests.Castagnoli is an instance),
-- BLAKE3 (nothing), the operating system with the crates atomic-write-file, rustix and getrandom
-- (Filesystem.System.IsSystem; Tests.Disk is an instance), the Windows API
-- (Filesystem.Windows.Api.IsWindows; Tests.WindowsDisk is an instance). The crate flume, std's threads and
-- the runtime of Tokio are in the model's steps and arguments.
--
-- Not modelled: the test hooks (cfg(test)), the benchmark events, src/lib.rs (names that are passed
-- on, and access for benchmarks), the texts of errors, other platforms than Unix and Windows, the
-- removal of a staging file that is dropped before its commit, the panics of `vec![0; n]` and
-- `Vec::with_capacity(n)` where nothing of that size can be allocated (a payload of 2^63 bytes or more
-- in decode_reader, a pool of as many threads), and the flags and handles of the Windows API beyond
-- what a call does.
pub mod Base
pub mod Error
pub mod Config
pub mod Stream
pub mod Format
pub mod Naming
pub mod Filesystem
pub mod Engine
pub mod Blocking
pub mod Tokio
mod Tests
