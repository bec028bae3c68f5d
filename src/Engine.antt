-- ===== src/Engine.antt =====
-- src/engine: the coordinator, its queues and workers, and the handle of its clients.
pub mod Operation
pub mod Event
pub mod Ledger
pub mod Workers
pub mod Queues
pub mod Scheduler
pub mod Store
pub mod Open
pub mod System
