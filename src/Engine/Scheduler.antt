-- ===== src/Engine/Scheduler.antt =====
-- src/engine/scheduler.rs: the coordinator's state and the handling of each event. The state holds
-- the loop's variables, the shared lifecycle, the channel of events that wait, and the replies sent.
-- `started` records the operations in the order in which they were taken off their queues.
pub mod Defs
pub mod Dispatch
pub mod Handle
pub mod Cases
pub mod History
pub mod Fifo
pub mod Slots
pub mod Order
pub mod Core
pub mod Invariant
pub mod Rounds
pub mod Progress
pub mod Reach
pub mod Barriers
