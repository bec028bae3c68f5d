-- ===== src/Engine/Event.antt =====
-- src/engine/event.rs and src/engine/lifecycle.rs. Every `completion_sender` is a clone of the one
-- channel into the coordinator, so no event carries it here.
use atomic_blob_storage.Base.{ℕ, Option}
use atomic_blob_storage.Error.{CleanupReport, Outcome}
use atomic_blob_storage.Engine.Operation.{Operation, BlockingResult}

pub data Lifecycle : Type 0 where
  open_store closing closed shutdown_failed failed : Lifecycle

-- A key's hash, 32 bytes, is the number that they write.
pub record Submission : Type 0 where
  pub key_hash : ℕ
  pub operation : Operation

pub record Completion : Type 0 where
  pub key_hash : ℕ
  pub outcome : Option (Operation × BlockingResult)

pub record MaintenanceSubmission : Type 0 where
  pub minimum_age : Option ℕ
  pub sender : ℕ

pub record MaintenanceCompletion : Type 0 where
  pub outcome : Option (ℕ × Outcome CleanupReport)

pub data CoordinatorEvent : Type 0 where
  submission : Submission → CoordinatorEvent
  completion : Completion → CoordinatorEvent
  maintenance : MaintenanceSubmission → CoordinatorEvent
  maintenance_completion : MaintenanceCompletion → CoordinatorEvent
  flush close : ℕ → CoordinatorEvent

pub data PendingEvent : Type 0 where
  submission : Submission → PendingEvent
  maintenance : MaintenanceSubmission → PendingEvent
  flush close : ℕ → PendingEvent
