-- ===== src/Engine/Scheduler/Defs.antt =====
-- src/engine/scheduler.rs: the state, and the replies.
use atomic_blob_storage.Base.{ℕ, Bool, true, false, not, ◌||◌, List, [], ◌∷◌, ◌++◌, is_empty}
use atomic_blob_storage.Error.{Outcome}
use atomic_blob_storage.Engine.Operation.{Operation, Reply, done}
use atomic_blob_storage.Engine.Event.{
  Lifecycle, open_store, closing, CoordinatorEvent, PendingEvent,
}
use atomic_blob_storage.Engine.Workers.{WorkerPool}
use atomic_blob_storage.Engine.Queues.{Queues, all_empty}

pub record Scheduler : Type 0 where
  pub queues : Queues
  pub active : List ℕ
  pub pending : List PendingEvent
  pub maintenance_active : Bool
  pub lifecycle : Lifecycle
  pub pool : WorkerPool
  pub channel : List CoordinatorEvent
  pub replies : List (ℕ × Reply)
  pub started : List (ℕ × Operation)
  pub stopped : Bool

-- The variables of `run_scheduler` before its loop, for a store that was just opened.
unfoldable pub initial : WorkerPool → Scheduler
initial pool = record {
  queues = [];
  active = [];
  pending = [];
  maintenance_active = false;
  lifecycle = Lifecycle.open_store;
  pool = pool;
  channel = [];
  replies = [];
  started = [];
  stopped = false;
}

abbrev pub answer : ℕ × Reply → Scheduler → Scheduler
answer r s = record s { replies = s.replies ++ (r ∷ []) }

abbrev pub done_with : ℕ → Outcome (Unit {0}) → ℕ × Reply
done_with to r = (to, done r)

-- `!active.is_empty() || queues.values().any(|queue| !queue.is_empty())`
abbrev pub busy : Scheduler → Bool
busy s = not (is_empty s.active) || not (all_empty s.queues)

abbrev pub send : CoordinatorEvent → Scheduler → Scheduler
send e s = record s { channel = s.channel ++ (e ∷ []) }

abbrev pub is_open : Lifecycle → Bool
is_open Lifecycle.open_store = true
is_open l = false

-- `Closed`, `ShutdownFailed` and `Failed`
abbrev pub is_final : Lifecycle → Bool
is_final open_store = false
is_final closing = false
is_final l = true

abbrev pub front_is_close : List PendingEvent → Bool
front_is_close (PendingEvent.close to ∷ rest) = true
front_is_close p = false
