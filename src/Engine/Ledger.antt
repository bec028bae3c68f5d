-- ===== src/Engine/Ledger.antt =====
-- src/engine/scheduler.rs: who holds the sending end of a result channel, and what is in flight.
pub mod Queued
pub mod Dispatched
pub mod Settled
pub mod Replied
pub mod Handled
use atomic_blob_storage.Base.{
  ℕ, suc, ◌+◌, ◌≡◌, Bool, true, false, List, [], ◌∷◌, ◌++◌, Option, none, some, ◌==◌, arith,
  if◌then◌else◌,
}
use atomic_blob_storage.Engine.Operation.{Operation, Reply, sender}
use atomic_blob_storage.Engine.Event.{
  Completion, MaintenanceCompletion, CoordinatorEvent, PendingEvent,
}
use atomic_blob_storage.Engine.Workers.{WorkerJob, operation_job, maintenance_job}
use atomic_blob_storage.Engine.Queues.{Queues}
use atomic_blob_storage.Engine.Scheduler.Defs.{Scheduler}

-- 1 where the channel is that of number `n`.
abbrev pub one_if : ℕ → ℕ → ℕ
one_if n to = if to == n then 1 else 0

abbrev pub sum_of {ℓ} : {A : Type ℓ} → (A → ℕ) → List A → ℕ
sum_of f [] = 0
sum_of f (x ∷ xs) = f x + sum_of f xs

pub sum_of-append {ℓ} :
    {A : Type ℓ} (f : A → ℕ) (xs ys : List A) → sum_of f (xs ++ ys) ≡ sum_of f xs + sum_of f ys
sum_of-append f [] ys = omega arith
sum_of-append f (x ∷ xs) ys = omega (arith, sum_of-append f xs ys)

abbrev pub in_outcome {ℓ} : {A : Type ℓ} → (A → ℕ) → Option A → ℕ
in_outcome f none = 0
in_outcome f (some a) = f a

abbrev pub in_reply : ℕ → ℕ × Reply → ℕ
in_reply n r = one_if n r.0

abbrev pub in_operation : ℕ → Operation → ℕ
in_operation n op = one_if n (sender op)

abbrev pub in_entry : ℕ → ℕ × List Operation → ℕ
in_entry n entry = sum_of (in_operation n) entry.1

abbrev pub in_pending : ℕ → PendingEvent → ℕ
in_pending n (PendingEvent.submission sub) = in_operation n sub.operation
in_pending n (PendingEvent.maintenance m) = one_if n m.sender
in_pending n (PendingEvent.flush to) = one_if n to
in_pending n (PendingEvent.close to) = one_if n to

abbrev pub in_job : ℕ → WorkerJob → ℕ
in_job n (operation_job k op) = in_operation n op
in_job n (maintenance_job m) = one_if n m.sender

abbrev pub in_event : ℕ → CoordinatorEvent → ℕ
in_event n (CoordinatorEvent.submission sub) = in_operation n sub.operation
in_event n (CoordinatorEvent.completion c) = in_outcome (λ out. in_operation n out.0) c.outcome
in_event n (CoordinatorEvent.maintenance m) = one_if n m.sender
in_event n (CoordinatorEvent.maintenance_completion c) =
    in_outcome (λ out. one_if n out.0) c.outcome
in_event n (CoordinatorEvent.flush to) = one_if n to
in_event n (CoordinatorEvent.close to) = one_if n to

-- How often the channel was answered.
abbrev pub answered : ℕ → Scheduler → ℕ
answered n s = sum_of (in_reply n) s.replies

-- How many hold its sending end: queued operations, pending events, jobs, and events in the channel.
abbrev pub owed : ℕ → Scheduler → ℕ
owed n s =
    sum_of (in_entry n) s.queues
    + (sum_of (in_pending n) s.pending
        + (sum_of (in_job n) s.pool.jobs + sum_of (in_event n) s.channel))

abbrev pub total : ℕ → Scheduler → ℕ
total n s = answered n s + owed n s

-- Of the operations of a key that run: the jobs, and the completions that were not yet handled.
abbrev pub runs_key : ℕ → WorkerJob → ℕ
runs_key k (operation_job j op) = one_if k j
runs_key k (maintenance_job m) = 0

abbrev pub completes_key : ℕ → CoordinatorEvent → ℕ
completes_key k (CoordinatorEvent.completion c) = one_if k c.key_hash
completes_key k e = 0

abbrev pub runs_maintenance : WorkerJob → ℕ
runs_maintenance (operation_job j op) = 0
runs_maintenance (maintenance_job m) = 1

abbrev pub completes_maintenance : CoordinatorEvent → ℕ
completes_maintenance (CoordinatorEvent.maintenance_completion c) = 1
completes_maintenance e = 0

abbrev pub in_flight : ℕ → Scheduler → ℕ
in_flight k s = sum_of (runs_key k) s.pool.jobs + sum_of (completes_key k) s.channel

abbrev pub maintenance_in_flight : Scheduler → ℕ
maintenance_in_flight s =
    sum_of runs_maintenance s.pool.jobs + sum_of completes_maintenance s.channel

abbrev pub flag : Bool → ℕ
flag b = if b then 1 else 0

-- What `active` and `maintenance_active` say is what is in flight.
abbrev pub Tallied : Scheduler → Type 0
Tallied s =
    ((k : ℕ) → sum_of (one_if k) s.active ≡ in_flight k s)
    × (flag s.maintenance_active ≡ maintenance_in_flight s)
