-- ===== src/Engine/Workers.antt =====
-- src/engine/workers.rs: the pool of worker threads. The jobs sent on its channel are kept in order.
pub mod Laws
use atomic_blob_storage.Base.{
  ℕ, zero, suc, ◌+◌, ◌-◌, min, Bool, true, false, ◌||◌, List, [], ◌∷◌, ◌++◌, length, Option, none,
  some, if◌then◌else◌,
}
use atomic_blob_storage.Error.{
  StoreError, worker_unavailable, shutdown_failure, Result, ok, err, Outcome,
}
use atomic_blob_storage.Engine.Operation.{Operation}
use atomic_blob_storage.Engine.Event.{MaintenanceSubmission}

-- What a dispatched closure will run.
pub data WorkerJob : Type 0 where
  operation_job : ℕ → Operation → WorkerJob
  maintenance_job : MaintenanceSubmission → WorkerJob

pub record WorkerPool : Type 0 where
  -- the sending end is there until the shutdown
  pub sender_open : Bool
  pub jobs : List WorkerJob
  -- for each thread, whether joining it will report a panic
  pub handles : List Bool
  pub capacity : ℕ
  -- the coming attempts to start a thread: `none` fails; behind the list all succeed
  pub spawns : List (Option Bool)

unfoldable pub new_pool : ℕ → List (Option Bool) → WorkerPool
new_pool capacity spawns = record {
  sender_open = true;
  jobs = [];
  handles = [];
  capacity = capacity;
  spawns = spawns;
}

abbrev with_thread : WorkerPool → Bool → List (Option Bool) → WorkerPool
with_thread p panics rest = record p { handles = p.handles ++ (panics ∷ []); spawns = rest }

-- The loop of `prepare`, with the number of threads that are still missing.
unfoldable pub start_workers : ℕ → List (Option Bool) → WorkerPool → Outcome (Unit {0}) × WorkerPool
start_workers zero spawns p = (ok tt, p)
start_workers (suc n) [] p = start_workers n [] (with_thread p false [])
start_workers (suc n) (some panics ∷ rest) p = start_workers n rest (with_thread p panics rest)
start_workers (suc n) (none ∷ rest) p = (err worker_unavailable, record p { spawns = rest })

unfoldable pub prepare : ℕ → WorkerPool → Outcome (Unit {0}) × WorkerPool
unfolding start_workers
prepare required p = start_workers (min required p.capacity - length p.handles) p.spawns p

-- The pool owns a receiver too, so that only a missing sender makes this fail.
unfoldable pub execute : WorkerJob → WorkerPool → Outcome (Unit {0}) × WorkerPool
execute job p =
    if p.sender_open
    then (ok tt, record p { jobs = p.jobs ++ (job ∷ []) })
    else (err worker_unavailable, p)

abbrev any_panicked : List Bool → Bool
any_panicked [] = false
any_panicked (p ∷ ps) = p || any_panicked ps

unfoldable pub shutdown : WorkerPool → Outcome (Unit {0}) × WorkerPool
shutdown p =
    let p' = record p { sender_open = false; handles = [] } in
    if any_panicked p.handles then (err shutdown_failure, p') else (ok tt, p')
