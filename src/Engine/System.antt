-- ===== src/Engine/System.antt =====
-- src/engine/scheduler.rs, with workers.rs and mod.rs: the coordinator with its clients and workers.
pub mod Jobs
pub mod Steps
pub mod Answers
pub mod Work
pub mod Settles
pub mod Ordered
use atomic_blob_storage.Base.{ℕ, ◌≡◌, false, List, [], ◌∷◌, ◌++◌, Option, none, some, Bool}
use atomic_blob_storage.Error.{CleanupReport, ok, Outcome}
use atomic_blob_storage.Engine.Operation.{Operation, Backend, sender, run_owned_operation}
use atomic_blob_storage.Engine.Event.{
  Completion, MaintenanceSubmission, MaintenanceCompletion, CoordinatorEvent, completion,
  maintenance_completion,
}
use atomic_blob_storage.Engine.Workers.{WorkerJob, operation_job, maintenance_job, new_pool}
use atomic_blob_storage.Engine.Queues.{Queues}
use atomic_blob_storage.Engine.Scheduler.Defs.{Scheduler, initial, send}
use atomic_blob_storage.Engine.Scheduler.Handle.{round, disconnected}

-- The storage over its state `W`: the operations of a key, and the cleanup with a minimum age.
pub record Storage (W : Type 0) : Type 0 where
  pub backend : ℕ → Backend W
  pub cleanup_stale_files : ℕ → W → Outcome CleanupReport × W

abbrev pub no_report : CleanupReport
no_report = record { removed = []; skipped = []; failures = [] }

module _ {W : Type 0} (storage : Storage W) where
  abbrev pub clean : MaintenanceSubmission → Option ℕ → W → Outcome CleanupReport × W
  clean m none w = (ok no_report, w)
  clean m (some age) w = storage.cleanup_stale_files age w

  -- The closures that are sent to the workers: the event that they send back; `none` is a panic.
  unfoldable pub run_job : WorkerJob → W → Option (CoordinatorEvent × W)
  run_job (operation_job k op) w = elim (run_owned_operation (storage.backend k) op w) [
    | none ↦ none
    | some (out, w') ↦ some (completion (record { key_hash = k; outcome = some out }), w')
  ]
  run_job (maintenance_job m) w =
      let (result, w') = clean m m.minimum_age w in
      some (maintenance_completion (record { outcome = some (m.sender, result) }), w')

-- A panic in the job is caught, and the event has no outcome: the sending end is dropped.
unfoldable pub caught : WorkerJob → CoordinatorEvent
caught (operation_job k op) = completion (record { key_hash = k; outcome = none })
caught (maintenance_job m) = maintenance_completion (record { outcome = none })

abbrev pub job_sender : WorkerJob → ℕ
job_sender (operation_job k op) = sender op
job_sender (maintenance_job m) = m.sender

-- The channel on which a client's event is to be answered.
abbrev pub requester : CoordinatorEvent → Option ℕ
requester (CoordinatorEvent.submission sub) = some (sender sub.operation)
requester (CoordinatorEvent.completion c) = none
requester (CoordinatorEvent.maintenance m) = some m.sender
requester (CoordinatorEvent.maintenance_completion c) = none
requester (CoordinatorEvent.flush to) = some to
requester (CoordinatorEvent.close to) = some to

-- The operation that a job begins.
abbrev pub begins : WorkerJob → List (ℕ × Operation)
begins (operation_job k op) = (k, op) ∷ []
begins (maintenance_job m) = []

-- `asked` are the channels of all requests, `dropped` those whose job has panicked; `ran` are the
-- operations that workers have run, the latest last.
pub record System (W : Type 0) : Type 0 where
  pub scheduler : Scheduler
  pub world : W
  pub asked : List ℕ
  pub dropped : List ℕ
  pub ran : List (ℕ × Operation)

abbrev pub without_job : List WorkerJob → CoordinatorEvent → Scheduler → Scheduler
without_job jobs e s = send e (record s { pool = record s.pool { jobs = jobs } })

-- A client sends a request while the coordinator has its receiver; the coordinator handles an event; a
-- worker runs any of the jobs to its end, or the job panics and leaves the storage in some state; all
-- handles are gone, and no job holds a clone of the sender.
pub data Runs {W : Type 0} (storage : Storage W) (iter : Queues → Queues) (maximum : ℕ)
    : System W → Type 0 where
  opened :
      (spawns : List (Option Bool)) (w : W)
      → Runs storage iter maximum (record {
        scheduler = initial (new_pool maximum spawns);
        world = w;
        asked = [];
        dropped = [];
        ran = [];
      })
  requested :
      (y : System W) (e : CoordinatorEvent) (to : ℕ)
      → Runs storage iter maximum y
      → y.scheduler.stopped ≡ false
      → requester e ≡ some to
      → Runs storage iter maximum
          (record y { scheduler = send e y.scheduler; asked = to ∷ y.asked })
  handled :
      (y : System W)
      → Runs storage iter maximum y
      → Runs storage iter maximum (record y { scheduler = round iter maximum y.scheduler })
  worked :
      (y : System W) (before after : List WorkerJob) (job : WorkerJob) (e : CoordinatorEvent)
      (w : W)
      → Runs storage iter maximum y
      → y.scheduler.pool.jobs ≡ before ++ (job ∷ after)
      → run_job storage job y.world ≡ some (e, w)
      → Runs storage iter maximum (record y {
        scheduler = without_job (before ++ after) e y.scheduler;
        world = w;
        ran = y.ran ++ begins job;
      })
  crashed :
      (y : System W) (before after : List WorkerJob) (job : WorkerJob) (w : W)
      → Runs storage iter maximum y
      → y.scheduler.pool.jobs ≡ before ++ (job ∷ after)
      → Runs storage iter maximum (record y {
        scheduler = without_job (before ++ after) (caught job) y.scheduler;
        world = w;
        dropped = job_sender job ∷ y.dropped;
        ran = y.ran ++ begins job;
      })
  abandoned :
      (y : System W)
      → Runs storage iter maximum y
      → y.scheduler.stopped ≡ false
      → y.scheduler.channel ≡ []
      → y.scheduler.pool.jobs ≡ []
      → Runs storage iter maximum (record y { scheduler = disconnected y.scheduler })
