-- ===== src/Engine/System/Jobs.antt =====
-- src/engine/scheduler.rs: what a worker's job hands back.
use atomic_blob_storage.Base.{
  ℕ, ◌≡◌, ◌≢◌, refl, ap, subst, inl, inr, none, some, arith, Option-cases,
}
use atomic_blob_storage.Engine.Operation.{
  Operation, BlockingResult, Backend, sender, deliver, run_owned_operation,
}
use atomic_blob_storage.Engine.Event.{CoordinatorEvent}
use atomic_blob_storage.Engine.Workers.{WorkerJob, operation_job, maintenance_job}
use atomic_blob_storage.Engine.Scheduler.Fifo.{IsDeliverable}
use atomic_blob_storage.Engine.Ledger.{
  one_if, in_job, in_event, runs_key, completes_key, runs_maintenance, completes_maintenance,
}
use atomic_blob_storage.Engine.System.{Storage, clean, run_job, caught}

-- The event that a job sends back stands for the same key or for the maintenance, and
-- can be delivered.
pub record Returns (job : WorkerJob) (e : CoordinatorEvent) : Type 0 where
  pub same_key : (k : ℕ) → completes_key k e ≡ runs_key k job
  pub same_maintenance : completes_maintenance e ≡ runs_maintenance job
  pub deliverable : IsDeliverable e

run_owned_operation-kind :
    {W : Type 0} (fs : Backend W) (op op' : Operation) (result : BlockingResult) (w w' : W)
    → run_owned_operation fs op w ≡ some ((op', result), w')
    → (deliver op' result ≢ none) × (sender op' ≡ sender op)
unfolding run_owned_operation deliver
run_owned_operation-kind fs op op' result w w' h = ground arith

pub run_job-Returns :
    {W : Type 0} (storage : Storage W) (job : WorkerJob) (e : CoordinatorEvent) (w w' : W)
    → run_job storage job w ≡ some (e, w')
    → Returns job e × ((n : ℕ) → in_event n e ≡ in_job n job)
unfolding run_job
run_job-Returns storage (operation_job k op) e w w' h =
    elim (Option-cases (run_owned_operation (storage.backend k) op w)) [
      | inl none_due ↦ absurd (ground arith)
      | inr (((op', result), w1), due) ↦
          let same : CoordinatorEvent.completion
                (record { key_hash = k; outcome = some (op', result) })
              ≡ e =
            ground arith in
          let (kind, to) = run_owned_operation-kind (storage.backend k) op op' result w w1 due in
          subst
            (λ x.
              Returns (operation_job k op) x
              × ((n : ℕ) → in_event n x ≡ in_job n (operation_job k op)))
            same
            (
              record { same_key = λ j. refl; same_maintenance = refl; deliverable = kind },
              (λ n. ap (one_if n) to),
            )
    ]
run_job-Returns storage (maintenance_job m) e w w' h =
    let result = (clean storage m m.minimum_age w).0 in
    let same : CoordinatorEvent.maintenance_completion
          (record { outcome = some (m.sender, result) })
        ≡ e =
      ground arith in
    subst
      (λ x. Returns (maintenance_job m) x × ((n : ℕ) → in_event n x ≡ in_job n (maintenance_job m)))
      same (record { same_key = λ j. refl; same_maintenance = refl; deliverable = tt }, (λ n. refl))

pub caught-Returns :
    (job : WorkerJob) → Returns job (caught job) × ((n : ℕ) → in_event n (caught job) ≡ 0)
unfolding caught
caught-Returns (operation_job k op) =
    (record { same_key = λ j. refl; same_maintenance = refl; deliverable = tt }, (λ n. refl))
caught-Returns (maintenance_job m) =
    (record { same_key = λ j. refl; same_maintenance = refl; deliverable = tt }, (λ n. refl))
