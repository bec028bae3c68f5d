-- ===== src/Tests/System.antt =====
-- Runs of the coordinator with its clients and workers.
use atomic_blob_storage.Base.{
  ℕ, ◌+◌, ◌≤◌, length, ◌≡◌, refl, true, List, [], ◌∷◌, ◌++◌, none, some, arith,
}
use atomic_blob_storage.Error.{BlobState, ok}
use atomic_blob_storage.Engine.Operation.{Operation, BlockingResult, Backend, run_owned_operation}
use atomic_blob_storage.Engine.Event.{CoordinatorEvent}
use atomic_blob_storage.Engine.Workers.{
  WorkerJob, operation_job, new_pool, start_workers, prepare, execute,
}
use atomic_blob_storage.Engine.Queues.{
  push_back, front, pop_front, remove, remove_if_empty, remove_key, find_ready,
}
use atomic_blob_storage.Engine.Scheduler.Defs.{Scheduler, initial, send}
use atomic_blob_storage.Engine.Scheduler.Dispatch.{
  launch, start, dispatch_if_idle, dispatch_rounds, dispatch_available, advance,
  advance_pending_if_ready,
}
use atomic_blob_storage.Engine.Scheduler.Handle.{
  check_shutdown, on_submission, refill, on_completion, handle, round,
}
use atomic_blob_storage.Engine.Operation.{deliver}
use atomic_blob_storage.Engine.Ledger.{answered, owed}
use atomic_blob_storage.Engine.System.{
  Storage, System, Runs, requested, worked, run_job, without_job, no_report,
}
use atomic_blob_storage.Engine.System.Work.{work}
use atomic_blob_storage.Engine.System.Settles.{ComesToRest, rests, works, Runs-settles}
use atomic_blob_storage.Engine.Scheduler.History.{history}
use atomic_blob_storage.Engine.System.Ordered.{Sublist, jobs_of}
use atomic_blob_storage.Engine.System.Ordered.Run.{Runs-Sublist}
use atomic_blob_storage.Engine.System.Answers.{Runs-answers, Runs-quiescent}
use atomic_blob_storage.Tests.Coordinator.{in_order, in_order-IsHashOrder, fresh, first}
use atomic_blob_storage.Tests.Samples.{abc}

-- Every key is free, and nothing changes.
abbrev idle : Backend (Unit {0})
idle = record {
  load_blob = λ w. (ok none, w);
  load_blob_into_sender = λ c a w. (ok none, w);
  save_blob = λ payload w. (ok tt, w);
  save_blob_from_receiver = λ declared c w. (ok tt, w);
  clear_blob = λ w. (ok tt, w);
  inspect_blob = λ w. (ok (record { state = BlobState.absent; size = none; modified = none }), w);
  quarantine_blob = λ w. (ok (record { identifier = []; diagnostic_path = [] }), w);
}

abbrev storage : Storage (Unit {0})
storage = record { backend = λ k. idle; cleanup_stale_files = λ age w. (ok no_report, w) }

abbrev system : Scheduler → List ℕ → List (ℕ × Operation) → System (Unit {0})
system s asked ran = record { scheduler = s; world = tt; asked = asked; dropped = []; ran = ran }

-- The first submission is handled.
abbrev begun : Scheduler
begun = round in_order 1 (send first fresh)

abbrev save_job : WorkerJob
save_job = operation_job 7 (Operation.save abc 0)

begun_jobs : begun.pool.jobs ≡ [] ++ (save_job ∷ [])
unfolding round handle on_submission check_shutdown dispatch_available dispatch_rounds
    dispatch_if_idle start launch execute prepare start_workers push_back pop_front front find_ready
    initial new_pool remove_if_empty remove
begun_jobs = refl

-- Its job was run by a worker, and its completion handled.
abbrev ended : Scheduler
ended = round in_order 1 (
    without_job ([] ++ [])
      (CoordinatorEvent.completion (record {
        key_hash = 7;
        outcome = some (Operation.save abc 0, BlockingResult.save (ok tt));
      }))
      begun)

abbrev ran_once : List (ℕ × Operation)
ran_once = (7, Operation.save abc 0) ∷ []

begun_runs : Runs storage in_order 1 (system begun (0 ∷ []) [])
unfolding initial
begun_runs = Runs.handled _ (requested _ first 0 (Runs.opened [] tt) refl refl)

abbrev saved : CoordinatorEvent
saved =
    CoordinatorEvent.completion
      (record { key_hash = 7; outcome = some (Operation.save abc 0, BlockingResult.save (ok tt)) })

save_ran : run_job storage save_job tt ≡ some (saved, tt)
unfolding run_job run_owned_operation
save_ran = refl

ended_runs : Runs storage in_order 1 (system ended (0 ∷ []) ran_once)
ended_runs =
    Runs.handled _
      (worked (system begun (0 ∷ []) []) [] [] save_job saved tt begun_runs begun_jobs save_ran)

ended_quiet : (ended.channel ≡ []) × (ended.pool.jobs ≡ [])
unfolding round handle on_submission on_completion refill deliver check_shutdown dispatch_available
    dispatch_rounds dispatch_if_idle start launch execute prepare start_workers push_back pop_front
    front find_ready initial new_pool remove_if_empty remove remove_key advance_pending_if_ready
    advance
ended_quiet = (refl, refl)

Runs-answers_example :
    (answered 0 ended + (owed 0 ended + 0) ≡ 1) × (ended.stopped ≡ true → answered 0 ended + 0 ≡ 1)
Runs-answers_example =
    Runs-answers in_order in_order-IsHashOrder 1 storage (omega arith)
      (system ended (0 ∷ []) ran_once) 0 ended_runs

Runs-quiescent_example : answered 0 ended + 0 ≡ 1
Runs-quiescent_example =
    Runs-quiescent in_order in_order-IsHashOrder 1 storage (omega arith)
      (system ended (0 ∷ []) ran_once) 0 ended_runs ended_quiet.0 ended_quiet.1

-- The worker has run the job, and its event waits.
abbrev waiting : System (Unit {0})
waiting = system (without_job ([] ++ []) saved begun) (0 ∷ []) ran_once

Runs-settles_example :
    (1 + work waiting.scheduler ≤ work begun)
    × ComesToRest storage in_order 1 in_order-IsHashOrder (omega arith) waiting
Runs-settles_example =
    Runs-settles storage in_order 1 in_order-IsHashOrder (omega arith) 1 (system begun (0 ∷ []) [])
      waiting begun_runs (works 0 _ _ [] [] save_job saved tt begun_jobs save_ran (rests _))

-- Of the key, the job has run, and none is left.
Runs-Sublist_example :
    Sublist (Operation.save abc 0 ∷ jobs_of 7 ended.pool.jobs) (history 7 ended)
    × (length (jobs_of 7 ended.pool.jobs) ≤ 1)
Runs-Sublist_example =
    Runs-Sublist in_order in_order-IsHashOrder 1 storage (omega arith) 7
      (system ended (0 ∷ []) ran_once) ended_runs
