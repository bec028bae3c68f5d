-- ===== src/Engine/System/Work.antt =====
-- src/engine/scheduler.rs: the work that is left, which each event that is handled and each job that is
-- run makes less.
pub mod Handled
use atomic_blob_storage.Base.{
  ℕ, ◌+◌, ◌≤◌, ◌≡◌, refl, ap, subst, inl, inr, true, false, not, ◌||◌, List, [], ◌∷◌, ◌++◌, length,
  is_empty, Option, none, some, arith, Option-cases, if_cases, if◌then◌else◌,
}
use atomic_blob_storage.Error.{store_closed, CleanupReport, err, Outcome}
use atomic_blob_storage.Engine.Operation.{Operation, BlockingResult, Reply, deliver, cleaned}
use atomic_blob_storage.Engine.Event.{
  Lifecycle, open_store, closing, closed, shutdown_failed, failed, Submission, Completion,
  MaintenanceSubmission, CoordinatorEvent, PendingEvent, maintenance_completion, completion,
}
use atomic_blob_storage.Engine.Workers.{
  WorkerJob, operation_job, maintenance_job, prepare, execute, shutdown,
}
use atomic_blob_storage.Engine.Queues.{
  Queues, push_back, front, pop_front, remove, remove_if_empty, contains, remove_key,
}
use atomic_blob_storage.Engine.Scheduler.Defs.{Scheduler, answer, done_with, is_open}
use atomic_blob_storage.Engine.Scheduler.Dispatch.{
  launch, start, dispatch_if_idle, dispatch_available, dispatch_maintenance, advance,
  advance_pending_if_ready,
}
use atomic_blob_storage.Engine.Scheduler.Handle.{
  behind_closes, shut_down, check_shutdown, panicked, push_pending, delivered, cleanup_reply,
  close_in, on_submission, refill, on_completion, on_maintenance, on_maintenance_completion,
  on_flush, on_close, handle, receive, round,
}
use atomic_blob_storage.Engine.Scheduler.Cases.{
  dispatch_if_idle_cases, dispatch_rounds_keeps, advance_cases,
}
use atomic_blob_storage.Engine.Ledger.{sum_of, sum_of-append}
use atomic_blob_storage.Engine.Ledger.Dispatched.{prepare_rest, start_ends}

-- What is still to be done about an event, a pending event, a queued operation and a job.
abbrev pub event_work : CoordinatorEvent → ℕ
event_work (CoordinatorEvent.submission sub) = 5
event_work (CoordinatorEvent.completion c) = 1
event_work (CoordinatorEvent.maintenance m) = 5
event_work (CoordinatorEvent.maintenance_completion c) = 1
event_work (CoordinatorEvent.flush to) = 5
event_work (CoordinatorEvent.close to) = 5

abbrev pub pending_work : PendingEvent → ℕ
pending_work p = 4

abbrev pub entry_work : ℕ × List Operation → ℕ
entry_work entry = sum_of (λ op. 3) entry.1

abbrev pub job_work : WorkerJob → ℕ
job_work job = 2

abbrev pub work : Scheduler → ℕ
work s =
    sum_of entry_work s.queues
    + (sum_of pending_work s.pending + (sum_of job_work s.pool.jobs + sum_of event_work s.channel))

abbrev pub Within : ℕ → Scheduler → Type 0
Within c s = work s ≤ c

pub push_back-work :
    (k : ℕ) (op : Operation) (m : Queues)
    → sum_of entry_work (push_back k op m) ≡ sum_of entry_work m + 3
unfolding push_back
push_back-work k op [] = ground arith
push_back-work k op ((j, q) ∷ m) =
    ground (arith, push_back-work k op m, sum_of-append (λ op'. 3) q (op ∷ []))

pop_front-work :
    (k : ℕ) (op : Operation) (m : Queues)
    → front k m ≡ some op
    → sum_of entry_work (pop_front k m) + 3 ≡ sum_of entry_work m
unfolding front pop_front
pop_front-work k op [] h = absurd (ground arith)
pop_front-work k op ((j, []) ∷ m) h = ground (arith, pop_front-work k op m)
pop_front-work k op ((j, o ∷ q) ∷ m) h = ground (arith, pop_front-work k op m)

remove-work : (k : ℕ) (m : Queues) → sum_of entry_work (remove k m) ≤ sum_of entry_work m
unfolding remove
remove-work k [] = omega arith
remove-work k ((j, q) ∷ m) = ground (arith, remove-work k m)

pub remove_if_empty-work :
    (k : ℕ) (m : Queues) → sum_of entry_work (remove_if_empty k m) ≤ sum_of entry_work m
unfolding remove_if_empty
remove_if_empty-work k m = ground (arith, remove-work k m)

launch-work : (k : ℕ) (op : Operation) (s : Scheduler) → work (launch k op s) ≤ work s + 2
unfolding launch execute
launch-work k op s = ground (
  arith,
  sum_of-append job_work s.pool.jobs (operation_job k op ∷ []),
  sum_of-append event_work s.channel (completion (record { key_hash = k; outcome = none }) ∷ []),
)

start-work : (k : ℕ) (op : Operation) (s : Scheduler) → work (start k op s) ≤ work s + 2
start-work k op s =
    let p' = (prepare (length s.active + 1) s.pool).1 in
    let s' = record s { pool = p'; started = s.started ++ ((k, op) ∷ []) } in
    let same = ap (sum_of job_work) (prepare_rest (length s.active + 1) s.pool).0 in
    elim (start_ends k op s) [
      | inl e ↦ rw e (omega (arith, launch-work k op s', same))
      | inr (error, e) ↦ rw e (omega (arith, remove_if_empty-work k s.queues, same))
    ]

pub dispatch_if_idle-Within :
    (c maximum k : ℕ) (s : Scheduler) → Within c s → Within c (dispatch_if_idle maximum k s)
dispatch_if_idle-Within c maximum k s h =
    dispatch_if_idle_cases (Within c) maximum k s (λ why. h)
      (λ op idle free e. omega (
        arith,
        start-work k op (record s { queues = pop_front k s.queues }),
        pop_front-work k op s.queues e,
      ))

pub dispatch_available-Within :
    (c : ℕ) (iter : Queues → Queues) (maximum : ℕ) (s : Scheduler)
    → Within c s
    → Within c (dispatch_available iter maximum s)
unfolding dispatch_available
dispatch_available-Within c iter maximum s h =
    dispatch_rounds_keeps (Within c) iter maximum _ s (λ k t. dispatch_if_idle-Within c maximum k t)
      h

dispatch_maintenance-work :
    (m : MaintenanceSubmission) (s : Scheduler) → work (dispatch_maintenance m s) ≤ work s + 2
unfolding dispatch_maintenance execute
dispatch_maintenance-work m s = ground (
  arith,
  prepare_rest 1 s.pool,
  sum_of-append job_work s.pool.jobs (maintenance_job m ∷ []),
  sum_of-append event_work s.channel (maintenance_completion (record { outcome = none }) ∷ []),
)

advance_pending_if_ready-Within :
    (c maximum : ℕ) (s : Scheduler) → Within c s → Within c (advance_pending_if_ready maximum s)
unfolding advance_pending_if_ready
advance_pending_if_ready-Within c maximum s h =
    if_cases (Within c) s.maintenance_active s (advance maximum s.pending s) (λ on. h)
      (λ off.
        advance_cases (Within c) (Within c) maximum (λ t k. k)
          (λ t m rest k e idle. omega (
            arith,
            dispatch_maintenance-work m (record t { pending = rest; maintenance_active = true }),
            ap (sum_of pending_work) e,
          ))
          (λ t sub rest k e. dispatch_if_idle-Within c maximum sub.key_hash _ (
            omega (
              arith,
              push_back-work sub.key_hash sub.operation t.queues,
              ap (sum_of pending_work) e,
            )))
          (λ t to rest k e idle. omega (arith, ap (sum_of pending_work) e)) s.pending s refl h)

behind_closes-work :
    (l : List PendingEvent) → sum_of pending_work (behind_closes l) ≤ sum_of pending_work l
behind_closes-work [] = omega arith
behind_closes-work (PendingEvent.close to ∷ l) = omega (arith, behind_closes-work l)
behind_closes-work (PendingEvent.submission sub ∷ l) = omega arith
behind_closes-work (PendingEvent.maintenance m ∷ l) = omega arith
behind_closes-work (PendingEvent.flush to ∷ l) = omega arith

pub check_shutdown-Within : (c : ℕ) (s : Scheduler) → Within c s → Within c (check_shutdown s)
unfolding check_shutdown shut_down shutdown
check_shutdown-Within c s h = ground (arith, behind_closes-work s.pending)

pub settle-Within :
    (c maximum : ℕ) (s : Scheduler)
    → Within c s
    → Within c (check_shutdown (advance_pending_if_ready maximum s))
settle-Within c maximum s h =
    check_shutdown-Within c _ (advance_pending_if_ready-Within c maximum s h)
