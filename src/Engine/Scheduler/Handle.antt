-- ===== src/Engine/Scheduler/Handle.antt =====
-- src/engine/scheduler.rs: run_scheduler's match on an event, the shutdown, and the end by panic;
-- src/engine/mod.rs, lines 262-283, for what a panic does.
use atomic_blob_storage.Base.{
  ℕ, true, false, not, ◌&&◌, ◌||◌, List, [], ◌∷◌, ◌++◌, Option, none, some, is_empty, if◌then◌else◌,
}
use atomic_blob_storage.Error.{
  CleanupReport, store_closed, shutdown_failure, engine_failed, ok, err, Outcome,
}
use atomic_blob_storage.Engine.Operation.{
  Operation, BlockingResult, Reply, done, cleaned, deliver, deliver_error,
}
use atomic_blob_storage.Engine.Event.{
  Lifecycle, open_store, closing, closed, shutdown_failed, failed, Submission, Completion,
  MaintenanceSubmission, MaintenanceCompletion, CoordinatorEvent, PendingEvent,
}
use atomic_blob_storage.Engine.Workers.{shutdown}
use atomic_blob_storage.Engine.Queues.{Queues, push_back, contains, remove_key, remove_if_empty}
use atomic_blob_storage.Engine.Scheduler.Defs.{
  Scheduler, answer, done_with, busy, is_open, front_is_close,
}
use atomic_blob_storage.Engine.Scheduler.Dispatch.{
  dispatch_if_idle, dispatch_available, advance_pending_if_ready,
}

-- `fail_queued_after_coordinator_panic`: the reply that each waiting event gets, if any.
unfoldable pub failure_reply : CoordinatorEvent → List (ℕ × Reply)
failure_reply (CoordinatorEvent.submission sub) = deliver_error sub.operation engine_failed ∷ []
failure_reply (CoordinatorEvent.maintenance m) = (m.sender, cleaned (err engine_failed)) ∷ []
failure_reply (CoordinatorEvent.maintenance_completion c) = elim c.outcome [
  | none ↦ []
  | some (to, result) ↦ (to, cleaned (err engine_failed)) ∷ []
]
failure_reply (CoordinatorEvent.flush to) = (to, done (err engine_failed)) ∷ []
failure_reply (CoordinatorEvent.close to) = (to, done (err shutdown_failure)) ∷ []
failure_reply (CoordinatorEvent.completion c) = elim c.outcome [
  | none ↦ []
  | some (op, result) ↦ deliver_error op engine_failed ∷ []
]

abbrev pub replies_to :
    (CoordinatorEvent → List (ℕ × Reply)) → List CoordinatorEvent → List (ℕ × Reply)
replies_to f [] = []
replies_to f (e ∷ es) = f e ++ replies_to f es

-- The coordinator's thread has panicked.
unfoldable pub panicked : Scheduler → Scheduler
panicked s = record s {
  pool = (shutdown s.pool).1;
  lifecycle = failed;
  replies = s.replies ++ replies_to failure_reply s.channel;
  channel = [];
  queues = [];
  active = [];
  pending = [];
  maintenance_active = false;
  stopped = true;
}

-- What a waiting event is answered once the workers are gone.
unfoldable pub closing_reply : Outcome (Unit {0}) → CoordinatorEvent → List (ℕ × Reply)
closing_reply result (CoordinatorEvent.close to) = done_with to result ∷ []
closing_reply result (CoordinatorEvent.submission sub) =
    deliver_error sub.operation store_closed ∷ []
closing_reply result (CoordinatorEvent.maintenance m) = (m.sender, cleaned (err store_closed)) ∷ []
closing_reply result (CoordinatorEvent.flush to) = done_with to (err store_closed) ∷ []
closing_reply result (CoordinatorEvent.completion c) = []
closing_reply result (CoordinatorEvent.maintenance_completion c) = []

-- `while pending.front() is a close`: the replies to those closes, and what stands behind them.
abbrev pub close_replies : Outcome (Unit {0}) → List PendingEvent → List (ℕ × Reply)
close_replies result [] = []
close_replies result (PendingEvent.close to ∷ rest) =
    done_with to result ∷ close_replies result rest
close_replies result (p ∷ rest) = []

abbrev pub behind_closes : List PendingEvent → List PendingEvent
behind_closes [] = []
behind_closes (PendingEvent.close to ∷ rest) = behind_closes rest
behind_closes (PendingEvent.submission sub ∷ rest) = PendingEvent.submission sub ∷ rest
behind_closes (PendingEvent.maintenance m ∷ rest) = PendingEvent.maintenance m ∷ rest
behind_closes (PendingEvent.flush to ∷ rest) = PendingEvent.flush to ∷ rest

-- `if outcome.is_ok() { Ok(()) } else { Err(ShutdownFailure) }`
abbrev pub shutdown_result : Outcome (Unit {0}) → Outcome (Unit {0})
shutdown_result (ok u) = ok tt
shutdown_result (err e) = err shutdown_failure

abbrev pub shutdown_lifecycle : Outcome (Unit {0}) → Lifecycle
shutdown_lifecycle (ok u) = closed
shutdown_lifecycle (err e) = shutdown_failed

unfoldable pub shut_down : Scheduler → Scheduler
shut_down s =
    let (outcome, pool') = shutdown s.pool in
    let result = shutdown_result outcome in
    record s {
      pool = pool';
      lifecycle = shutdown_lifecycle outcome;
      replies =
          (s.replies ++ close_replies result s.pending)
          ++ replies_to (closing_reply result) s.channel;
      pending = behind_closes s.pending;
      channel = [];
      stopped = true;
    }

-- The end of each round that did not `continue`.
unfoldable pub check_shutdown : Scheduler → Scheduler
check_shutdown s =
    if front_is_close s.pending && (not (busy s) && not s.maintenance_active)
    then shut_down s
    else s

abbrev pub push_pending : PendingEvent → Scheduler → Scheduler
push_pending e s = record s { pending = s.pending ++ (e ∷ []) }

-- The reply to an operation that has run; `none` is the panic of `deliver`.
abbrev pub delivered : Option (Operation × BlockingResult) → Scheduler → Option Scheduler
delivered none s = some s
delivered (some (op, result)) s = elim (deliver op result) [
  | none ↦ none
  | some r ↦ some (answer r s)
]

abbrev pub cleanup_reply : Option (ℕ × Outcome CleanupReport) → Scheduler → Scheduler
cleanup_reply none s = s
cleanup_reply (some (to, result)) s = answer (to, cleaned result) s

-- What the lifecycle makes of a close.
abbrev pub close_in : ℕ → Lifecycle → Scheduler → Scheduler
close_in to open_store s = push_pending (PendingEvent.close to) (record s { lifecycle = closing })
close_in to closing s = push_pending (PendingEvent.close to) s
close_in to closed s = answer (done_with to (ok tt)) s
close_in to shutdown_failed s = answer (done_with to (err shutdown_failure)) s
close_in to failed s = answer (done_with to (err shutdown_failure)) s

module _ (iter : Queues → Queues) (maximum : ℕ) where
  unfoldable pub on_submission : Submission → Scheduler → Scheduler
  on_submission sub s =
      if not (is_open s.lifecycle)
      then answer (deliver_error sub.operation store_closed) s
      else if s.maintenance_active || not (is_empty s.pending)
      then push_pending (PendingEvent.submission sub) s
      else check_shutdown (
          dispatch_available iter maximum (
            dispatch_if_idle maximum sub.key_hash
              (record s { queues = push_back sub.key_hash sub.operation s.queues })))

  -- The slot is free again, and other work takes it before the reply is delivered.
  unfoldable pub refill : Completion → Scheduler → Scheduler
  refill c s =
      let s' = dispatch_available iter maximum (
        dispatch_if_idle maximum c.key_hash
          (record s { active = remove_key c.key_hash s.active })) in
      if contains c.key_hash s'.active
      then s'
      else record s' { queues = remove_if_empty c.key_hash s'.queues }

  unfoldable pub on_completion : Completion → Scheduler → Scheduler
  on_completion c s = elim (delivered c.outcome (refill c s)) [
    | none ↦ panicked (refill c s)
    | some s' ↦ check_shutdown (advance_pending_if_ready maximum s')
  ]

  unfoldable pub on_maintenance : MaintenanceSubmission → Scheduler → Scheduler
  on_maintenance m s =
      if not (is_open s.lifecycle)
      then answer (m.sender, cleaned (err store_closed)) s
      else check_shutdown
          (advance_pending_if_ready maximum (push_pending (PendingEvent.maintenance m) s))

  unfoldable pub on_maintenance_completion : MaintenanceCompletion → Scheduler → Scheduler
  on_maintenance_completion c s = check_shutdown (
      advance_pending_if_ready maximum
        (cleanup_reply c.outcome (record s { maintenance_active = false })))

  unfoldable pub on_flush : ℕ → Scheduler → Scheduler
  on_flush to s =
      if not (is_open s.lifecycle)
      then answer (done_with to (err store_closed)) s
      else check_shutdown
          (advance_pending_if_ready maximum (push_pending (PendingEvent.flush to) s))

  unfoldable pub on_close : ℕ → Scheduler → Scheduler
  on_close to s = check_shutdown (advance_pending_if_ready maximum (close_in to s.lifecycle s))

  -- One round of the loop, on the event that was received.
  unfoldable pub handle : CoordinatorEvent → Scheduler → Scheduler
  handle (CoordinatorEvent.submission sub) s = on_submission sub s
  handle (CoordinatorEvent.completion c) s = on_completion c s
  handle (CoordinatorEvent.maintenance m) s = on_maintenance m s
  handle (CoordinatorEvent.maintenance_completion c) s = on_maintenance_completion c s
  handle (CoordinatorEvent.flush to) s = on_flush to s
  handle (CoordinatorEvent.close to) s = on_close to s

  abbrev pub receive : List CoordinatorEvent → Scheduler → Scheduler
  receive [] s = s
  receive (e ∷ rest) s = handle e (record s { channel = rest })

  -- `receiver.recv()` and one round; nothing happens while no event waits, or after the end.
  unfoldable pub round : Scheduler → Scheduler
  round s = if s.stopped then s else receive s.channel s

-- The end of the loop when no handle and no clone of the sender is left.
unfoldable pub disconnected : Scheduler → Scheduler
disconnected s = record s { pool = (shutdown s.pool).1; lifecycle = closed; stopped = true }
