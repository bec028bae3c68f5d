-- ===== src/Engine/Scheduler/History.antt =====
-- src/engine/scheduler.rs: the accepted operations of a key, and how the dispatching keeps them.
use atomic_blob_storage.Base.{
  ℕ, ◌≡◌, refl, ap, ◌∙◌, true, List, [], ◌∷◌, ◌++◌, some, ◌==◌, if◌then◌else◌, arith, append_assoc,
}
use atomic_blob_storage.Error.{ok}
use atomic_blob_storage.Engine.Operation.{Operation}
use atomic_blob_storage.Engine.Event.{Submission, PendingEvent, MaintenanceSubmission}
use atomic_blob_storage.Engine.Workers.{execute}
use atomic_blob_storage.Engine.Queues.{Queues, queue, rest_of, front, pop_front, push_back}
use atomic_blob_storage.Engine.Queues.Laws.{
  queue-push_back, queue-pop_front, queue-remove_if_empty, front-queue,
}
use atomic_blob_storage.Engine.Scheduler.Defs.{Scheduler, answer, done_with}
use atomic_blob_storage.Engine.Scheduler.Dispatch.{
  launch, start, dispatch_if_idle, dispatch_available, dispatch_maintenance, advance,
  advance_pending_if_ready,
}
use atomic_blob_storage.Engine.Scheduler.Cases.{
  dispatch_if_idle_rest, dispatch_if_idle_cases, dispatch_rounds_keeps,
}
use atomic_blob_storage.Engine.Scheduler.Handle.{behind_closes, shut_down, check_shutdown}

abbrev pub started_of : ℕ → List (ℕ × Operation) → List Operation
started_of k [] = []
started_of k ((j, op) ∷ l) = let rest = started_of k l in if j == k then op ∷ rest else rest

abbrev pub pending_of : ℕ → List PendingEvent → List Operation
pending_of k [] = []
pending_of k (PendingEvent.submission sub ∷ l) =
    let rest = pending_of k l in if sub.key_hash == k then sub.operation ∷ rest else rest
pending_of k (PendingEvent.maintenance m ∷ l) = pending_of k l
pending_of k (PendingEvent.flush to ∷ l) = pending_of k l
pending_of k (PendingEvent.close to ∷ l) = pending_of k l

-- Everything that was accepted for a key, oldest first: what was started, what is queued, and what
-- waits behind a barrier.
abbrev pub history : ℕ → Scheduler → List Operation
history k s = started_of k s.started ++ (queue k s.queues ++ pending_of k s.pending)

pub started_of-append :
    (k j : ℕ) (op : Operation) (l : List (ℕ × Operation))
    → started_of k (l ++ ((j, op) ∷ []))
      ≡ (if j == k then started_of k l ++ (op ∷ []) else started_of k l)
started_of-append k j op [] = ground arith
started_of-append k j op ((i, o) ∷ l) = ground (arith, started_of-append k j op l)

pub pending_of-append :
    (k : ℕ) (e : PendingEvent) (l : List PendingEvent)
    → pending_of k (l ++ (e ∷ [])) ≡ pending_of k l ++ pending_of k (e ∷ [])
pending_of-append k e [] = refl
pending_of-append k e (PendingEvent.submission sub ∷ l) = ground (arith, pending_of-append k e l)
pending_of-append k e (PendingEvent.maintenance m ∷ l) = pending_of-append k e l
pending_of-append k e (PendingEvent.flush to ∷ l) = pending_of-append k e l
pending_of-append k e (PendingEvent.close to ∷ l) = pending_of-append k e l

pending_of-behind_closes :
    (k : ℕ) (l : List PendingEvent) → pending_of k (behind_closes l) ≡ pending_of k l
pending_of-behind_closes k [] = refl
pending_of-behind_closes k (PendingEvent.submission sub ∷ l) = refl
pending_of-behind_closes k (PendingEvent.maintenance m ∷ l) = refl
pending_of-behind_closes k (PendingEvent.flush to ∷ l) = refl
pending_of-behind_closes k (PendingEvent.close to ∷ l) = pending_of-behind_closes k l

-- Taking an operation off its queue moves it from the queue to what was started.
history-start :
    (k j : ℕ) (op : Operation) (s : Scheduler)
    → front j s.queues ≡ some op
    → history k (start j op (record s { queues = pop_front j s.queues })) ≡ history k s
unfolding start launch execute
history-start k j op s h = ground (
  arith,
  started_of-append k j op s.started,
  queue-pop_front k j s.queues,
  queue-remove_if_empty k j (pop_front j s.queues),
  front-queue j s.queues op h,
  append_assoc (started_of k s.started) (op ∷ [])
      (rest_of (queue k s.queues) ++ pending_of k s.pending),
)

pub history-dispatch_if_idle :
    (k maximum j : ℕ) (s : Scheduler) → history k (dispatch_if_idle maximum j s) ≡ history k s
history-dispatch_if_idle k maximum j s =
    dispatch_if_idle_cases (λ t. history k t ≡ history k s) maximum j s (λ why. refl)
      (λ op idle free e. history-start k j op s e)

pub history-dispatch_available :
    (k : ℕ) (iter : Queues → Queues) (maximum : ℕ) (s : Scheduler)
    → history k (dispatch_available iter maximum s) ≡ history k s
unfolding dispatch_available
history-dispatch_available k iter maximum s =
    dispatch_rounds_keeps (λ t. history k t ≡ history k s) iter maximum _ s
      (λ j t h. history-dispatch_if_idle k maximum j t ∙ h) refl

history-dispatch_maintenance :
    (k : ℕ) (m : MaintenanceSubmission) (s : Scheduler)
    → history k (dispatch_maintenance m s) ≡ history k s
unfolding dispatch_maintenance
history-dispatch_maintenance k m s = ground arith

-- A submission moves from the front of the pending events to the back of its queue.
history-unpark :
    (k : ℕ) (sub : Submission) (rest : List PendingEvent) (s : Scheduler)
    → s.pending ≡ PendingEvent.submission sub ∷ rest
    → history k
        (record s { pending = rest; queues = push_back sub.key_hash sub.operation s.queues })
      ≡ history k s
history-unpark k sub rest s e = rw e (
    ground (
      arith,
      queue-push_back k sub.key_hash sub.operation s.queues,
      append_assoc (queue k s.queues) (sub.operation ∷ []) (pending_of k rest),
    ))

history-advance :
    (k maximum : ℕ) (l : List PendingEvent) (s : Scheduler)
    → s.pending ≡ l
    → history k (advance maximum l s) ≡ history k s
unfolding advance
history-advance k maximum [] s e = refl
history-advance k maximum (PendingEvent.maintenance m ∷ rest) s e = ground (
  arith,
  ap (pending_of k) e,
  history-dispatch_maintenance k m (record s { pending = rest; maintenance_active = true }),
)
history-advance k maximum (PendingEvent.submission sub ∷ rest) s e =
    let s' = record s { pending = rest; queues = push_back sub.key_hash sub.operation s.queues } in
    history-advance k maximum rest (dispatch_if_idle maximum sub.key_hash s')
      (dispatch_if_idle_rest maximum sub.key_hash s').0
    ∙ history-dispatch_if_idle k maximum sub.key_hash s'
    ∙ history-unpark k sub rest s e
history-advance k maximum (PendingEvent.flush to ∷ rest) s e = ground (
  arith,
  ap (pending_of k) e,
  history-advance k maximum rest (answer (done_with to (ok tt)) (record s { pending = rest })) refl,
)
history-advance k maximum (PendingEvent.close to ∷ rest) s e = refl

pub history-advance_pending_if_ready :
    (k maximum : ℕ) (s : Scheduler) → history k (advance_pending_if_ready maximum s) ≡ history k s
unfolding advance_pending_if_ready
history-advance_pending_if_ready k maximum s =
    ground (arith, history-advance k maximum s.pending s refl)

pub history-check_shutdown : (k : ℕ) (s : Scheduler) → history k (check_shutdown s) ≡ history k s
unfolding check_shutdown shut_down
history-check_shutdown k s = ground (arith, pending_of-behind_closes k s.pending)
