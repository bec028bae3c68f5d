-- ===== src/Engine/Scheduler/Fifo.antt =====
-- src/engine/scheduler.rs: the operations of one key keep their order, and none is lost or doubled.
use atomic_blob_storage.Base.{
  ℕ, ◌≡◌, ◌≢◌, refl, sym, ◌∙◌, inl, inr, true, false, ◌&&◌, List, [], ◌∷◌, ◌++◌, Option, none, some,
  ◌==◌, is_empty, if◌then◌else◌, arith, append_assoc, append-nil, Option-cases,
}
use atomic_blob_storage.Engine.Operation.{Operation, BlockingResult, deliver}
use atomic_blob_storage.Engine.Event.{
  Submission, Completion, CoordinatorEvent, PendingEvent, closing,
}
use atomic_blob_storage.Engine.Queues.{Queues, queue, push_back, remove_key}
use atomic_blob_storage.Engine.Queues.Laws.{queue-push_back, queue-remove_if_empty}
use atomic_blob_storage.Engine.Scheduler.Defs.{Scheduler, answer, is_open}
use atomic_blob_storage.Engine.Scheduler.Dispatch.{
  dispatch_if_idle, dispatch_available, advance_pending_if_ready,
}
use atomic_blob_storage.Engine.Scheduler.Handle.{
  check_shutdown, delivered, on_submission, on_completion, refill, on_maintenance,
  on_maintenance_completion, on_flush, on_close, handle, push_pending, cleanup_reply, close_in,
}
use atomic_blob_storage.Engine.Scheduler.History.{
  started_of, pending_of, history, history-dispatch_if_idle, history-dispatch_available,
  history-advance_pending_if_ready, history-check_shutdown, pending_of-append,
}

-- What an event adds to a key's history: the operation of a submission that an open store accepts.
abbrev pub arrival : ℕ → Scheduler → CoordinatorEvent → List Operation
arrival k s (CoordinatorEvent.submission sub) =
    if is_open s.lifecycle && sub.key_hash == k then sub.operation ∷ [] else []
arrival k s (CoordinatorEvent.completion c) = []
arrival k s (CoordinatorEvent.maintenance m) = []
arrival k s (CoordinatorEvent.maintenance_completion c) = []
arrival k s (CoordinatorEvent.flush to) = []
arrival k s (CoordinatorEvent.close to) = []

-- A completion carries a result of its operation's kind, so that `deliver` does not panic.
abbrev pub MatchesKind : Option (Operation × BlockingResult) → Type 0
MatchesKind none = Unit {0}
MatchesKind (some (op, result)) = deliver op result ≢ none

abbrev pub IsDeliverable : CoordinatorEvent → Type 0
IsDeliverable (CoordinatorEvent.completion c) = MatchesKind c.outcome
IsDeliverable e = Unit {0}

history-delivered :
    (k : ℕ) (o : Option (Operation × BlockingResult)) (s : Scheduler)
    → MatchesKind o
    → (t : Scheduler) × (delivered o s ≡ some t) × (history k t ≡ history k s)
history-delivered k none s d = (s, refl, refl)
history-delivered k (some (op, result)) s d = elim (Option-cases (deliver op result)) [
  | inl e ↦ absurd (d e)
  | inr (r, e) ↦ (answer r s, rw (e, delivered), refl)
]

history-settle :
    (k maximum : ℕ) (s : Scheduler)
    → history k (check_shutdown (advance_pending_if_ready maximum s)) ≡ history k s
history-settle k maximum s =
    history-check_shutdown k (advance_pending_if_ready maximum s)
    ∙ history-advance_pending_if_ready k maximum s

history-push_pending :
    (k : ℕ) (e : PendingEvent) (s : Scheduler)
    → history k (push_pending e s) ≡ history k s ++ pending_of k (e ∷ [])
history-push_pending k e s = ground (
  arith,
  pending_of-append k e s.pending,
  append_assoc (queue k s.queues) (pending_of k s.pending) (pending_of k (e ∷ [])),
  append_assoc (started_of k s.started) (queue k s.queues ++ pending_of k s.pending)
      (pending_of k (e ∷ [])),
)

-- With nothing pending, the back of a queue is the end of the history.
history-push_back :
    (k : ℕ) (sub : Submission) (s : Scheduler)
    → is_empty s.pending ≡ true
    → history k (record s { queues = push_back sub.key_hash sub.operation s.queues })
      ≡ history k s ++ pending_of k (PendingEvent.submission sub ∷ [])
history-push_back k sub s e = ground (
  arith,
  queue-push_back k sub.key_hash sub.operation s.queues,
  append-nil (queue k s.queues),
  append-nil (queue k s.queues ++ (sub.operation ∷ [])),
  append-nil (started_of k s.started ++ queue k s.queues),
  append_assoc (started_of k s.started) (queue k s.queues) (sub.operation ∷ []),
)

module _ (iter : Queues → Queues) (maximum k : ℕ) where
  history-on_submission :
      (sub : Submission) (s : Scheduler)
      → history k (on_submission iter maximum sub s)
        ≡ history k s ++ arrival k s (CoordinatorEvent.submission sub)
  unfolding on_submission
  history-on_submission sub s =
      let s1 = record s { queues = push_back sub.key_hash sub.operation s.queues } in
      let s2 = dispatch_if_idle maximum sub.key_hash s1 in
      let s3 = dispatch_available iter maximum s2 in
      ground (
        arith,
        append-nil (history k s),
        history-push_pending k (PendingEvent.submission sub) s,
        history-push_back k sub s,
        history-dispatch_if_idle k maximum sub.key_hash s1,
        history-dispatch_available k iter maximum s2,
        history-check_shutdown k s3,
      )

  history-refill :
      (c : Completion) (s : Scheduler) → history k (refill iter maximum c s) ≡ history k s
  unfolding refill
  history-refill c s =
      let s1 = record s { active = remove_key c.key_hash s.active } in
      let s2 = dispatch_if_idle maximum c.key_hash s1 in
      let s3 = dispatch_available iter maximum s2 in
      ground (
        arith,
        history-dispatch_if_idle k maximum c.key_hash s1,
        history-dispatch_available k iter maximum s2,
        queue-remove_if_empty k c.key_hash s3.queues,
      )

  history-on_completion :
      (c : Completion) (s : Scheduler)
      → MatchesKind c.outcome
      → history k (on_completion iter maximum c s) ≡ history k s
  unfolding on_completion
  history-on_completion c s d =
      let (t, e, h) = history-delivered k c.outcome (refill iter maximum c s) d in
      rw (e, on_completion) (history-settle k maximum t ∙ h ∙ history-refill c s)

  -- Handling any event, where a completion carries a result of its operation's kind, leaves the
  -- history of every key (what was started, then what is queued, then what waits behind a barrier)
  -- as it was, with the operation that the event submits for that key to an open store at its end:
  -- no operation is lost, doubled or overtaken.
  pub history-handle :
      (e : CoordinatorEvent) (s : Scheduler)
      → IsDeliverable e
      → history k (handle iter maximum e s) ≡ history k s ++ arrival k s e
  unfolding handle on_maintenance on_maintenance_completion on_flush on_close
  history-handle (CoordinatorEvent.submission sub) s d = history-on_submission sub s
  history-handle (CoordinatorEvent.completion c) s d =
      history-on_completion c s d ∙ sym (append-nil (history k s))
  history-handle (CoordinatorEvent.maintenance m) s d = ground (
    arith,
    append-nil (history k s),
    history-settle k maximum (push_pending (PendingEvent.maintenance m) s),
    history-push_pending k (PendingEvent.maintenance m) s,
  )
  history-handle (CoordinatorEvent.maintenance_completion c) s d =
      history-settle k maximum (cleanup_reply c.outcome (record s { maintenance_active = false }))
      ∙ ground (arith, append-nil (history k s))
  history-handle (CoordinatorEvent.flush to) s d = ground (
    arith,
    append-nil (history k s),
    history-settle k maximum (push_pending (PendingEvent.flush to) s),
    history-push_pending k (PendingEvent.flush to) s,
  )
  history-handle (CoordinatorEvent.close to) s d =
      history-settle k maximum (close_in to s.lifecycle s)
      ∙ ground (
        arith,
        append-nil (history k s),
        history-push_pending k (PendingEvent.close to) s,
        history-push_pending k (PendingEvent.close to) (record s { lifecycle = closing }),
      )
