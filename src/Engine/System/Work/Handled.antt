-- ===== src/Engine/System/Work/Handled.antt =====
-- src/engine/scheduler.rs: handling an event leaves less work.
use atomic_blob_storage.Base.{
  ℕ, ◌+◌, ◌≤◌, ◌≡◌, refl, ap, subst, inl, inr, false, not, ◌||◌, List, [], ◌∷◌, is_empty, Option,
  none, some, arith, Option-cases, if_cases, if◌then◌else◌,
}
use atomic_blob_storage.Error.{store_closed, CleanupReport, err, Outcome}
use atomic_blob_storage.Engine.Operation.{Operation, BlockingResult, Reply, deliver, cleaned}
use atomic_blob_storage.Engine.Event.{
  Lifecycle, open_store, closing, closed, shutdown_failed, failed, Submission, Completion,
  CoordinatorEvent, PendingEvent,
}
use atomic_blob_storage.Engine.Workers.{shutdown}
use atomic_blob_storage.Engine.Queues.{Queues, push_back, remove_if_empty, contains, remove_key}
use atomic_blob_storage.Engine.Scheduler.Defs.{Scheduler, answer, done_with, is_open}
use atomic_blob_storage.Engine.Scheduler.Dispatch.{
  dispatch_if_idle, dispatch_available, advance_pending_if_ready,
}
use atomic_blob_storage.Engine.Scheduler.Handle.{
  check_shutdown, panicked, push_pending, delivered, cleanup_reply, close_in, on_submission, refill,
  on_completion, on_maintenance, on_maintenance_completion, on_flush, on_close, handle, receive,
  round,
}
use atomic_blob_storage.Engine.Ledger.{sum_of, sum_of-append}
use atomic_blob_storage.Engine.System.Work.{
  event_work, pending_work, work, Within, check_shutdown-Within, dispatch_available-Within,
  dispatch_if_idle-Within, push_back-work, remove_if_empty-work, settle-Within,
}

-- An event that comes to stand behind a barrier.
push_pending-Within :
    (c : ℕ) (p : PendingEvent) (s : Scheduler) → work s + 4 ≤ c → Within c (push_pending p s)
push_pending-Within c p s h = omega (arith, sum_of-append pending_work s.pending (p ∷ []))

close_in-Within :
    (c to : ℕ) (l : Lifecycle) (s : Scheduler) → work s + 4 ≤ c → Within c (close_in to l s)
close_in-Within c to open_store s h =
    push_pending-Within c (PendingEvent.close to) (record s { lifecycle = closing }) h
close_in-Within c to closing s h = push_pending-Within c (PendingEvent.close to) s h
close_in-Within c to closed s h = omega (arith, h)
close_in-Within c to shutdown_failed s h = omega (arith, h)
close_in-Within c to failed s h = omega (arith, h)

delivered-Within :
    (c : ℕ) (o : Option (Operation × BlockingResult)) (s t : Scheduler)
    → delivered o s ≡ some t
    → Within c s
    → Within c t
delivered-Within c none s t e h = let same : s ≡ t = ground arith in subst (Within c) same h
delivered-Within c (some (op, result)) s t e h = elim (Option-cases (deliver op result)) [
  | inl none_due ↦ absurd (ground arith)
  | inr (r, due) ↦ let same : answer r s ≡ t = ground arith in subst (Within c) same h
]

cleanup_reply-Within :
    (c : ℕ) (o : Option (ℕ × Outcome CleanupReport)) (s : Scheduler)
    → Within c s
    → Within c (cleanup_reply o s)
cleanup_reply-Within c none s h = h
cleanup_reply-Within c (some (to, result)) s h = h

panicked-work : (s : Scheduler) → work (panicked s) ≤ work s
unfolding panicked shutdown
panicked-work s = ground arith

module _ (iter : Queues → Queues) (maximum : ℕ) where
  on_submission-Within :
      (c : ℕ) (sub : Submission) (s : Scheduler)
      → work s + 4 ≤ c
      → Within c (on_submission iter maximum sub s)
  unfolding on_submission
  on_submission-Within c sub s h =
      let s1 = record s { queues = push_back sub.key_hash sub.operation s.queues } in
      if_cases (Within c) (not (is_open s.lifecycle)) _ _ (λ shut. omega (arith, h))
        (λ o.
          if_cases (Within c) (s.maintenance_active || not (is_empty s.pending)) _ _
            (λ waits. push_pending-Within c (PendingEvent.submission sub) s h)
            (λ clear. check_shutdown-Within c _ (
              dispatch_available-Within c iter maximum _ (
                dispatch_if_idle-Within c maximum sub.key_hash s1
                  (omega (arith, h, push_back-work sub.key_hash sub.operation s.queues))))))

  barrier-Within :
      (c : ℕ) (p : PendingEvent) (r : ℕ × Reply) (s : Scheduler)
      → work s + 4 ≤ c
      → Within c (
          if not (is_open s.lifecycle)
          then answer r s
          else check_shutdown (advance_pending_if_ready maximum (push_pending p s)))
  barrier-Within c p r s h =
      if_cases (Within c) (not (is_open s.lifecycle)) _ _ (λ shut. omega (arith, h))
        (λ o. settle-Within c maximum _ (push_pending-Within c p s h))

  refill-Within :
      (c : ℕ) (done : Completion) (s : Scheduler)
      → Within c s
      → Within c (refill iter maximum done s)
  unfolding refill
  refill-Within c done s h =
      let s1 = record s { active = remove_key done.key_hash s.active } in
      let s2 = dispatch_if_idle maximum done.key_hash s1 in
      let s3 = dispatch_available iter maximum s2 in
      let left =
        dispatch_available-Within c iter maximum s2
          (dispatch_if_idle-Within c maximum done.key_hash s1 h) in
      if_cases (Within c) (contains done.key_hash s3.active) s3
        (record s3 { queues = remove_if_empty done.key_hash s3.queues }) (λ still. left)
        (λ gone. omega (arith, left, remove_if_empty-work done.key_hash s3.queues))

  on_completion-Within :
      (c : ℕ) (done : Completion) (s : Scheduler)
      → Within c s
      → Within c (on_completion iter maximum done s)
  unfolding on_completion
  on_completion-Within c done s h =
      let s' = refill iter maximum done s in
      elim (Option-cases (delivered done.outcome s')) [
        | inl e ↦ rw (e, on_completion) (omega (arith, panicked-work s', refill-Within c done s h))
        | inr (t, e) ↦
            rw (e, on_completion)
              (settle-Within c maximum t
                (delivered-Within c done.outcome s' t e (refill-Within c done s h)))
      ]

  -- Handling an event does away with some of its work.
  handle-work :
      (e : CoordinatorEvent) (s : Scheduler)
      → work (handle iter maximum e s) + 1 ≤ work s + event_work e
  unfolding handle on_maintenance on_maintenance_completion on_flush on_close
  handle-work (CoordinatorEvent.submission sub) s =
      omega (arith, on_submission-Within (work s + 4) sub s (omega arith))
  handle-work (CoordinatorEvent.completion done) s =
      omega (arith, on_completion-Within (work s) done s (omega arith))
  handle-work (CoordinatorEvent.maintenance m) s = omega (
    arith,
    barrier-Within (work s + 4) (PendingEvent.maintenance m) (m.sender, cleaned (err store_closed))
        s (omega arith),
  )
  handle-work (CoordinatorEvent.maintenance_completion done) s =
      let s' = record s { maintenance_active = false } in
      let left : work s' ≤ work s = omega arith in
      omega (
        arith,
        settle-Within (work s) maximum (cleanup_reply done.outcome s')
            (cleanup_reply-Within (work s) done.outcome s' left),
      )
  handle-work (CoordinatorEvent.flush to) s = omega (
    arith,
    barrier-Within (work s + 4) (PendingEvent.flush to) (done_with to (err store_closed)) s
        (omega arith),
  )
  handle-work (CoordinatorEvent.close to) s = omega (
    arith,
    settle-Within (work s + 4) maximum (close_in to s.lifecycle s)
        (close_in-Within (work s + 4) to s.lifecycle s (omega arith)),
  )

  -- So does a round that finds an event.
  pub round-work :
      (s : Scheduler) (e : CoordinatorEvent) (rest : List CoordinatorEvent)
      → s.stopped ≡ false
      → s.channel ≡ e ∷ rest
      → work (round iter maximum s) + 1 ≤ work s
  unfolding round
  round-work s e rest on waiting =
      if_cases (λ t. work t + 1 ≤ work s) s.stopped s _ (λ over. absurd (ground arith))
        (λ goes. received s.channel refl)
    where
      received :
          (l : List CoordinatorEvent) → s.channel ≡ l → work (receive iter maximum l s) + 1 ≤ work s
      received [] h = absurd (ground arith)
      received (x ∷ l) h =
          omega (arith, handle-work x (record s { channel = l }), ap (sum_of event_work) h)
