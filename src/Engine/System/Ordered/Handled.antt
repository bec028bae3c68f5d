-- ===== src/Engine/System/Ordered/Handled.antt =====
-- src/engine/scheduler.rs: handling an event sends the jobs of a key in order.
use atomic_blob_storage.Base.{
  ℕ, ◌≡◌, subst, inl, inr, false, not, ◌||◌, List, [], ◌∷◌, is_empty, Option, none, some, arith,
  Option-cases, if_cases, if◌then◌else◌,
}
use atomic_blob_storage.Error.{store_closed, CleanupReport, err, Outcome}
use atomic_blob_storage.Engine.Operation.{Operation, BlockingResult, Reply, deliver, cleaned}
use atomic_blob_storage.Engine.Event.{
  Lifecycle, open_store, closing, closed, shutdown_failed, failed, Submission, Completion,
  CoordinatorEvent, PendingEvent,
}
use atomic_blob_storage.Engine.Queues.{Queues, push_back, remove_if_empty, contains, remove_key}
use atomic_blob_storage.Engine.Scheduler.Defs.{Scheduler, answer, done_with, is_open}
use atomic_blob_storage.Engine.Scheduler.Dispatch.{
  dispatch_if_idle, dispatch_available, advance_pending_if_ready,
}
use atomic_blob_storage.Engine.Scheduler.Handle.{
  check_shutdown, panicked, push_pending, delivered, cleanup_reply, close_in, on_submission, refill,
  on_completion, on_maintenance, on_maintenance_completion, on_flush, on_close, handle, receive,
  round, disconnected,
}
use atomic_blob_storage.Engine.System.Ordered.{
  Ordered, dispatch_if_idle-Ordered, dispatch_available-Ordered, shutdown_jobs, settle-Ordered,
  check_shutdown-Ordered,
}

module _ (k : ℕ) (r : List Operation) where
  close_in-Ordered :
      (to : ℕ) (l : Lifecycle) (s : Scheduler) → Ordered k r s → Ordered k r (close_in to l s)
  close_in-Ordered to open_store s h = h
  close_in-Ordered to closing s h = h
  close_in-Ordered to closed s h = h
  close_in-Ordered to shutdown_failed s h = h
  close_in-Ordered to failed s h = h

  delivered-Ordered :
      (o : Option (Operation × BlockingResult)) (s t : Scheduler)
      → delivered o s ≡ some t
      → Ordered k r s
      → Ordered k r t
  delivered-Ordered none s t e h = let same : s ≡ t = ground arith in subst (Ordered k r) same h
  delivered-Ordered (some (op, result)) s t e h = elim (Option-cases (deliver op result)) [
    | inl none_due ↦ absurd (ground arith)
    | inr (reply, due) ↦ let same : answer reply s ≡ t = ground arith in subst (Ordered k r) same h
  ]

  cleanup_reply-Ordered :
      (o : Option (ℕ × Outcome CleanupReport)) (s : Scheduler)
      → Ordered k r s
      → Ordered k r (cleanup_reply o s)
  cleanup_reply-Ordered none s h = h
  cleanup_reply-Ordered (some (to, result)) s h = h

  pub disconnected-Ordered : (s : Scheduler) → Ordered k r s → Ordered k r (disconnected s)
  unfolding disconnected
  disconnected-Ordered s h = rw (shutdown_jobs k r s) h

  module _ (iter : Queues → Queues) (maximum : ℕ) where
    on_submission-Ordered :
        (sub : Submission) (s : Scheduler)
        → Ordered k r s
        → Ordered k r (on_submission iter maximum sub s)
    unfolding on_submission
    on_submission-Ordered sub s h =
        let s1 = record s { queues = push_back sub.key_hash sub.operation s.queues } in
        if_cases (Ordered k r) (not (is_open s.lifecycle)) _ _ (λ shut. h)
          (λ o.
            if_cases (Ordered k r) (s.maintenance_active || not (is_empty s.pending)) _ _
              (λ waits. h)
              (λ clear. check_shutdown-Ordered k r _ (
                dispatch_available-Ordered k r iter maximum _
                  (dispatch_if_idle-Ordered k r maximum sub.key_hash s1 h))))

    barrier-Ordered :
        (p : PendingEvent) (reply : ℕ × Reply) (s : Scheduler)
        → Ordered k r s
        → Ordered k r (
            if not (is_open s.lifecycle)
            then answer reply s
            else check_shutdown (advance_pending_if_ready maximum (push_pending p s)))
    barrier-Ordered p reply s h =
        if_cases (Ordered k r) (not (is_open s.lifecycle)) _ _ (λ shut. h)
          (λ o. settle-Ordered k r maximum (push_pending p s) h)

    refill-Ordered :
        (done : Completion) (s : Scheduler)
        → Ordered k r s
        → Ordered k r (refill iter maximum done s)
    unfolding refill
    refill-Ordered done s h =
        let s1 = record s { active = remove_key done.key_hash s.active } in
        let s2 = dispatch_if_idle maximum done.key_hash s1 in
        let s3 = dispatch_available iter maximum s2 in
        let left =
          dispatch_available-Ordered k r iter maximum s2
            (dispatch_if_idle-Ordered k r maximum done.key_hash s1 h) in
        if_cases (Ordered k r) (contains done.key_hash s3.active) s3
          (record s3 { queues = remove_if_empty done.key_hash s3.queues }) (λ still. left)
          (λ gone. left)

    on_completion-Ordered :
        (done : Completion) (s : Scheduler)
        → Ordered k r s
        → Ordered k r (on_completion iter maximum done s)
    unfolding on_completion panicked
    on_completion-Ordered done s h =
        let s' = refill iter maximum done s in
        let h' = refill-Ordered done s h in
        elim (Option-cases (delivered done.outcome s')) [
          | inl e ↦ rw (e, on_completion, panicked) (rw (shutdown_jobs k r s') h')
          | inr (t, e) ↦
              rw (e, on_completion)
                (settle-Ordered k r maximum t (delivered-Ordered done.outcome s' t e h'))
        ]

    handle-Ordered :
        (e : CoordinatorEvent) (s : Scheduler)
        → Ordered k r s
        → Ordered k r (handle iter maximum e s)
    unfolding handle on_maintenance on_maintenance_completion on_flush on_close
    handle-Ordered (CoordinatorEvent.submission sub) s h = on_submission-Ordered sub s h
    handle-Ordered (CoordinatorEvent.completion done) s h = on_completion-Ordered done s h
    handle-Ordered (CoordinatorEvent.maintenance m) s h =
        barrier-Ordered (PendingEvent.maintenance m) (m.sender, cleaned (err store_closed)) s h
    handle-Ordered (CoordinatorEvent.maintenance_completion done) s h =
        let s' = record s { maintenance_active = false } in
        settle-Ordered k r maximum (cleanup_reply done.outcome s')
          (cleanup_reply-Ordered done.outcome s' h)
    handle-Ordered (CoordinatorEvent.flush to) s h =
        barrier-Ordered (PendingEvent.flush to) (done_with to (err store_closed)) s h
    handle-Ordered (CoordinatorEvent.close to) s h =
        settle-Ordered k r maximum (close_in to s.lifecycle s) (close_in-Ordered to s.lifecycle s h)

    pub round-Ordered : (s : Scheduler) → Ordered k r s → Ordered k r (round iter maximum s)
    unfolding round
    round-Ordered s h =
        if_cases (Ordered k r) s.stopped s _ (λ over. h) (λ goes. received s.channel)
      where
        received : (l : List CoordinatorEvent) → Ordered k r (receive iter maximum l s)
        received [] = h
        received (e ∷ l) = handle-Ordered e (record s { channel = l }) h
