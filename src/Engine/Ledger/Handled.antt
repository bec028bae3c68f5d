-- ===== src/Engine/Ledger/Handled.antt =====
-- src/engine/scheduler.rs: handling an event loses no sending end, and answers no channel twice.
use atomic_blob_storage.Base.{
  ℕ, ◌+◌, ◌≡◌, refl, ◌∙◌, inl, inr, false, not, ◌||◌, is_empty, arith, Option-cases, if_cases,
  if◌then◌else◌,
}
use atomic_blob_storage.Error.{store_closed, err}
use atomic_blob_storage.Engine.Operation.{Reply, cleaned}
use atomic_blob_storage.Engine.Event.{Submission, Completion, CoordinatorEvent, PendingEvent}
use atomic_blob_storage.Engine.Queues.{Queues, push_back, contains, remove_key, remove_if_empty}
use atomic_blob_storage.Engine.Queues.Laws.{length-remove_key}
use atomic_blob_storage.Engine.Queues.Entries.{IsHashOrder, push_back-KeysDistinct}
use atomic_blob_storage.Engine.Scheduler.Defs.{Scheduler, answer, done_with, is_open}
use atomic_blob_storage.Engine.Scheduler.Dispatch.{
  dispatch_if_idle, dispatch_available, advance_pending_if_ready,
}
use atomic_blob_storage.Engine.Scheduler.Handle.{
  check_shutdown, push_pending, delivered, cleanup_reply, close_in, on_submission, refill,
  on_completion, on_maintenance, on_maintenance_completion, on_flush, on_close, handle,
}
use atomic_blob_storage.Engine.Scheduler.Cases.{dispatch_if_idle_rest, dispatch_available_rest}
use atomic_blob_storage.Engine.Scheduler.Slots.{
  Slots, remove_key-Distinct, dispatch_if_idle-Slots, dispatch_available-Slots,
}
use atomic_blob_storage.Engine.Scheduler.Fifo.{IsDeliverable, MatchesKind}
use atomic_blob_storage.Engine.Scheduler.Order.{is_close}
use atomic_blob_storage.Engine.Scheduler.Core.{Core}
use atomic_blob_storage.Engine.Scheduler.Invariant.{IsConsistent}
use atomic_blob_storage.Engine.Scheduler.Rounds.{
  push_pending-Core, close_in-Core, cleaned-Core, delivered-cases, refill-Core,
}
use atomic_blob_storage.Engine.Scheduler.Progress.{
  close_in-stopped, cleanup_reply-stopped, refill-stopped,
}
use atomic_blob_storage.Engine.Ledger.{in_reply, in_pending, total, Tallied}
use atomic_blob_storage.Engine.Ledger.Queued.{in-push_back, in-remove_if_empty}
use atomic_blob_storage.Engine.Ledger.Dispatched.{
  Sends, Balanced, in_reply-error, dispatch_if_idle-Balanced, dispatch_available-Balanced,
}
use atomic_blob_storage.Engine.Ledger.Settled.{
  Audited, Balanced-Audited, check_shutdown-Audited, settle-Audited,
}
use atomic_blob_storage.Engine.Ledger.Replied.{
  Taken, push_pending-Balanced, answer-Balanced, freed-Balanced, no_panic, delivered-Balanced,
  cleanup_reply-Balanced, close_in-Balanced,
}

module _ (iter : Queues → Queues) (order : IsHashOrder iter) (maximum : ℕ) (c : ℕ → ℕ) where
  refill-Balanced :
      (done : Completion) (s : Scheduler)
      → Slots maximum s
      → Taken c (CoordinatorEvent.completion done) s
      → Balanced (λ n. total n s) (refill iter maximum done s)
  unfolding refill
  refill-Balanced done s (few, apart, keys) taken =
      let s1 = record s { active = remove_key done.key_hash s.active } in
      let s2 = dispatch_if_idle maximum done.key_hash s1 in
      let s3 = dispatch_available iter maximum s2 in
      let slots1 : Slots maximum s1 = (
        omega (arith, length-remove_key done.key_hash s.active),
        remove_key-Distinct done.key_hash s.active apart,
        keys,
      ) in
      let slots2 = dispatch_if_idle-Slots maximum done.key_hash s1 slots1 in
      let slots3 = dispatch_available-Slots iter order maximum s2 slots2 in
      let held : ℕ → ℕ = λ n. total n s in
      let balanced1 = freed-Balanced c done s apart taken in
      let balanced2 = dispatch_if_idle-Balanced held maximum done.key_hash s1 keys balanced1 in
      let (tally, sends, sums) =
        dispatch_available-Balanced held iter maximum s2 slots2 balanced2 in
      if_cases (Balanced held) (contains done.key_hash s3.active) s3
        (record s3 { queues = remove_if_empty done.key_hash s3.queues })
        (λ still. (tally, sends, sums))
        (λ gone. (
          tally,
          sends,
          (λ n. omega (arith, sums n, in-remove_if_empty n done.key_hash s3.queues slots3.2)),
        ))

  on_submission-Audited :
      (sub : Submission) (s : Scheduler)
      → IsConsistent maximum s
      → s.stopped ≡ false
      → Taken c (CoordinatorEvent.submission sub) s
      → Audited c (on_submission iter maximum sub s)
  unfolding on_submission
  on_submission-Audited sub s h on (tally, maint, sends, sums) =
      let s1 = record s { queues = push_back sub.key_hash sub.operation s.queues } in
      let s2 = dispatch_if_idle maximum sub.key_hash s1 in
      let s3 = dispatch_available iter maximum s2 in
      let keys1 = push_back-KeysDistinct sub.key_hash sub.operation s.queues h.slots.2 in
      let slots2 = dispatch_if_idle-Slots maximum sub.key_hash s1 (h.slots.0, h.slots.1, keys1) in
      let (p2, m2, l2, st2) = dispatch_if_idle_rest maximum sub.key_hash s1 in
      let (p3, m3, l3, st3) = dispatch_available_rest iter maximum s2 in
      let tally' : Tallied s = ((λ k. omega (arith, tally k)), omega arith) in
      if_cases (Audited c) (not (is_open s.lifecycle)) _ _
        (λ shut. Balanced-Audited c _ on (
          tally',
          sends,
          (λ n. omega (arith, sums n, in_reply-error n sub.operation store_closed s.replies)),
        ))
        (λ o.
          if_cases (Audited c) (s.maintenance_active || not (is_empty s.pending)) _ _
            (λ waits.
              Balanced-Audited c (push_pending (PendingEvent.submission sub) s) on
                (push_pending-Balanced c (PendingEvent.submission sub) s tally' sends sums))
            (λ clear. check_shutdown-Audited c s3 (rw (p3, p2) h.ordered.1) (st3 ∙ st2 ∙ on) (
              dispatch_available-Balanced c iter maximum s2 slots2 (
                dispatch_if_idle-Balanced c maximum sub.key_hash s1 keys1 (
                  tally',
                  sends,
                  (λ n. omega (arith, sums n, in-push_back n sub.key_hash sub.operation s.queues)),
                )))))

  -- A flush or a maintenance joins the pending events of an open store.
  barrier-Audited :
      (p : PendingEvent) (r : ℕ × Reply) (s : Scheduler)
      → IsConsistent maximum s
      → s.stopped ≡ false
      → is_close p ≡ false
      → Tallied s
      → Sends s
      → ((n : ℕ) → total n s + in_pending n p ≡ c n)
      → ((n : ℕ) → total n s + in_reply n r ≡ c n)
      → Audited c (
          if not (is_open s.lifecycle)
          then answer r s
          else check_shutdown (advance_pending_if_ready maximum (push_pending p s)))
  barrier-Audited p r s h on plain tally sends sums refused =
      if_cases (Audited c) (not (is_open s.lifecycle)) _ _
        (λ shut. Balanced-Audited c _ on (answer-Balanced c r s tally sends refused))
        (λ o.
          settle-Audited c maximum (push_pending p s)
            (push_pending-Core maximum p s h plain (ground arith)) on
            (push_pending-Balanced c p s tally sends sums))

  on_completion-Audited :
      (done : Completion) (s : Scheduler)
      → IsConsistent maximum s
      → s.stopped ≡ false
      → MatchesKind done.outcome
      → Taken c (CoordinatorEvent.completion done) s
      → Audited c (on_completion iter maximum done s)
  unfolding on_completion
  on_completion-Audited done s h on kind taken =
      let s' = refill iter maximum done s in
      let core = refill-Core iter order maximum done s h in
      let on' = refill-stopped iter order maximum done s on in
      let (tally, sends, sums) = refill-Balanced done s h.slots taken in
      elim (Option-cases (delivered done.outcome s')) [
        | inl e ↦ absurd (no_panic done.outcome s' kind e)
        | inr (t, e) ↦
            rw (e, on_completion)
              (settle-Audited c maximum t
                (delivered-cases (Core maximum) done.outcome s' t e core (λ r. core))
                (delivered-cases (λ u. u.stopped ≡ false) done.outcome s' t e on' (λ r. on'))
                (delivered-Balanced c done.outcome s' t e tally sends
                  (λ n. omega (arith, sums n, taken.3 n))))
      ]

  -- Handling an event
  pub handle-Audited :
      (e : CoordinatorEvent) (s : Scheduler)
      → IsConsistent maximum s
      → s.stopped ≡ false
      → IsDeliverable e
      → Taken c e s
      → Audited c (handle iter maximum e s)
  unfolding handle on_maintenance on_maintenance_completion on_flush on_close
  handle-Audited (CoordinatorEvent.submission sub) s h on d taken =
      on_submission-Audited sub s h on taken
  handle-Audited (CoordinatorEvent.completion done) s h on d taken =
      on_completion-Audited done s h on d taken
  handle-Audited (CoordinatorEvent.maintenance m) s h on d (tally, maint, sends, sums) =
      barrier-Audited (PendingEvent.maintenance m) (m.sender, cleaned (err store_closed)) s h on
        refl ((λ k. omega (arith, tally k)), omega arith) sends sums sums
  handle-Audited (CoordinatorEvent.maintenance_completion done) s h on d
        (tally, maint, sends, sums) =
      let s' = record s { maintenance_active = false } in
      settle-Audited c maximum (cleanup_reply done.outcome s')
        (cleaned-Core maximum done.outcome s h) (cleanup_reply-stopped done.outcome s' on)
        (cleanup_reply-Balanced c done.outcome s' ((λ k. omega (arith, tally k)), ground arith)
          sends sums)
  handle-Audited (CoordinatorEvent.flush to) s h on d (tally, maint, sends, sums) =
      barrier-Audited (PendingEvent.flush to) (done_with to (err store_closed)) s h on refl
        ((λ k. omega (arith, tally k)), omega arith) sends sums sums
  handle-Audited (CoordinatorEvent.close to) s h on d (tally, maint, sends, sums) =
      settle-Audited c maximum (close_in to s.lifecycle s)
        (close_in-Core maximum to s h s.lifecycle refl) (close_in-stopped to s.lifecycle s on)
        (close_in-Balanced c to s.lifecycle s ((λ k. omega (arith, tally k)), omega arith) sends
          sums)
