-- ===== src/Engine/Scheduler/Progress.antt =====
-- src/engine/scheduler.rs: what the invariant means for waiting work, and what holds once the loop
-- has ended.
use atomic_blob_storage.Base.{
  ℕ, ◌<◌, ◌≡◌, ◌≢◌, refl, sym, ◌∙◌, ◌⊎◌, inl, inr, true, false, not, ◌&&◌, ◌||◌, List, [], ◌∷◌,
  ◌++◌, Option, none, some, is_empty, arith, append-nil, Bool-cases, Option-cases, if_cases,
}
use atomic_blob_storage.Error.{CleanupReport, Outcome, ok, err}
use atomic_blob_storage.Engine.Event.{
  Lifecycle, open_store, closing, closed, shutdown_failed, failed, Submission, Completion,
  CoordinatorEvent, PendingEvent,
}
use atomic_blob_storage.Engine.Workers.{shutdown}
use atomic_blob_storage.Engine.Queues.{Queues, queue, push_back, remove_key}
use atomic_blob_storage.Engine.Queues.Laws.{all_empty-queue}
use atomic_blob_storage.Engine.Queues.Entries.{IsHashOrder, queue-all_empty}
use atomic_blob_storage.Engine.Scheduler.Defs.{Scheduler, busy, is_open, front_is_close, is_final}
use atomic_blob_storage.Engine.Scheduler.Dispatch.{
  dispatch_if_idle, dispatch_available, advance, advance_pending_if_ready,
}
use atomic_blob_storage.Engine.Scheduler.Handle.{
  shutdown_lifecycle, shut_down, check_shutdown, push_pending, delivered, panicked, cleanup_reply,
  close_in, on_submission, refill, on_completion, on_maintenance, on_maintenance_completion,
  on_flush, on_close, handle,
}
use atomic_blob_storage.Engine.Scheduler.Cases.{
  dispatch_if_idle_rest, dispatch_available_rest, dispatch_maintenance_rest, advance_cases,
}
use atomic_blob_storage.Engine.Scheduler.History.{started_of, history}
use atomic_blob_storage.Engine.Scheduler.Fifo.{arrival, IsDeliverable, history-handle}
use atomic_blob_storage.Engine.Scheduler.Invariant.{IsConsistent}
use atomic_blob_storage.Engine.Scheduler.Core.{Core, advance_pending_if_ready-Core}
use atomic_blob_storage.Engine.Scheduler.Order.{Ordered, behind_closes-last}
use atomic_blob_storage.Engine.Scheduler.Rounds.{
  push_pending-Core, close_in-Core, delivered-cases, cleaned-Core, refill-Core,
}

is_empty-nil : {A : Type 0} (l : List A) → is_empty l ≡ true → l ≡ []
is_empty-nil [] h = refl
is_empty-nil (e ∷ l) h = absurd (ground arith)

-- No work waits while nothing runs.
pub waiting-runs :
    (maximum k : ℕ) (s : Scheduler)
    → IsConsistent maximum s
    → 0 < maximum
    → (queue k s.queues ≢ []) ⊎ (is_empty s.pending ≡ false)
    → (is_empty s.active ≡ false) ⊎ (s.maintenance_active ≡ true)
waiting-runs maximum k s h some_slot waits = elim (Bool-cases (is_empty s.active)) [
  | inr runs ↦ inl runs
  | inl none_runs ↦
      let nothing = is_empty-nil s.active none_runs in
      let unqueued : (j : ℕ) → queue j s.queues ≡ [] =
        λ j. h.served j (rw nothing some_slot) (rw nothing refl) in
      elim waits [
        | inl w ↦ absurd (w (unqueued k))
        | inr p ↦ elim (h.lively p) [
          | inl on ↦ inr on
          | inr b ↦ absurd (ground (arith, queue-all_empty s.queues h.slots.2 unqueued))
        ]
      ]
]

-- The loop has ended with nothing left over, and the lifecycle says so.
abbrev pub Drained : Scheduler → Type 0
Drained s =
    (s.pending ≡ [])
    × (is_empty s.active ≡ true)
    × ((k : ℕ) → queue k s.queues ≡ [])
    × (s.maintenance_active ≡ false)
    × (s.channel ≡ [])
    × (is_final s.lifecycle ≡ true)

pub advance-stopped :
    (maximum : ℕ) (s : Scheduler)
    → s.stopped ≡ false
    → (advance_pending_if_ready maximum s).stopped ≡ false
unfolding advance_pending_if_ready
advance-stopped maximum s h =
    if_cases (λ t. t.stopped ≡ false) s.maintenance_active s (advance maximum s.pending s) (λ on. h)
      (λ off.
        advance_cases (λ t. t.stopped ≡ false) (λ t. t.stopped ≡ false) maximum (λ t e. e)
          (λ t m rest e p idle.
            let (q, a, p', ma, l, st) =
              dispatch_maintenance_rest m
                (record t { pending = rest; maintenance_active = true }) in
            st ∙ e)
          (λ t sub rest e p.
            let (p', ma, l, st) = dispatch_if_idle_rest maximum sub.key_hash _ in st ∙ e)
          (λ t to rest e p idle. e) s.pending s refl h)

-- A round goes on, or ends the loop drained.
abbrev pub EndsDrained : Scheduler → Type 0
EndsDrained s = (s.stopped ≡ false) ⊎ Drained s

shutdown_lifecycle-final : (r : Outcome (Unit {0})) → is_final (shutdown_lifecycle r) ≡ true
shutdown_lifecycle-final (ok u) = refl
shutdown_lifecycle-final (err e) = refl

check_shutdown-EndsDrained :
    (s : Scheduler)
    → s.stopped ≡ false
    → Ordered s.lifecycle s.pending
    → EndsDrained (check_shutdown s)
unfolding check_shutdown shut_down
check_shutdown-EndsDrained s on ordered =
    if_cases EndsDrained (front_is_close s.pending && (not (busy s) && not s.maintenance_active)) _
      s
      (λ over. inr (
        behind_closes-last s.pending ordered.1 (ground arith),
        ground arith,
        (λ k. all_empty-queue s.queues k (ground arith)),
        ground arith,
        refl,
        shutdown_lifecycle-final (shutdown s.pool).0,
      ))
      (λ u. inl on)

settle-EndsDrained :
    (maximum : ℕ) (s : Scheduler)
    → s.stopped ≡ false
    → Core maximum s
    → EndsDrained (check_shutdown (advance_pending_if_ready maximum s))
settle-EndsDrained maximum s on h =
    check_shutdown-EndsDrained (advance_pending_if_ready maximum s) (advance-stopped maximum s on)
      (advance_pending_if_ready-Core maximum s h).3

pub close_in-stopped :
    (to : ℕ) (l : Lifecycle) (s : Scheduler) → s.stopped ≡ false → (close_in to l s).stopped ≡ false
close_in-stopped to open_store s h = h
close_in-stopped to closing s h = h
close_in-stopped to closed s h = h
close_in-stopped to shutdown_failed s h = h
close_in-stopped to failed s h = h

pub cleanup_reply-stopped :
    (o : Option (ℕ × Outcome CleanupReport)) (s : Scheduler)
    → s.stopped ≡ false
    → (cleanup_reply o s).stopped ≡ false
cleanup_reply-stopped none s h = h
cleanup_reply-stopped (some (to, result)) s h = h

panicked-Drained : (s : Scheduler) → Drained (panicked s)
unfolding panicked
panicked-Drained s = (refl, refl, (λ k. refl), refl, refl, refl)

module _ (iter : Queues → Queues) (order : IsHashOrder iter) (maximum : ℕ) where
  pub refill-stopped :
      (c : Completion) (s : Scheduler)
      → s.stopped ≡ false
      → (refill iter maximum c s).stopped ≡ false
  unfolding refill
  refill-stopped c s h =
      let s1 = record s { active = remove_key c.key_hash s.active } in
      let (p2, m2, l2, st2) = dispatch_if_idle_rest maximum c.key_hash s1 in
      let (p3, m3, l3, st3) =
        dispatch_available_rest iter maximum (dispatch_if_idle maximum c.key_hash s1) in
      ground arith

  on_submission-EndsDrained :
      (sub : Submission) (s : Scheduler)
      → IsConsistent maximum s
      → s.stopped ≡ false
      → EndsDrained (on_submission iter maximum sub s)
  unfolding on_submission
  on_submission-EndsDrained sub s h on =
      let s1 = record s { queues = push_back sub.key_hash sub.operation s.queues } in
      let s2 = dispatch_if_idle maximum sub.key_hash s1 in
      let s3 = dispatch_available iter maximum s2 in
      let (p2, m2, l2, st2) = dispatch_if_idle_rest maximum sub.key_hash s1 in
      let (p3, m3, l3, st3) = dispatch_available_rest iter maximum s2 in
      if_cases EndsDrained (not (is_open s.lifecycle)) _ _ (λ shut. inl on)
        (λ o.
          if_cases EndsDrained (s.maintenance_active || not (is_empty s.pending)) _ _ (λ u. inl on)
            (λ clear.
              check_shutdown-EndsDrained s3 (st3 ∙ st2 ∙ on) (rw (l3, p3, l2, p2) h.ordered)))

  on_completion-EndsDrained :
      (c : Completion) (s : Scheduler)
      → IsConsistent maximum s
      → s.stopped ≡ false
      → EndsDrained (on_completion iter maximum c s)
  unfolding on_completion
  on_completion-EndsDrained c s h on =
      let s' = refill iter maximum c s in
      let on' = refill-stopped c s on in
      let core = refill-Core iter order maximum c s h in
      elim (Option-cases (delivered c.outcome s')) [
        | inl e ↦ rw (e, on_completion) (inr (panicked-Drained s'))
        | inr (t, e) ↦
            rw (e, on_completion)
              (settle-EndsDrained maximum t
                (delivered-cases (λ t. t.stopped ≡ false) c.outcome s' t e on' (λ r. on'))
                (delivered-cases (Core maximum) c.outcome s' t e core (λ r. core)))
      ]

  -- Handling an event in a consistent state leaves a running loop running, or ends it with nothing
  -- pending, running, queued or waiting in the channel, no maintenance, and a final lifecycle.
  pub handle-EndsDrained :
      (e : CoordinatorEvent) (s : Scheduler)
      → IsConsistent maximum s
      → s.stopped ≡ false
      → EndsDrained (handle iter maximum e s)
  unfolding handle on_maintenance on_maintenance_completion on_flush on_close
  handle-EndsDrained (CoordinatorEvent.submission sub) s h on = on_submission-EndsDrained sub s h on
  handle-EndsDrained (CoordinatorEvent.completion c) s h on = on_completion-EndsDrained c s h on
  handle-EndsDrained (CoordinatorEvent.maintenance m) s h on =
      if_cases EndsDrained (not (is_open s.lifecycle)) _ _ (λ shut. inl on)
        (λ o.
          settle-EndsDrained maximum (push_pending (PendingEvent.maintenance m) s) on
            (push_pending-Core maximum (PendingEvent.maintenance m) s h refl (ground arith)))
  handle-EndsDrained (CoordinatorEvent.maintenance_completion c) s h on =
      settle-EndsDrained maximum (cleanup_reply c.outcome (record s { maintenance_active = false }))
        (cleanup_reply-stopped c.outcome (record s { maintenance_active = false }) on)
        (cleaned-Core maximum c.outcome s h)
  handle-EndsDrained (CoordinatorEvent.flush to) s h on =
      if_cases EndsDrained (not (is_open s.lifecycle)) _ _ (λ shut. inl on)
        (λ o.
          settle-EndsDrained maximum (push_pending (PendingEvent.flush to) s) on
            (push_pending-Core maximum (PendingEvent.flush to) s h refl (ground arith)))
  handle-EndsDrained (CoordinatorEvent.close to) s h on =
      settle-EndsDrained maximum (close_in to s.lifecycle s) (close_in-stopped to s.lifecycle s on)
        (close_in-Core maximum to s h s.lifecycle refl)

  -- Where handling an event in a consistent state ends the running loop, and a completion carries
  -- a result of its operation's kind, what was started of a key is all that was accepted for it,
  -- the event's own operation included.
  pub handle-started :
      (k : ℕ) (e : CoordinatorEvent) (s : Scheduler)
      → IsConsistent maximum s
      → IsDeliverable e
      → s.stopped ≡ false
      → (handle iter maximum e s).stopped ≡ true
      → started_of k (handle iter maximum e s).started ≡ history k s ++ arrival k s e
  handle-started k e s h d on over = elim (handle-EndsDrained e s h on) [
    | inl goes ↦ absurd (ground arith)
    | inr (p, a, q, m, c, f) ↦
        let s' = handle iter maximum e s in
        let nothing : history k s' ≡ started_of k s'.started =
          rw (p, q k) (append-nil (started_of k s'.started)) in
        sym nothing ∙ history-handle iter maximum k e s d
  ]
