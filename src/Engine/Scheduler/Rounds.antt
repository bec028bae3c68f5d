-- ===== src/Engine/Scheduler/Rounds.antt =====
-- src/engine/scheduler.rs: every event keeps the invariant of the scheduler's state.
use atomic_blob_storage.Base.{
  ℕ, ◌≡◌, refl, ap, sym, subst, ◌∙◌, inl, inr, true, false, not, ◌||◌, List, [], ◌∷◌, Option, none,
  some, is_empty, arith, Bool-cases, Option-cases, if_cases,
}
use atomic_blob_storage.Error.{CleanupReport, Outcome}
use atomic_blob_storage.Engine.Operation.{Operation, BlockingResult, Reply, deliver}
use atomic_blob_storage.Engine.Event.{
  Lifecycle, open_store, closing, closed, shutdown_failed, failed, Submission, Completion,
  CoordinatorEvent, PendingEvent,
}
use atomic_blob_storage.Engine.Queues.{Queues, push_back, remove_key, remove_if_empty, contains}
use atomic_blob_storage.Engine.Queues.Laws.{
  queue-remove_if_empty, remove_if_empty-all_empty, length-remove_key,
}
use atomic_blob_storage.Engine.Queues.Entries.{
  IsHashOrder, push_back-KeysDistinct, remove_if_empty-KeysDistinct,
}
use atomic_blob_storage.Engine.Scheduler.Defs.{Scheduler, answer, busy, is_open}
use atomic_blob_storage.Engine.Scheduler.Dispatch.{dispatch_if_idle, dispatch_available}
use atomic_blob_storage.Engine.Scheduler.Handle.{
  push_pending, delivered, panicked, cleanup_reply, close_in, on_submission, refill, on_completion,
  on_maintenance, on_maintenance_completion, on_flush, on_close, handle,
}
use atomic_blob_storage.Engine.Scheduler.Cases.{dispatch_if_idle_rest, dispatch_available_rest}
use atomic_blob_storage.Engine.Scheduler.Slots.{
  Slots, remove_key-Distinct, dispatch_if_idle-Slots, dispatch_available-Slots,
  dispatch_available-Served,
}
use atomic_blob_storage.Engine.Scheduler.Order.{is_close, Ordered, push-Ordered, closes_last-push}
use atomic_blob_storage.Engine.Scheduler.Core.{
  Quiet, Core, dispatch_if_idle-idle, dispatch_available-idle,
}
use atomic_blob_storage.Engine.Scheduler.Invariant.{
  IsConsistent, check_shutdown-IsConsistent, settle-IsConsistent,
}

-- A new pending event waits for what the others wait for.
push_pending-IsConsistent :
    (maximum : ℕ) (e : PendingEvent) (s : Scheduler)
    → IsConsistent maximum s
    → is_close e ≡ false
    → is_open s.lifecycle ≡ true
    → (s.maintenance_active || not (is_empty s.pending)) ≡ true
    → IsConsistent maximum (push_pending e s)
push_pending-IsConsistent maximum e s h c o waiting = record {
  slots = h.slots;
  served = h.served;
  quiet = h.quiet;
  ordered = push-Ordered e s.lifecycle s.pending c o h.ordered;
  lively = λ waits. elim (Bool-cases s.maintenance_active) [
    | inl on ↦ inl on
    | inr off ↦ h.lively (ground arith)
  ];
}

pub push_pending-Core :
    (maximum : ℕ) (e : PendingEvent) (s : Scheduler)
    → IsConsistent maximum s
    → is_close e ≡ false
    → is_open s.lifecycle ≡ true
    → Core maximum (push_pending e s)
push_pending-Core maximum e s h c o =
    (h.slots, h.served, h.quiet, push-Ordered e s.lifecycle s.pending c o h.ordered)

pub close_in-Core :
    (maximum to : ℕ) (s : Scheduler)
    → IsConsistent maximum s
    → (l : Lifecycle) → s.lifecycle ≡ l
    → Core maximum (close_in to l s)
close_in-Core maximum to s h open_store e = (
  h.slots,
  h.served,
  h.quiet,
  ((λ o. absurd (ground arith)), closes_last-push to s.pending h.ordered.1),
)
close_in-Core maximum to s h closing e = (
  h.slots,
  h.served,
  h.quiet,
  ((λ o. absurd (ground (arith, ap is_open e))), closes_last-push to s.pending h.ordered.1),
)
close_in-Core maximum to s h closed e = (h.slots, h.served, h.quiet, h.ordered)
close_in-Core maximum to s h shutdown_failed e = (h.slots, h.served, h.quiet, h.ordered)
close_in-Core maximum to s h failed e = (h.slots, h.served, h.quiet, h.ordered)

refused-IsConsistent :
    (maximum : ℕ) (r : ℕ × Reply) (s : Scheduler)
    → IsConsistent maximum s
    → IsConsistent maximum (answer r s)
refused-IsConsistent maximum r s h = record {
  slots = h.slots;
  served = h.served;
  quiet = h.quiet;
  ordered = h.ordered;
  lively = h.lively;
}

pub cleaned-Core :
    (maximum : ℕ) (o : Option (ℕ × Outcome CleanupReport)) (s : Scheduler)
    → IsConsistent maximum s
    → Core maximum (cleanup_reply o (record s { maintenance_active = false }))
cleaned-Core maximum none s h = (h.slots, h.served, (λ on. absurd (ground arith)), h.ordered)
cleaned-Core maximum (some (to, result)) s h =
    (h.slots, h.served, (λ on. absurd (ground arith)), h.ordered)

remove_key-empty : (k : ℕ) (l : List ℕ) → is_empty l ≡ true → is_empty (remove_key k l) ≡ true
unfolding remove_key
remove_key-empty k [] h = refl
remove_key-empty k (j ∷ l) h = absurd (ground arith)

remove_key-idle :
    (k : ℕ) (s : Scheduler)
    → busy s ≡ false
    → busy (record s { active = remove_key k s.active }) ≡ false
remove_key-idle k s h = ground (arith, remove_key-empty k s.active)

-- A reply changes nothing but the replies.
pub delivered-cases {ℓ} :
    (P : Scheduler → Type ℓ) (o : Option (Operation × BlockingResult)) (s t : Scheduler)
    → delivered o s ≡ some t
    → P s
    → ((r : ℕ × Reply) → P (answer r s))
    → P t
delivered-cases P none s t e h k = let same : s ≡ t = ground arith in subst P same h
delivered-cases P (some (op, result)) s t e h k = elim (Option-cases (deliver op result)) [
  | inl none_due ↦ absurd (ground arith)
  | inr (r, due) ↦ let same : answer r s ≡ t = ground arith in subst P same (k r)
]

panicked-IsConsistent : (maximum : ℕ) (s : Scheduler) → IsConsistent maximum (panicked s)
unfolding panicked
panicked-IsConsistent maximum s = record {
  slots = (omega arith, tt, tt);
  served = λ k free idle. refl;
  quiet = λ on. refl;
  ordered = ((λ o. refl), refl);
  lively = λ waits. absurd (ground arith);
}

module _ (iter : Queues → Queues) (order : IsHashOrder iter) (maximum : ℕ) where
  pub refill-Core :
      (c : Completion) (s : Scheduler)
      → IsConsistent maximum s
      → Core maximum (refill iter maximum c s)
  unfolding refill
  refill-Core c s h =
      let s1 = record s { active = remove_key c.key_hash s.active } in
      let s2 = dispatch_if_idle maximum c.key_hash s1 in
      let s3 = dispatch_available iter maximum s2 in
      let (few, apart, keys) = h.slots in
      let slots1 : Slots maximum s1 = (
        omega (arith, length-remove_key c.key_hash s.active),
        remove_key-Distinct c.key_hash s.active apart,
        keys,
      ) in
      let slots2 = dispatch_if_idle-Slots maximum c.key_hash s1 slots1 in
      let slots3 = dispatch_available-Slots iter order maximum s2 slots2 in
      let served3 = dispatch_available-Served iter order maximum s2 slots2 in
      let (p2, m2, l2, st2) = dispatch_if_idle_rest maximum c.key_hash s1 in
      let (p3, m3, l3, st3) = dispatch_available_rest iter maximum s2 in
      let quiet3 : Quiet s3 = λ on. dispatch_available-idle iter maximum s2 (
        dispatch_if_idle-idle maximum c.key_hash s1
          (remove_key-idle c.key_hash s (h.quiet (sym m2 ∙ sym m3 ∙ on)))) in
      let ordered3 : Ordered s3.lifecycle s3.pending = rw (l3, p3, l2, p2) h.ordered in
      if_cases (Core maximum) (contains c.key_hash s3.active) s3
        (record s3 { queues = remove_if_empty c.key_hash s3.queues })
        (λ still. (slots3, served3, quiet3, ordered3))
        (λ gone. (
          (slots3.0, slots3.1, remove_if_empty-KeysDistinct c.key_hash s3.queues slots3.2),
          (λ k free idle. queue-remove_if_empty k c.key_hash s3.queues ∙ served3 k free idle),
          (λ on. ground (arith, remove_if_empty-all_empty c.key_hash s3.queues, quiet3 on)),
          ordered3,
        ))

  on_submission-IsConsistent :
      (sub : Submission) (s : Scheduler)
      → IsConsistent maximum s
      → IsConsistent maximum (on_submission iter maximum sub s)
  unfolding on_submission
  on_submission-IsConsistent sub s h =
      let s1 = record s { queues = push_back sub.key_hash sub.operation s.queues } in
      let s2 = dispatch_if_idle maximum sub.key_hash s1 in
      let s3 = dispatch_available iter maximum s2 in
      let slots2 = dispatch_if_idle-Slots maximum sub.key_hash s1 (
        h.slots.0,
        h.slots.1,
        push_back-KeysDistinct sub.key_hash sub.operation s.queues h.slots.2,
      ) in
      let (p2, m2, l2, st2) = dispatch_if_idle_rest maximum sub.key_hash s1 in
      let (p3, m3, l3, st3) = dispatch_available_rest iter maximum s2 in
      if_cases (IsConsistent maximum) (not (is_open s.lifecycle)) _ _
        (λ shut. refused-IsConsistent maximum _ s h)
        (λ o.
          if_cases (IsConsistent maximum) (s.maintenance_active || not (is_empty s.pending)) _ _
            (push_pending-IsConsistent maximum (PendingEvent.submission sub) s h refl
              (ground arith))
            (λ clear.
              check_shutdown-IsConsistent maximum s3
                (
                  dispatch_available-Slots iter order maximum s2 slots2,
                  dispatch_available-Served iter order maximum s2 slots2,
                  (λ on. absurd (ground arith)),
                  (rw (l3, p3, l2, p2) h.ordered),
                )
                (inl (ground arith))))

  on_completion-IsConsistent :
      (c : Completion) (s : Scheduler)
      → IsConsistent maximum s
      → IsConsistent maximum (on_completion iter maximum c s)
  unfolding on_completion
  on_completion-IsConsistent c s h =
      elim (Option-cases (delivered c.outcome (refill iter maximum c s))) [
        | inl e ↦ rw (e, on_completion) (panicked-IsConsistent maximum (refill iter maximum c s))
        | inr (t, e) ↦
            rw (e, on_completion)
              (settle-IsConsistent maximum t (
                delivered-cases (Core maximum) c.outcome (refill iter maximum c s) t e
                  (refill-Core c s h) (λ r. refill-Core c s h)))
      ]

  -- Handling any event in a consistent state, whatever order the HashMap has, leaves the state
  -- consistent.
  pub handle-IsConsistent :
      (e : CoordinatorEvent) (s : Scheduler)
      → IsConsistent maximum s
      → IsConsistent maximum (handle iter maximum e s)
  unfolding handle on_completion on_maintenance on_maintenance_completion on_flush on_close
  handle-IsConsistent (CoordinatorEvent.submission sub) s h = on_submission-IsConsistent sub s h
  handle-IsConsistent (CoordinatorEvent.completion c) s h = on_completion-IsConsistent c s h
  handle-IsConsistent (CoordinatorEvent.maintenance m) s h =
      if_cases (IsConsistent maximum) (not (is_open s.lifecycle)) _ _
        (λ shut. refused-IsConsistent maximum _ s h)
        (λ o.
          settle-IsConsistent maximum (push_pending (PendingEvent.maintenance m) s)
            (push_pending-Core maximum (PendingEvent.maintenance m) s h refl (ground arith)))
  handle-IsConsistent (CoordinatorEvent.maintenance_completion c) s h =
      settle-IsConsistent maximum
        (cleanup_reply c.outcome (record s { maintenance_active = false }))
        (cleaned-Core maximum c.outcome s h)
  handle-IsConsistent (CoordinatorEvent.flush to) s h =
      if_cases (IsConsistent maximum) (not (is_open s.lifecycle)) _ _
        (λ shut. refused-IsConsistent maximum _ s h)
        (λ o.
          settle-IsConsistent maximum (push_pending (PendingEvent.flush to) s)
            (push_pending-Core maximum (PendingEvent.flush to) s h refl (ground arith)))
  handle-IsConsistent (CoordinatorEvent.close to) s h =
      settle-IsConsistent maximum (close_in to s.lifecycle s)
        (close_in-Core maximum to s h s.lifecycle refl)
