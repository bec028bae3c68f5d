-- ===== src/Engine/Scheduler/Core.antt =====
-- src/engine/scheduler.rs: what holds of the state while the pending events are worked off.
use atomic_blob_storage.Base.{
  ℕ, ◌≡◌, refl, ap, subst, ◌∙◌, ◌⊎◌, inl, inr, true, false, List, [], ◌∷◌, is_empty, arith,
  Bool-cases, if_cases,
}
use atomic_blob_storage.Error.{ok}
use atomic_blob_storage.Engine.Event.{Submission, PendingEvent, MaintenanceSubmission}
use atomic_blob_storage.Engine.Queues.{Queues, push_back}
use atomic_blob_storage.Engine.Queues.Laws.{all_empty-queue, front-queue}
use atomic_blob_storage.Engine.Queues.Entries.{push_back-KeysDistinct}
use atomic_blob_storage.Engine.Scheduler.Defs.{Scheduler, answer, busy, done_with, front_is_close}
use atomic_blob_storage.Engine.Scheduler.Dispatch.{
  dispatch_if_idle, dispatch_available, dispatch_maintenance, advance, advance_pending_if_ready,
}
use atomic_blob_storage.Engine.Scheduler.Cases.{
  dispatch_if_idle_cases, dispatch_rounds_keeps, dispatch_if_idle_rest, dispatch_maintenance_rest,
  advance_cases,
}
use atomic_blob_storage.Engine.Scheduler.Slots.{
  Slots, Served, dispatch_if_idle-Slots, dispatch_pushed-Served,
}
use atomic_blob_storage.Engine.Scheduler.Order.{Ordered, rest-Ordered}

-- Maintenance runs alone.
abbrev pub Quiet : Scheduler → Type 0
Quiet s = s.maintenance_active ≡ true → busy s ≡ false

abbrev pub Core : ℕ → Scheduler → Type 0
Core maximum s = Slots maximum s × Served maximum s × Quiet s × Ordered s.lifecycle s.pending

-- Where the loop over the pending events stops.
abbrev pub Settled : Scheduler → Type 0
Settled s =
    (is_empty s.pending ≡ true)
    ⊎ ((s.maintenance_active ≡ true) ⊎ ((busy s ≡ true) ⊎ (front_is_close s.pending ≡ true)))

abbrev Running : ℕ → Scheduler → Type 0
Running maximum s =
    Slots maximum s
    × Served maximum s
    × (s.maintenance_active ≡ false)
    × Ordered s.lifecycle s.pending

Running-maintenance :
    (maximum : ℕ) (s : Scheduler) (m : MaintenanceSubmission) (rest : List PendingEvent)
    → Running maximum s
    → s.pending ≡ PendingEvent.maintenance m ∷ rest
    → busy s ≡ false
    → Core maximum (dispatch_maintenance m (record s { pending = rest; maintenance_active = true }))
Running-maintenance maximum s m rest (slots, served, off, ordered) e idle =
    let s' = record s { pending = rest; maintenance_active = true } in
    let (q, a, p, ma, l, st) = dispatch_maintenance_rest m s' in
    (
      rw (q, a) slots,
      rw (q, a) served,
      rw (q, a) (λ on. idle),
      rw (l, p)
          (rest-Ordered (PendingEvent.maintenance m) s.lifecycle rest refl
            (subst (Ordered s.lifecycle) e ordered)),
    )

Running-submission :
    (maximum : ℕ) (s : Scheduler) (sub : Submission) (rest : List PendingEvent)
    → Running maximum s
    → s.pending ≡ PendingEvent.submission sub ∷ rest
    → Running maximum (
        dispatch_if_idle maximum sub.key_hash
          (record s { pending = rest; queues = push_back sub.key_hash sub.operation s.queues }))
Running-submission maximum s sub rest (slots, served, off, ordered) e =
    let s' = record s { pending = rest; queues = push_back sub.key_hash sub.operation s.queues } in
    let (p, ma, l, st) = dispatch_if_idle_rest maximum sub.key_hash s' in
    (
      dispatch_if_idle-Slots maximum sub.key_hash s'
          (slots.0, slots.1, push_back-KeysDistinct sub.key_hash sub.operation s.queues slots.2),
      dispatch_pushed-Served maximum sub.key_hash sub.operation (record s { pending = rest })
          served,
      ma ∙ off,
      rw (l, p)
          (rest-Ordered (PendingEvent.submission sub) s.lifecycle rest refl
            (subst (Ordered s.lifecycle) e ordered)),
    )

pub advance_pending_if_ready-Core :
    (maximum : ℕ) (s : Scheduler)
    → Core maximum s
    → Core maximum (advance_pending_if_ready maximum s)
unfolding advance_pending_if_ready
advance_pending_if_ready-Core maximum s h =
    if_cases (Core maximum) s.maintenance_active s (advance maximum s.pending s) (λ on. h)
      (λ off.
        advance_cases (Running maximum) (Core maximum) maximum
          (λ t (a, b, c, d). (a, b, (λ on. absurd (ground arith)), d)) (Running-maintenance maximum)
          (Running-submission maximum)
          (λ t to rest (a, b, c, d) e idle. (
            a,
            b,
            c,
            rest-Ordered (PendingEvent.flush to) t.lifecycle rest refl
                (subst (Ordered t.lifecycle) e d),
          ))
          s.pending s refl (h.0, h.1, off, h.3))

advance-Settled :
    (maximum : ℕ) (l : List PendingEvent) (s : Scheduler)
    → s.pending ≡ l
    → Settled (advance maximum l s)
unfolding advance
advance-Settled maximum [] s e = inl (ap is_empty e)
advance-Settled maximum (PendingEvent.maintenance m ∷ rest) s e = elim (Bool-cases (busy s)) [
  | inl b ↦ rw (b, advance) (inr (inr (inl b)))
  | inr b ↦
      let (q, a, p, ma, l, st) =
        dispatch_maintenance_rest m (record s { pending = rest; maintenance_active = true }) in
      rw (b, advance) (inr (inl ma))
]
advance-Settled maximum (PendingEvent.submission x ∷ rest) s e =
    let s' = record s { pending = rest; queues = push_back x.key_hash x.operation s.queues } in
    advance-Settled maximum rest (dispatch_if_idle maximum x.key_hash s')
      (dispatch_if_idle_rest maximum x.key_hash s').0
advance-Settled maximum (PendingEvent.flush to ∷ rest) s e = elim (Bool-cases (busy s)) [
  | inl b ↦ rw (b, advance) (inr (inr (inl b)))
  | inr b ↦
      rw (b, advance)
        (advance-Settled maximum rest (answer (done_with to (ok tt)) (record s { pending = rest }))
          refl)
]
advance-Settled maximum (PendingEvent.close to ∷ rest) s e = inr (inr (inr (ap front_is_close e)))

pub advance_pending_if_ready-Settled :
    (maximum : ℕ) (s : Scheduler) → Settled (advance_pending_if_ready maximum s)
unfolding advance_pending_if_ready
advance_pending_if_ready-Settled maximum s =
    if_cases Settled s.maintenance_active s (advance maximum s.pending s) (λ on. inr (inl on))
      (λ off. advance-Settled maximum s.pending s refl)

-- Nothing starts where nothing is queued.
pub dispatch_if_idle-idle :
    (maximum k : ℕ) (s : Scheduler) → busy s ≡ false → busy (dispatch_if_idle maximum k s) ≡ false
dispatch_if_idle-idle maximum k s h =
    dispatch_if_idle_cases (λ t. busy t ≡ false) maximum k s (λ why. h)
      (λ op idle free e.
        let waits = front-queue k s.queues op e in
        let empty = all_empty-queue s.queues k (ground arith) in absurd (ground arith))

pub dispatch_available-idle :
    (iter : Queues → Queues) (maximum : ℕ) (s : Scheduler)
    → busy s ≡ false
    → busy (dispatch_available iter maximum s) ≡ false
unfolding dispatch_available
dispatch_available-idle iter maximum s =
    dispatch_rounds_keeps (λ t. busy t ≡ false) iter maximum _ s (dispatch_if_idle-idle maximum)
