-- ===== src/Engine/Scheduler/Cases.antt =====
-- src/engine/scheduler.rs: how a property passes through the dispatching and through each event.
use atomic_blob_storage.Base.{
  ℕ, zero, suc, ◌≤◌, ◌<◌, ◌≡◌, refl, ◌∙◌, ◌⊎◌, inl, inr, true, false, ◌||◌, List, [], ◌∷◌, some,
  leb, ltb, arith, length, Bool-cases, Option-cases,
}
use atomic_blob_storage.Error.{ok}
use atomic_blob_storage.Engine.Operation.{Operation}
use atomic_blob_storage.Engine.Event.{Submission, PendingEvent, MaintenanceSubmission}
use atomic_blob_storage.Engine.Workers.{execute}
use atomic_blob_storage.Engine.Queues.{
  Queues, queue, front, pop_front, push_back, remove_if_empty, contains, find_ready,
}
use atomic_blob_storage.Engine.Queues.Laws.{front-none}
use atomic_blob_storage.Engine.Scheduler.Defs.{Scheduler, answer, busy, done_with}
use atomic_blob_storage.Engine.Scheduler.Dispatch.{
  launch, start, dispatch_if_idle, dispatch_rounds, dispatch_available, dispatch_maintenance,
  advance,
}

-- Why nothing is dispatched for a key.
abbrev pub Refusal : ℕ → ℕ → Scheduler → Type 0
Refusal maximum k s =
    (contains k s.active ≡ true) ⊎ ((maximum ≤ length s.active) ⊎ (queue k s.queues ≡ []))

pub dispatch_if_idle_cases {ℓ} :
    (P : Scheduler → Type ℓ) (maximum k : ℕ) (s : Scheduler)
    → (Refusal maximum k s → P s)
    → ((op : Operation)
        → contains k s.active ≡ false
        → length s.active < maximum
        → front k s.queues ≡ some op
        → P (start k op (record s { queues = pop_front k s.queues })))
    → P (dispatch_if_idle maximum k s)
unfolding dispatch_if_idle
dispatch_if_idle_cases P maximum k s same begun =
    elim (Bool-cases (contains k s.active || leb maximum (length s.active))) [
      | inl shut ↦ rw (shut, dispatch_if_idle) (same (ground arith))
      | inr free ↦ elim (Option-cases (front k s.queues)) [
        | inl e ↦ rw (free, e, dispatch_if_idle) (same (inr (inr (front-none k s.queues e))))
        | inr (op, e) ↦ rw (free, e, dispatch_if_idle) (begun op (ground arith) (ground arith) e)
      ]
    ]

pub dispatch_rounds_keeps {ℓ} :
    (P : Scheduler → Type ℓ) (iter : Queues → Queues) (maximum fuel : ℕ) (s : Scheduler)
    → ((k : ℕ) (t : Scheduler) → P t → P (dispatch_if_idle maximum k t))
    → P s
    → P (dispatch_rounds iter maximum fuel s)
unfolding dispatch_rounds
dispatch_rounds_keeps P iter maximum zero s keep h = h
dispatch_rounds_keeps P iter maximum (suc fuel) s keep h =
    elim (Bool-cases (ltb (length s.active) maximum)) [
      | inr full ↦ rw (full, dispatch_rounds) h
      | inl free ↦ elim (Option-cases (find_ready s.active (iter s.queues))) [
        | inl e ↦ rw (free, e, dispatch_rounds) h
        | inr (k, e) ↦
            rw (free, e, dispatch_rounds)
              (dispatch_rounds_keeps P iter maximum fuel (dispatch_if_idle maximum k s) keep
                (keep k s h))
      ]
    ]

-- Starting an operation leaves the rest of the state alone.
pub start_rest :
    (k : ℕ) (op : Operation) (s : Scheduler)
    → ((start k op s).pending ≡ s.pending)
      × ((start k op s).maintenance_active ≡ s.maintenance_active)
      × ((start k op s).lifecycle ≡ s.lifecycle)
      × ((start k op s).stopped ≡ s.stopped)
unfolding start launch
start_rest k op s = ground arith

pub dispatch_if_idle_rest :
    (maximum k : ℕ) (s : Scheduler)
    → ((dispatch_if_idle maximum k s).pending ≡ s.pending)
      × ((dispatch_if_idle maximum k s).maintenance_active ≡ s.maintenance_active)
      × ((dispatch_if_idle maximum k s).lifecycle ≡ s.lifecycle)
      × ((dispatch_if_idle maximum k s).stopped ≡ s.stopped)
dispatch_if_idle_rest maximum k s =
    dispatch_if_idle_cases
      (λ t.
        (t.pending ≡ s.pending)
        × (t.maintenance_active ≡ s.maintenance_active)
        × (t.lifecycle ≡ s.lifecycle)
        × (t.stopped ≡ s.stopped))
      maximum k s (λ why. (refl, refl, refl, refl))
      (λ op idle free e. start_rest k op (record s { queues = pop_front k s.queues }))

pub dispatch_available_rest :
    (iter : Queues → Queues) (maximum : ℕ) (s : Scheduler)
    → ((dispatch_available iter maximum s).pending ≡ s.pending)
      × ((dispatch_available iter maximum s).maintenance_active ≡ s.maintenance_active)
      × ((dispatch_available iter maximum s).lifecycle ≡ s.lifecycle)
      × ((dispatch_available iter maximum s).stopped ≡ s.stopped)
unfolding dispatch_available
dispatch_available_rest iter maximum s =
    dispatch_rounds_keeps
      (λ t.
        (t.pending ≡ s.pending)
        × (t.maintenance_active ≡ s.maintenance_active)
        × (t.lifecycle ≡ s.lifecycle)
        × (t.stopped ≡ s.stopped))
      iter maximum _ s
      (λ k t (p, ma, l, st).
        let (p', ma', l', st') = dispatch_if_idle_rest maximum k t in
        (p' ∙ p, ma' ∙ ma, l' ∙ l, st' ∙ st))
      (refl, refl, refl, refl)

-- The two ends of starting an operation: its key becomes active, or the operation is answered.
pub start_cases :
    (k : ℕ) (op : Operation) (s : Scheduler)
    → (((start k op s).active ≡ k ∷ s.active) × ((start k op s).queues ≡ s.queues))
      ⊎ (((start k op s).active ≡ s.active) × ((start k op s).queues ≡ remove_if_empty k s.queues))
unfolding start launch execute
start_cases k op s = ground arith

pub dispatch_maintenance_rest :
    (m : MaintenanceSubmission) (s : Scheduler)
    → ((dispatch_maintenance m s).queues ≡ s.queues)
      × ((dispatch_maintenance m s).active ≡ s.active)
      × ((dispatch_maintenance m s).pending ≡ s.pending)
      × ((dispatch_maintenance m s).maintenance_active ≡ s.maintenance_active)
      × ((dispatch_maintenance m s).lifecycle ≡ s.lifecycle)
      × ((dispatch_maintenance m s).stopped ≡ s.stopped)
unfolding dispatch_maintenance
dispatch_maintenance_rest m s = ground arith

-- The loop over the pending events, for a property `P` that holds while it runs and `Q` at its end.
pub advance_cases {ℓ κ} :
    (P : Scheduler → Type ℓ) (Q : Scheduler → Type κ) (maximum : ℕ)
    → ((s : Scheduler) → P s → Q s)
    → ((s : Scheduler) (m : MaintenanceSubmission) (rest : List PendingEvent)
        → P s
        → s.pending ≡ PendingEvent.maintenance m ∷ rest
        → busy s ≡ false
        → Q (dispatch_maintenance m (record s { pending = rest; maintenance_active = true })))
    → ((s : Scheduler) (sub : Submission) (rest : List PendingEvent)
        → P s
        → s.pending ≡ PendingEvent.submission sub ∷ rest
        → P (
            dispatch_if_idle maximum sub.key_hash (record s {
              pending = rest;
              queues = push_back sub.key_hash sub.operation s.queues;
            })))
    → ((s : Scheduler) (to : ℕ) (rest : List PendingEvent)
        → P s
        → s.pending ≡ PendingEvent.flush to ∷ rest
        → busy s ≡ false
        → P (answer (done_with to (ok tt)) (record s { pending = rest })))
    → (l : List PendingEvent) (s : Scheduler) → s.pending ≡ l
    → P s
    → Q (advance maximum l s)
unfolding advance
advance_cases P Q maximum stop maint sub flush [] s e h = stop s h
advance_cases P Q maximum stop maint sub flush (PendingEvent.maintenance m ∷ rest) s e h =
    elim (Bool-cases (busy s)) [
      | inl b ↦ rw (b, advance) (stop s h)
      | inr b ↦ rw (b, advance) (maint s m rest h e b)
    ]
advance_cases P Q maximum stop maint sub flush (PendingEvent.submission x ∷ rest) s e h =
    let s' = record s { pending = rest; queues = push_back x.key_hash x.operation s.queues } in
    advance_cases P Q maximum stop maint sub flush rest (dispatch_if_idle maximum x.key_hash s')
      (dispatch_if_idle_rest maximum x.key_hash s').0 (sub s x rest h e)
advance_cases P Q maximum stop maint sub flush (PendingEvent.flush to ∷ rest) s e h =
    elim (Bool-cases (busy s)) [
      | inl b ↦ rw (b, advance) (stop s h)
      | inr b ↦
          rw (b, advance)
            (advance_cases P Q maximum stop maint sub flush rest
              (answer (done_with to (ok tt)) (record s { pending = rest })) refl
              (flush s to rest h e b))
    ]
advance_cases P Q maximum stop maint sub flush (PendingEvent.close to ∷ rest) s e h = stop s h
