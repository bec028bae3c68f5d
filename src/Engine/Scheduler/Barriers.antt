-- ===== src/Engine/Scheduler/Barriers.antt =====
-- src/engine/scheduler.rs: flushes, maintenance and closes wait for what runs.
use atomic_blob_storage.Base.{
  ℕ, ◌≡◌, refl, ap, sym, ◌∙◌, ◌⊎◌, inl, inr, true, false, none, List, [], ◌∷◌, ◌++◌, ◌+◌, length,
  is_empty, arith, if_cases, subst, Bool-cases, append-nil, append_assoc,
}
use atomic_blob_storage.Error.{StoreError}
use atomic_blob_storage.Engine.Operation.{Operation, Reply, deliver_error}
use atomic_blob_storage.Engine.Event.{PendingEvent, CoordinatorEvent, completion}
use atomic_blob_storage.Engine.Workers.{WorkerJob, operation_job, prepare, execute}
use atomic_blob_storage.Engine.Ledger.Dispatched.{prepare_rest, start_ends}
use atomic_blob_storage.Engine.Queues.{push_back, pop_front}
use atomic_blob_storage.Engine.Scheduler.Defs.{Scheduler, busy}
use atomic_blob_storage.Engine.Scheduler.Dispatch.{
  launch, start, dispatch_if_idle, advance, advance_pending_if_ready,
}
use atomic_blob_storage.Engine.Scheduler.Cases.{
  dispatch_if_idle_cases, dispatch_if_idle_rest, start_cases,
}

-- The pending events that are not submissions.
abbrev pub barriers : List PendingEvent → List PendingEvent
barriers [] = []
barriers (PendingEvent.submission sub ∷ l) = barriers l
barriers (PendingEvent.maintenance m ∷ l) = PendingEvent.maintenance m ∷ barriers l
barriers (PendingEvent.flush to ∷ l) = PendingEvent.flush to ∷ barriers l
barriers (PendingEvent.close to ∷ l) = PendingEvent.close to ∷ barriers l

dispatch_if_idle-active :
    (maximum k : ℕ) (s : Scheduler)
    → is_empty s.active ≡ false
    → is_empty (dispatch_if_idle maximum k s).active ≡ false
dispatch_if_idle-active maximum k s h =
    dispatch_if_idle_cases (λ t. is_empty t.active ≡ false) maximum k s (λ why. h)
      (λ op idle free e. elim (start_cases k op (record s { queues = pop_front k s.queues })) [
        | inl (a, q) ↦ ap is_empty a
        | inr (a, q) ↦ ap is_empty a ∙ h
      ])

-- Operations that were taken up, with the replies, the jobs and the events that come of them: each is
-- sent to the workers, or answered with an error, or completed without an outcome, its job being lost.
pub data Taken
    : List (ℕ × Operation)
      → List (ℕ × Reply)
      → List WorkerJob
      → List CoordinatorEvent
      → Type 0 where
  nothing : Taken [] [] [] []
  sent :
      (k : ℕ) (op : Operation) (ops : List (ℕ × Operation)) (replies : List (ℕ × Reply))
      (jobs : List WorkerJob) (events : List CoordinatorEvent)
      → Taken ops replies jobs events
      → Taken ((k, op) ∷ ops) replies (operation_job k op ∷ jobs) events
  refused :
      (k : ℕ) (op : Operation) (e : StoreError) (ops : List (ℕ × Operation))
      (replies : List (ℕ × Reply)) (jobs : List WorkerJob) (events : List CoordinatorEvent)
      → Taken ops replies jobs events
      → Taken ((k, op) ∷ ops) (deliver_error op e ∷ replies) jobs events
  lost :
      (k : ℕ) (op : Operation) (ops : List (ℕ × Operation)) (replies : List (ℕ × Reply))
      (jobs : List WorkerJob) (events : List CoordinatorEvent)
      → Taken ops replies jobs events
      → Taken
          ((k, op) ∷ ops)
          replies
          jobs
          (completion (record { key_hash = k; outcome = none }) ∷ events)

Taken-append :
    (o o' : List (ℕ × Operation)) (r r' : List (ℕ × Reply)) (j j' : List WorkerJob)
    (v v' : List CoordinatorEvent)
    → Taken o r j v
    → Taken o' r' j' v'
    → Taken (o ++ o') (r ++ r') (j ++ j') (v ++ v')
Taken-append _ o' _ r' _ j' _ v' nothing h = h
Taken-append _ o' _ r' _ j' _ v' (sent k op o r j v more) h =
    sent k op _ _ _ _ (Taken-append o o' r r' j j' v v' more h)
Taken-append _ o' _ r' _ j' _ v' (refused k op e o r j v more) h =
    refused k op e _ _ _ _ (Taken-append o o' r r' j j' v v' more h)
Taken-append _ o' _ r' _ j' _ v' (lost k op o r j v more) h =
    lost k op _ _ _ _ (Taken-append o o' r r' j j' v v' more h)

-- What ran still runs, and to what was started, answered and sent nothing is added but what comes of
-- operations that were taken up.
abbrev pub Goes : Scheduler → Scheduler → Type 0
Goes s t =
    (front : List ℕ) × (ops : List (ℕ × Operation)) × (replies : List (ℕ × Reply)) × (jobs : List
      WorkerJob)
    × (events : List CoordinatorEvent) × (t.active ≡ front ++ s.active)
    × (t.started ≡ s.started ++ ops)
    × (t.replies ≡ s.replies ++ replies)
    × (t.pool.jobs ≡ s.pool.jobs ++ jobs)
    × (t.channel ≡ s.channel ++ events)
    × Taken ops replies jobs events

Goes-same : (s : Scheduler) → Goes s s
Goes-same s = (
  [],
  [],
  [],
  [],
  [],
  refl,
  sym (append-nil s.started),
  sym (append-nil s.replies),
  sym (append-nil s.pool.jobs),
  sym (append-nil s.channel),
  nothing,
)

Goes-trans : (s t u : Scheduler) → Goes s t → Goes t u → Goes s u
Goes-trans s t u (f, o, r, j, v, a, b, c, d, w, h) (f', o', r', j', v', a', b', c', d', w', h') = (
  f' ++ f,
  o ++ o',
  r ++ r',
  j ++ j',
  v ++ v',
  a' ∙ ap (λ l. f' ++ l) a ∙ sym (append_assoc f' f s.active),
  b' ∙ ap (λ l. l ++ o') b ∙ append_assoc s.started o o',
  c' ∙ ap (λ l. l ++ r') c ∙ append_assoc s.replies r r',
  d' ∙ ap (λ l. l ++ j') d ∙ append_assoc s.pool.jobs j j',
  w' ∙ ap (λ l. l ++ v') w ∙ append_assoc s.channel v v',
  Taken-append o o' r r' j j' v v' h h',
)

launch-Goes :
    (k : ℕ) (op : Operation) (s s' : Scheduler)
    → s'.active ≡ s.active
    → s'.started ≡ s.started ++ ((k, op) ∷ [])
    → s'.replies ≡ s.replies
    → s'.pool.jobs ≡ s.pool.jobs
    → s'.channel ≡ s.channel
    → Goes s (launch k op s')
unfolding launch execute
launch-Goes k op s s' a b c d w = elim (Bool-cases s'.pool.sender_open) [
  | inl open_pool ↦ (
    k ∷ [],
    (k, op) ∷ [],
    [],
    operation_job k op ∷ [],
    [],
    ground arith,
    ground arith,
    ground (arith, append-nil s.replies),
    ground arith,
    ground (arith, append-nil s.channel),
    sent k op [] [] [] [] nothing,
  )
  | inr shut ↦ (
    k ∷ [],
    (k, op) ∷ [],
    [],
    [],
    completion (record { key_hash = k; outcome = none }) ∷ [],
    ground arith,
    ground arith,
    ground (arith, append-nil s.replies),
    ground (arith, append-nil s.pool.jobs),
    ground arith,
    lost k op [] [] [] [] nothing,
  )
]

start-Goes : (k : ℕ) (op : Operation) (s : Scheduler) → Goes s (start k op s)
start-Goes k op s =
    let p' = (prepare (length s.active + 1) s.pool).1 in
    let s' = record s { pool = p'; started = s.started ++ ((k, op) ∷ []) } in
    let (jobs, sends) = prepare_rest (length s.active + 1) s.pool in
    elim (start_ends k op s) [
      | inl e ↦ subst (Goes s) (sym e) (launch-Goes k op s s' refl refl refl jobs refl)
      | inr (error, e) ↦ subst (Goes s) (sym e) (
        [],
        (k, op) ∷ [],
        deliver_error op error ∷ [],
        [],
        [],
        refl,
        refl,
        refl,
        jobs ∙ sym (append-nil s.pool.jobs),
        sym (append-nil s.channel),
        refused k op error [] [] [] [] nothing,
      )
    ]

dispatch_if_idle-Goes : (maximum k : ℕ) (s : Scheduler) → Goes s (dispatch_if_idle maximum k s)
dispatch_if_idle-Goes maximum k s =
    dispatch_if_idle_cases (Goes s) maximum k s (λ why. Goes-same s)
      (λ op idle free e. start-Goes k op (record s { queues = pop_front k s.queues }))

-- The same barriers wait, in their order, maintenance is as before, and otherwise operations are taken
-- up, at most.
abbrev pub Waits : Scheduler → Scheduler → Type 0
Waits s t =
    (barriers t.pending ≡ barriers s.pending)
    × (t.maintenance_active ≡ s.maintenance_active)
    × Goes s t

advance-Waits :
    (maximum : ℕ) (l : List PendingEvent) (s : Scheduler)
    → s.pending ≡ l
    → is_empty s.active ≡ false
    → Waits s (advance maximum l s)
unfolding advance
advance-Waits maximum [] s e h = (refl, refl, Goes-same s)
advance-Waits maximum (PendingEvent.maintenance m ∷ rest) s e h =
    let b : busy s ≡ true = ground arith in rw (b, advance) (refl, refl, Goes-same s)
advance-Waits maximum (PendingEvent.submission x ∷ rest) s e h =
    let s' = record s { pending = rest; queues = push_back x.key_hash x.operation s.queues } in
    let d = dispatch_if_idle maximum x.key_hash s' in
    let (p, m, l, st) = dispatch_if_idle_rest maximum x.key_hash s' in
    let a = dispatch_if_idle-active maximum x.key_hash s' h in
    let (b, m', goes) = advance-Waits maximum rest d p a in
    (
      b ∙ ap barriers p ∙ ap barriers (sym e),
      m' ∙ m,
      Goes-trans s d (advance maximum rest d) (dispatch_if_idle-Goes maximum x.key_hash s') goes,
    )
advance-Waits maximum (PendingEvent.flush to ∷ rest) s e h =
    let b : busy s ≡ true = ground arith in rw (b, advance) (refl, refl, Goes-same s)
advance-Waits maximum (PendingEvent.close to ∷ rest) s e h = (refl, refl, Goes-same s)

-- While an operation or maintenance runs, working off the pending events drops no barrier and
-- reorders none, leaves the maintenance flag as it is, and ends nothing that runs. Operations may
-- be taken up; each of them is sent to the workers, or answered with an error, or completed as
-- lost. No other reply, job, event or start is added: no flush is answered and no maintenance
-- begins.
pub advance_pending_if_ready-Waits :
    (maximum : ℕ) (s : Scheduler)
    → (is_empty s.active ≡ false) ⊎ (s.maintenance_active ≡ true)
    → Waits s (advance_pending_if_ready maximum s)
unfolding advance_pending_if_ready
advance_pending_if_ready-Waits maximum s runs =
    if_cases (Waits s) s.maintenance_active s (advance maximum s.pending s)
      (λ on. (refl, refl, Goes-same s))
      (λ off.
        advance-Waits maximum s.pending s refl
          (elim runs [ inl a ↦ a | inr on ↦ absurd (ground arith) ]))
