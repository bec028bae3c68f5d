-- ===== src/Engine/Ledger/Dispatched.antt =====
-- src/engine/scheduler.rs: starting operations and maintenance loses no sending end.
use atomic_blob_storage.Base.{
  ℕ, zero, suc, ◌+◌, ◌≡◌, refl, sym, subst, ◌⊎◌, ◌∙◌, inl, inr, true, List, [], ◌∷◌, ◌++◌, length,
  Bool, Option, none, some, arith, All, All-append,
}
use atomic_blob_storage.Error.{StoreError, ok, err, Outcome}
use atomic_blob_storage.Engine.Operation.{Operation, Reply, deliver_error}
use atomic_blob_storage.Engine.Event.{
  MaintenanceSubmission, CoordinatorEvent, maintenance_completion,
}
use atomic_blob_storage.Engine.Workers.{
  WorkerPool, WorkerJob, operation_job, maintenance_job, start_workers, prepare, execute,
}
use atomic_blob_storage.Engine.Queues.{Queues, pop_front, remove_if_empty}
use atomic_blob_storage.Engine.Queues.Entries.{KeysDistinct, pop_front-KeysDistinct}
use atomic_blob_storage.Engine.Scheduler.Defs.{Scheduler, answer}
use atomic_blob_storage.Engine.Scheduler.Dispatch.{
  launch, start, dispatch_if_idle, dispatch_available, dispatch_maintenance,
}
use atomic_blob_storage.Engine.Scheduler.Cases.{dispatch_if_idle_cases, dispatch_rounds_keeps}
use atomic_blob_storage.Engine.Scheduler.Slots.{Slots, dispatch_if_idle-Slots}
use atomic_blob_storage.Engine.Scheduler.Fifo.{IsDeliverable}
use atomic_blob_storage.Engine.Ledger.{
  one_if, sum_of, sum_of-append, in_reply, in_operation, in_job, in_event, total, runs_key,
  completes_key, runs_maintenance, completes_maintenance, in_flight, maintenance_in_flight, Tallied,
}
use atomic_blob_storage.Engine.Ledger.Queued.{in-pop_front, in-remove_if_empty}

start_workers_rest :
    (n : ℕ) (spawns : List (Option Bool)) (p : WorkerPool)
    → ((start_workers n spawns p).1.jobs ≡ p.jobs)
      × ((start_workers n spawns p).1.sender_open ≡ p.sender_open)
unfolding start_workers
start_workers_rest zero spawns p = (refl, refl)
start_workers_rest (suc n) [] p = start_workers_rest n [] _
start_workers_rest (suc n) (some panics ∷ rest) p = start_workers_rest n rest _
start_workers_rest (suc n) (none ∷ rest) p = (refl, refl)

pub prepare_rest :
    (r : ℕ) (p : WorkerPool)
    → ((prepare r p).1.jobs ≡ p.jobs) × ((prepare r p).1.sender_open ≡ p.sender_open)
unfolding prepare
prepare_rest r p = start_workers_rest _ p.spawns p

-- The workers can be sent jobs, and what they send back can be delivered.
abbrev pub Sends : Scheduler → Type 0
Sends s = (s.pool.sender_open ≡ true) × All IsDeliverable s.channel

abbrev pub Balanced : (ℕ → ℕ) → Scheduler → Type 0
Balanced c s = Tallied s × Sends s × ((n : ℕ) → total n s ≡ c n)

pub deliver_error-sender :
    (n : ℕ) (op : Operation) (e : StoreError) → one_if n (deliver_error op e).0 ≡ in_operation n op
unfolding deliver_error
deliver_error-sender n (Operation.load s) e = refl
deliver_error-sender n (Operation.load_stream chunks ack s) e = refl
deliver_error-sender n (Operation.save payload s) e = refl
deliver_error-sender n (Operation.save_stream declared chunks s) e = refl
deliver_error-sender n (Operation.clear s) e = refl
deliver_error-sender n (Operation.inspect s) e = refl
deliver_error-sender n (Operation.quarantine s) e = refl

pub in_reply-error :
    (n : ℕ) (op : Operation) (e : StoreError) (replies : List (ℕ × Reply))
    → sum_of (in_reply n) (replies ++ (deliver_error op e ∷ []))
      ≡ sum_of (in_reply n) replies + in_operation n op
in_reply-error n op e replies = omega (
  arith,
  sum_of-append (in_reply n) replies (deliver_error op e ∷ []),
  deliver_error-sender n op e,
)

-- An operation that is started is sent to the workers, or answered with the pool's error.
pub start_ends :
    (k : ℕ) (op : Operation) (s : Scheduler)
    → let p' = (prepare (length s.active + 1) s.pool).1 in
      let s' = record s { pool = p'; started = s.started ++ ((k, op) ∷ []) } in
      (start k op s ≡ launch k op s')
      ⊎ ((e : StoreError) × (start k op s
            ≡ answer (deliver_error op e) (record s' { queues = remove_if_empty k s'.queues })))
unfolding start
start_ends k op s = go (prepare (length s.active + 1) s.pool).0
  where
    go :
        (o : Outcome (Unit {0}))
        → let p' = (prepare (length s.active + 1) s.pool).1 in
          let s' = record s { pool = p'; started = s.started ++ ((k, op) ∷ []) } in
          ((elim o as (λ _. Scheduler) [
            | ok _ ↦ launch k op s'
            | err e ↦
                answer (deliver_error op e) (record s' { queues = remove_if_empty k s'.queues })
          ])
            ≡ launch k op s')
          ⊎ ((e : StoreError) × ((elim o as (λ _. Scheduler) [
            | ok _ ↦ launch k op s'
            | err e ↦
                answer (deliver_error op e) (record s' { queues = remove_if_empty k s'.queues })
          ])
                ≡ answer (deliver_error op e) (record s' { queues = remove_if_empty k s'.queues })))
    go (ok u) = inl refl
    go (err e) = inr (e, refl)

launch-Balanced :
    (c : ℕ → ℕ) (k : ℕ) (op : Operation) (s : Scheduler)
    → Tallied s
    → Sends s
    → ((n : ℕ) → total n s + in_operation n op ≡ c n)
    → Balanced c (launch k op s)
unfolding launch execute
launch-Balanced c k op s tally sends sums =
    let job : WorkerJob = operation_job k op in
    (
      (
        (λ j. ground (arith, tally.0 j, sum_of-append (runs_key j) s.pool.jobs (job ∷ []))),
        ground (arith, sum_of-append runs_maintenance s.pool.jobs (job ∷ [])),
      ),
      ground arith,
      (λ n. ground (arith, sums n, sum_of-append (in_job n) s.pool.jobs (job ∷ []))),
    )

start-Balanced :
    (c : ℕ → ℕ) (k : ℕ) (op : Operation) (s : Scheduler)
    → KeysDistinct s.queues
    → Tallied s
    → Sends s
    → ((n : ℕ) → total n s + in_operation n op ≡ c n)
    → Balanced c (start k op s)
start-Balanced c k op s keys tally open_pool sums =
    let p' = (prepare (length s.active + 1) s.pool).1 in
    let (jobs, sends) = prepare_rest (length s.active + 1) s.pool in
    let s' = record s { pool = p'; started = s.started ++ ((k, op) ∷ []) } in
    elim (start_ends k op s) [
      | inl e ↦ subst (Balanced c) (sym e) (
          launch-Balanced c k op s' ((λ j. ground (arith, tally.0 j)), ground arith)
            (sends ∙ open_pool.0, open_pool.1) (λ n. ground (arith, sums n)))
      | inr (error, e) ↦ subst (Balanced c) (sym e) (
        ((λ j. ground (arith, tally.0 j)), ground arith),
        (sends ∙ open_pool.0, open_pool.1),
        (λ n. ground (
          arith,
          sums n,
          in-remove_if_empty n k s.queues keys,
          in_reply-error n op error s.replies,
        )),
      )
    ]

pub dispatch_if_idle-Balanced :
    (c : ℕ → ℕ) (maximum k : ℕ) (s : Scheduler)
    → KeysDistinct s.queues
    → Balanced c s
    → Balanced c (dispatch_if_idle maximum k s)
dispatch_if_idle-Balanced c maximum k s keys (tally, open_pool, sums) =
    dispatch_if_idle_cases (Balanced c) maximum k s (λ why. (tally, open_pool, sums))
      (λ op idle free e.
        start-Balanced c k op (record s { queues = pop_front k s.queues })
          (pop_front-KeysDistinct k s.queues keys) tally open_pool
          (λ n. omega (arith, sums n, in-pop_front n k op s.queues e)))

pub dispatch_available-Balanced :
    (c : ℕ → ℕ) (iter : Queues → Queues) (maximum : ℕ) (s : Scheduler)
    → Slots maximum s
    → Balanced c s
    → Balanced c (dispatch_available iter maximum s)
unfolding dispatch_available
dispatch_available-Balanced c iter maximum s slots h =
    (dispatch_rounds_keeps (λ t. Slots maximum t × Balanced c t) iter maximum _ s
      (λ k t (slots', h'). (
        dispatch_if_idle-Slots maximum k t slots',
        dispatch_if_idle-Balanced c maximum k t slots'.2 h',
      ))
      (slots, h)).1

maintenance-Sends :
    (m : MaintenanceSubmission) (s : Scheduler) → Sends s → Sends (dispatch_maintenance m s)
unfolding dispatch_maintenance execute
maintenance-Sends m s (open_pool, good) =
    let over : CoordinatorEvent = maintenance_completion (record { outcome = none }) in
    let (jobs, sends) = prepare_rest 1 s.pool in
    ground (arith, All-append IsDeliverable s.channel (over ∷ []) good (tt, tt))

-- The maintenance was taken off the pending events, and is marked as running.
pub dispatch_maintenance-Balanced :
    (c : ℕ → ℕ) (m : MaintenanceSubmission) (s : Scheduler)
    → ((k : ℕ) → sum_of (one_if k) s.active ≡ in_flight k s)
    → s.maintenance_active ≡ true
    → maintenance_in_flight s ≡ 0
    → Sends s
    → ((n : ℕ) → total n s + one_if n m.sender ≡ c n)
    → Balanced c (dispatch_maintenance m s)
unfolding dispatch_maintenance execute
dispatch_maintenance-Balanced c m s keys on none_runs open_pool sums =
    let job : WorkerJob = maintenance_job m in
    let over : CoordinatorEvent = maintenance_completion (record { outcome = none }) in
    let (jobs, sends) = prepare_rest 1 s.pool in
    (
      (
        (λ j. ground (
          arith,
          keys j,
          sum_of-append (runs_key j) s.pool.jobs (job ∷ []),
          sum_of-append (completes_key j) s.channel (over ∷ []),
        )),
        ground (
          arith,
          sum_of-append runs_maintenance s.pool.jobs (job ∷ []),
          sum_of-append completes_maintenance s.channel (over ∷ []),
        ),
      ),
      maintenance-Sends m s open_pool,
      (λ n. grind (
        arith,
        sums n,
        sum_of-append,
        sum_of-append (in_job n) s.pool.jobs (job ∷ []),
        sum_of-append (in_event n) s.channel (over ∷ []),
      )),
    )
