-- ===== src/Engine/Scheduler/Dispatch.antt =====
-- src/engine/scheduler.rs: dispatch_if_idle, dispatch_available, dispatch_maintenance and
-- advance_pending_if_ready.
use atomic_blob_storage.Base.{
  ℕ, zero, suc, ◌+◌, true, false, ◌||◌, List, [], ◌∷◌, ◌++◌, length, none, some, leb, ltb,
  if◌then◌else◌,
}
use atomic_blob_storage.Error.{ok, err}
use atomic_blob_storage.Engine.Operation.{Operation, cleaned, deliver_error}
use atomic_blob_storage.Engine.Event.{
  MaintenanceSubmission, PendingEvent, completion, maintenance_completion,
}
use atomic_blob_storage.Engine.Workers.{operation_job, maintenance_job, prepare, execute}
use atomic_blob_storage.Engine.Queues.{
  Queues, push_back, front, pop_front, remove_if_empty, contains, find_ready, queued,
}
use atomic_blob_storage.Engine.Scheduler.Defs.{Scheduler, answer, done_with, busy, send}

-- The job is sent to the workers; if that fails, a completion with no outcome stands for it.
unfoldable pub launch : ℕ → Operation → Scheduler → Scheduler
launch k op s =
    let (res, pool') = execute (operation_job k op) s.pool in
    let s' = record s { active = k ∷ s.active; pool = pool' } in
    elim res [ ok _ ↦ s' | err e ↦ send (completion (record { key_hash = k; outcome = none })) s' ]

-- An operation that was taken off its queue: a worker is made ready, or the error is delivered.
unfoldable pub start : ℕ → Operation → Scheduler → Scheduler
start k op s =
    let (res, pool') = prepare (length s.active + 1) s.pool in
    let s' = record s { pool = pool'; started = s.started ++ ((k, op) ∷ []) } in
    elim res [
      | ok _ ↦ launch k op s'
      | err e ↦ answer (deliver_error op e) (record s' { queues = remove_if_empty k s'.queues })
    ]

unfoldable pub dispatch_if_idle : ℕ → ℕ → Scheduler → Scheduler
dispatch_if_idle maximum k s =
    if contains k s.active || leb maximum (length s.active) then s else elim (front k s.queues) [
      | none ↦ s
      | some op ↦ start k op (record s { queues = pop_front k s.queues })
    ]

-- `iter` is the order in which the HashMap gives its entries.
unfoldable pub dispatch_rounds : (Queues → Queues) → ℕ → ℕ → Scheduler → Scheduler
dispatch_rounds iter maximum zero s = s
dispatch_rounds iter maximum (suc fuel) s = elim (ltb (length s.active) maximum) [
  | false ↦ s
  | true ↦ elim (find_ready s.active (iter s.queues)) [
    | none ↦ s
    | some k ↦ dispatch_rounds iter maximum fuel (dispatch_if_idle maximum k s)
  ]
]

unfoldable pub dispatch_available : (Queues → Queues) → ℕ → Scheduler → Scheduler
dispatch_available iter maximum s = dispatch_rounds iter maximum (queued s.queues) s

-- Where no worker can be made ready, the error is answered and the end of the maintenance announced.
unfoldable pub dispatch_maintenance : MaintenanceSubmission → Scheduler → Scheduler
dispatch_maintenance m s =
    let (res, pool') = prepare 1 s.pool in
    let (res', pool'') = execute (maintenance_job m) pool' in
    let over = maintenance_completion (record { outcome = none }) in
    elim res [
      | err e ↦ send over (answer (m.sender, cleaned (err e)) (record s { pool = pool' }))
      | ok _ ↦ elim res' [
        | ok _ ↦ record s { pool = pool'' }
        | err e ↦ send over (record s { pool = pool'' })
      ]
    ]

-- The loop over the pending events: it ends at a close, and at a barrier while anything runs.
unfoldable pub advance : ℕ → List PendingEvent → Scheduler → Scheduler
advance maximum [] s = s
advance maximum (PendingEvent.maintenance m ∷ rest) s =
    if busy s
    then s
    else dispatch_maintenance m (record s { pending = rest; maintenance_active = true })
advance maximum (PendingEvent.submission sub ∷ rest) s = advance maximum rest (
    dispatch_if_idle maximum sub.key_hash
      (record s { pending = rest; queues = push_back sub.key_hash sub.operation s.queues }))
advance maximum (PendingEvent.flush to ∷ rest) s =
    let after =
      advance maximum rest (answer (done_with to (ok tt)) (record s { pending = rest })) in
    if busy s then s else after
advance maximum (PendingEvent.close to ∷ rest) s = s

unfoldable pub advance_pending_if_ready : ℕ → Scheduler → Scheduler
advance_pending_if_ready maximum s = if s.maintenance_active then s else advance maximum s.pending s
