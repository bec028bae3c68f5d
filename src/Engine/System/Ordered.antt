-- ===== src/Engine/System/Ordered.antt =====
-- src/engine/scheduler.rs: the jobs of a key are sent to the workers in the order in which its operations
-- are started.
pub mod Handled
pub mod Run
use atomic_blob_storage.Base.{
  ℕ, zero, suc, ◌+◌, ◌≡◌, refl, ap, sym, subst, ◌∙◌, ◌⊎◌, inl, inr, Bool, true, false, ◌&&◌, not,
  List, [], ◌∷◌, ◌++◌, length, ◌==◌, Option, some, none, arith, append_assoc, append-nil,
  Bool-cases, if_cases, if◌then◌else◌,
}
use atomic_blob_storage.Error.{StoreError, ok, err}
use atomic_blob_storage.Engine.Operation.{Operation}
use atomic_blob_storage.Engine.Event.{MaintenanceSubmission, PendingEvent}
use atomic_blob_storage.Engine.Workers.{
  WorkerJob, operation_job, maintenance_job, prepare, execute, shutdown,
}
use atomic_blob_storage.Engine.Queues.{Queues, pop_front, remove_if_empty}
use atomic_blob_storage.Engine.Scheduler.Defs.{Scheduler, answer, busy, front_is_close}
use atomic_blob_storage.Engine.Scheduler.Dispatch.{
  launch, start, dispatch_if_idle, dispatch_available, dispatch_maintenance, advance,
  advance_pending_if_ready,
}
use atomic_blob_storage.Engine.Scheduler.Handle.{shut_down, check_shutdown}
use atomic_blob_storage.Engine.Scheduler.History.{started_of, started_of-append}
use atomic_blob_storage.Engine.Scheduler.Cases.{
  dispatch_if_idle_cases, dispatch_rounds_keeps, advance_cases,
}
use atomic_blob_storage.Engine.Ledger.Dispatched.{prepare_rest, start_ends}

-- The elements of a list stand in another one, in the same order.
pub data Sublist {A : Type 0} : List A → List A → Type 0 where
  none_left : Sublist [] []
  kept : (x : A) (xs ys : List A) → Sublist xs ys → Sublist (x ∷ xs) (x ∷ ys)
  left_out : (y : A) (xs ys : List A) → Sublist xs ys → Sublist xs (y ∷ ys)

-- Both lists go on with the same element, or the longer one alone.
pub Sublist-both :
    {A : Type 0} (xs ys : List A) (z : A)
    → Sublist xs ys
    → Sublist (xs ++ (z ∷ [])) (ys ++ (z ∷ []))
Sublist-both _ _ z none_left = kept z [] [] none_left
Sublist-both _ _ z (kept x xs ys h) = kept x _ _ (Sublist-both xs ys z h)
Sublist-both _ _ z (left_out y xs ys h) = left_out y _ _ (Sublist-both xs ys z h)

pub Sublist-more : {A : Type 0} (xs ys zs : List A) → Sublist xs ys → Sublist xs (ys ++ zs)
Sublist-more _ _ [] none_left = none_left
Sublist-more _ _ (z ∷ zs) none_left = left_out z [] zs (Sublist-more [] [] zs none_left)
Sublist-more _ _ zs (kept x xs ys h) = kept x xs _ (Sublist-more xs ys zs h)
Sublist-more _ _ zs (left_out y xs ys h) = left_out y xs _ (Sublist-more xs ys zs h)

-- The operations of a key among the jobs.
abbrev pub jobs_of : ℕ → List WorkerJob → List Operation
jobs_of k [] = []
jobs_of k (operation_job j op ∷ l) = let rest = jobs_of k l in if j == k then op ∷ rest else rest
jobs_of k (maintenance_job m ∷ l) = jobs_of k l

pub jobs_of-append :
    (k : ℕ) (xs ys : List WorkerJob) → jobs_of k (xs ++ ys) ≡ jobs_of k xs ++ jobs_of k ys
jobs_of-append k [] ys = refl
jobs_of-append k (operation_job j op ∷ xs) ys = ground (arith, jobs_of-append k xs ys)
jobs_of-append k (maintenance_job m ∷ xs) ys = jobs_of-append k xs ys

module _ (k : ℕ) (r : List Operation) where
  -- What has run of the key and then its jobs were started, in this order.
  abbrev pub Ordered : Scheduler → Type 0
  Ordered s = Sublist (r ++ jobs_of k s.pool.jobs) (started_of k s.started)

  -- An operation is started, and its job is sent or not.
  started-Ordered :
      (j : ℕ) (op : Operation) (jobs jobs' : List WorkerJob) (l : List (ℕ × Operation))
      → (jobs' ≡ jobs) ⊎ (jobs' ≡ jobs ++ (operation_job j op ∷ []))
      → Sublist (r ++ jobs_of k jobs) (started_of k l)
      → Sublist (r ++ jobs_of k jobs') (started_of k (l ++ ((j, op) ∷ [])))
  started-Ordered j op jobs jobs' l (inl e) h = elim (Bool-cases (j == k)) [
    | inl own ↦ rw (e, started_of-append k j op l, own) (Sublist-more _ _ (op ∷ []) h)
    | inr other ↦ rw (e, started_of-append k j op l, other) h
  ]
  started-Ordered j op jobs jobs' l (inr e) h = elim (Bool-cases (j == k)) [
    | inl own ↦
        let more : jobs_of k (jobs ++ (operation_job j op ∷ [])) ≡ jobs_of k jobs ++ (op ∷ []) =
          ground (arith, jobs_of-append k jobs (operation_job j op ∷ [])) in
        let joined = append_assoc r (jobs_of k jobs) (op ∷ []) in
        rw (e, started_of-append k j op l, own, more)
          (subst (λ x. Sublist x (started_of k l ++ (op ∷ []))) joined (Sublist-both _ _ op h))
    | inr other ↦
        let same : jobs_of k (jobs ++ (operation_job j op ∷ [])) ≡ jobs_of k jobs =
          ground
            (arith, jobs_of-append k jobs (operation_job j op ∷ []), append-nil (jobs_of k jobs)) in
        rw (e, started_of-append k j op l, other, same) h
  ]

  launch_jobs :
      (j : ℕ) (op : Operation) (s : Scheduler)
      → ((launch j op s).started ≡ s.started)
        × (((launch j op s).pool.jobs ≡ s.pool.jobs)
            ⊎ ((launch j op s).pool.jobs ≡ s.pool.jobs ++ (operation_job j op ∷ [])))
  unfolding launch execute
  launch_jobs j op s = ground arith

  start-Ordered : (j : ℕ) (op : Operation) (s : Scheduler) → Ordered s → Ordered (start j op s)
  start-Ordered j op s h =
      let p' = (prepare (length s.active + 1) s.pool).1 in
      let s' = record s { pool = p'; started = s.started ++ ((j, op) ∷ []) } in
      let same = (prepare_rest (length s.active + 1) s.pool).0 in
      elim (start_ends j op s) [
        | inl e ↦
            let (began, sent) = launch_jobs j op s' in
            rw (e, began)
              (started-Ordered j op p'.jobs (launch j op s').pool.jobs s.started sent (rw same h))
        | inr (error, e) ↦ rw e (started-Ordered j op s.pool.jobs p'.jobs s.started (inl same) h)
      ]

  pub dispatch_if_idle-Ordered :
      (maximum j : ℕ) (s : Scheduler) → Ordered s → Ordered (dispatch_if_idle maximum j s)
  dispatch_if_idle-Ordered maximum j s h =
      dispatch_if_idle_cases Ordered maximum j s (λ why. h)
        (λ op idle free e. start-Ordered j op (record s { queues = pop_front j s.queues }) h)

  pub dispatch_available-Ordered :
      (iter : Queues → Queues) (maximum : ℕ) (s : Scheduler)
      → Ordered s
      → Ordered (dispatch_available iter maximum s)
  unfolding dispatch_available
  dispatch_available-Ordered iter maximum s h =
      dispatch_rounds_keeps Ordered iter maximum _ s (λ j t. dispatch_if_idle-Ordered maximum j t) h

  -- Maintenance is no operation.
  maintenance_jobs :
      (m : MaintenanceSubmission) (s : Scheduler)
      → ((dispatch_maintenance m s).started ≡ s.started)
        × (jobs_of k (dispatch_maintenance m s).pool.jobs ≡ jobs_of k s.pool.jobs)
  unfolding dispatch_maintenance execute
  maintenance_jobs m s = ground (
    arith,
    prepare_rest 1 s.pool,
    jobs_of-append k s.pool.jobs (maintenance_job m ∷ []),
    append-nil (jobs_of k s.pool.jobs),
  )

  advance_pending_if_ready-Ordered :
      (maximum : ℕ) (s : Scheduler) → Ordered s → Ordered (advance_pending_if_ready maximum s)
  unfolding advance_pending_if_ready
  advance_pending_if_ready-Ordered maximum s h =
      if_cases Ordered s.maintenance_active s (advance maximum s.pending s) (λ on. h)
        (λ off.
          advance_cases Ordered Ordered maximum (λ t o. o)
            (λ t m rest o e idle.
              let t' = record t { pending = rest; maintenance_active = true } in
              let (began, same) = maintenance_jobs m t' in rw (began, same) o)
            (λ t sub rest o e. dispatch_if_idle-Ordered maximum sub.key_hash _ o)
            (λ t to rest o e idle. o) s.pending s refl h)

  pub shutdown_jobs : (s : Scheduler) → (shutdown s.pool).1.jobs ≡ s.pool.jobs
  unfolding shutdown
  shutdown_jobs s = ground arith

  pub check_shutdown-Ordered : (s : Scheduler) → Ordered s → Ordered (check_shutdown s)
  unfolding check_shutdown shut_down
  check_shutdown-Ordered s h =
      if_cases Ordered (front_is_close s.pending && (not (busy s) && not s.maintenance_active))
        (shut_down s) s (λ over. rw (shutdown_jobs s) h) (λ waits. h)

  pub settle-Ordered :
      (maximum : ℕ) (s : Scheduler)
      → Ordered s
      → Ordered (check_shutdown (advance_pending_if_ready maximum s))
  settle-Ordered maximum s h =
      check_shutdown-Ordered _ (advance_pending_if_ready-Ordered maximum s h)
