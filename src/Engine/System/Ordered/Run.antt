-- ===== src/Engine/System/Ordered/Run.antt =====
-- src/engine: the operations of a key are run one at a time, in the order in which they were accepted.
use atomic_blob_storage.Base.{
  ℕ, ◌≤◌, ◌<◌, ◌≡◌, refl, sym, subst, inl, inr, Bool, List, [], ◌∷◌, ◌++◌, length, ◌==◌, Option,
  arith, append_assoc, append-nil, Bool-cases,
}
use atomic_blob_storage.Engine.Operation.{Operation}
use atomic_blob_storage.Engine.Event.{CoordinatorEvent}
use atomic_blob_storage.Engine.Workers.{WorkerJob, operation_job, maintenance_job, new_pool}
use atomic_blob_storage.Engine.Queues.{Queues}
use atomic_blob_storage.Engine.Queues.Entries.{IsHashOrder}
use atomic_blob_storage.Engine.Scheduler.Defs.{initial}
use atomic_blob_storage.Engine.Scheduler.History.{started_of, started_of-append, history}
use atomic_blob_storage.Engine.Scheduler.Reach.{Reachable-IsConsistent}
use atomic_blob_storage.Engine.Ledger.{sum_of, sum_of-append, runs_key}
use atomic_blob_storage.Engine.Ledger.Replied.{Distinct-sum}
use atomic_blob_storage.Engine.System.{
  Storage, System, Runs, requested, worked, crashed, begins, without_job, caught,
}
use atomic_blob_storage.Engine.System.Answers.{Runs-Accounts}
use atomic_blob_storage.Engine.System.Ordered.{
  Sublist, none_left, Sublist-more, jobs_of, jobs_of-append, Ordered,
}
use atomic_blob_storage.Engine.System.Ordered.Handled.{round-Ordered, disconnected-Ordered}

length-jobs_of : (k : ℕ) (l : List WorkerJob) → length (jobs_of k l) ≡ sum_of (runs_key k) l
length-jobs_of k [] = refl
length-jobs_of k (operation_job j op ∷ l) = ground (arith, length-jobs_of k l)
length-jobs_of k (maintenance_job m ∷ l) = omega (arith, length-jobs_of k l)

-- Where a key has one job, there is none before it.
none_before :
    (k : ℕ) (op : Operation) (before after : List WorkerJob)
    → sum_of (runs_key k) (before ++ (operation_job k op ∷ after)) ≤ 1
    → jobs_of k before ≡ []
none_before k op [] after h = refl
none_before k op (operation_job j op' ∷ before) after h = elim (Bool-cases (j == k)) [
  | inl own ↦
      absurd (ground (arith, h, sum_of-append (runs_key k) before (operation_job k op ∷ after)))
  | inr other ↦ let ih = none_before k op before after (ground (arith, h)) in ground arith
]
none_before k op (maintenance_job m ∷ before) after h =
    none_before k op before after (omega (arith, h))

-- A job that is run goes from the jobs to what has run.
ran_of :
    (k : ℕ) (ran : List (ℕ × Operation)) (before after : List WorkerJob) (job : WorkerJob)
    → sum_of (runs_key k) (before ++ (job ∷ after)) ≤ 1
    → started_of k (ran ++ begins job) ++ jobs_of k (before ++ after)
      ≡ started_of k ran ++ jobs_of k (before ++ (job ∷ after))
ran_of k ran before after (maintenance_job m) h = ground (
  arith,
  append-nil ran,
  jobs_of-append k before after,
  jobs_of-append k before (maintenance_job m ∷ after),
)
ran_of k ran before after (operation_job j op) h = elim (Bool-cases (j == k)) [
  | inr other ↦ ground (
    arith,
    started_of-append k j op ran,
    jobs_of-append k before after,
    jobs_of-append k before (operation_job j op ∷ after),
  )
  | inl own ↦
      let same : j ≡ k = ground arith in
      let first =
        none_before k op before after
          (subst (λ i. sum_of (runs_key k) (before ++ (operation_job i op ∷ after)) ≤ 1) same h) in
      ground (
        arith,
        started_of-append k j op ran,
        jobs_of-append k before after,
        jobs_of-append k before (operation_job j op ∷ after),
        first,
        append_assoc (started_of k ran) (op ∷ []) (jobs_of k after),
      )
]

initial-Ordered :
    (k maximum : ℕ) (spawns : List (Option Bool)) → Ordered k [] (initial (new_pool maximum spawns))
unfolding initial new_pool
initial-Ordered k maximum spawns = none_left

module _ (iter : Queues → Queues) (order : IsHashOrder iter) (maximum : ℕ) {W : Type 0}
    (storage : Storage W) (some_slot : 0 < maximum) (k : ℕ) where
  one_job :
      (y : System W) → Runs storage iter maximum y → sum_of (runs_key k) y.scheduler.pool.jobs ≤ 1
  one_job y r =
      let (reached, h, sums) = Runs-Accounts iter order maximum storage some_slot y r in
      let consistent = (Reachable-IsConsistent iter order maximum y.scheduler reached).0 in
      omega (arith, h.tallied.0 k, Distinct-sum k y.scheduler.active consistent.slots.1)

  run-Ordered :
      (y : System W) (before after : List WorkerJob) (job : WorkerJob) (e : CoordinatorEvent)
      → Runs storage iter maximum y
      → y.scheduler.pool.jobs ≡ before ++ (job ∷ after)
      → Ordered k (started_of k y.ran) y.scheduler
      → Ordered k (started_of k (y.ran ++ begins job)) (without_job (before ++ after) e y.scheduler)
  run-Ordered y before after job e r place h =
      let few = subst (λ l. sum_of (runs_key k) l ≤ 1) place (one_job y r) in
      let ordered =
        subst (λ l. Sublist (started_of k y.ran ++ jobs_of k l) (started_of k y.scheduler.started))
          place h in
      subst (λ l. Sublist l (started_of k y.scheduler.started))
        (sym (ran_of k y.ran before after job few)) ordered

  Runs-Ordered :
      (y : System W) → Runs storage iter maximum y → Ordered k (started_of k y.ran) y.scheduler
  Runs-Ordered _ (Runs.opened spawns w) = initial-Ordered k maximum spawns
  Runs-Ordered _ (requested y e to r on asks) = Runs-Ordered y r
  Runs-Ordered _ (Runs.handled y r) =
      round-Ordered k (started_of k y.ran) iter maximum y.scheduler (Runs-Ordered y r)
  Runs-Ordered _ (worked y before after job e w r place did) =
      run-Ordered y before after job e r place (Runs-Ordered y r)
  Runs-Ordered _ (crashed y before after job w r place) =
      run-Ordered y before after job (caught job) r place (Runs-Ordered y r)
  Runs-Ordered _ (Runs.abandoned y r on none_sent no_jobs) =
      disconnected-Ordered k (started_of k y.ran) y.scheduler (Runs-Ordered y r)

  -- With a positive maximum, whatever order the HashMap has, in every run of the coordinator with
  -- its clients and workers: what workers have run of a key, and then its job that is left, stand
  -- in this order in the key's history of accepted operations; and a key never has more than one
  -- job, so that its operations are run one at a time, in the order in which they were accepted.
  pub Runs-Sublist :
      (y : System W)
      → Runs storage iter maximum y
      → Sublist (started_of k y.ran ++ jobs_of k y.scheduler.pool.jobs) (history k y.scheduler)
        × (length (jobs_of k y.scheduler.pool.jobs) ≤ 1)
  Runs-Sublist y r = (
    Sublist-more _ _ _ (Runs-Ordered y r),
    omega (arith, length-jobs_of k y.scheduler.pool.jobs, one_job y r),
  )
