-- ===== src/Engine/System/Answers.antt =====
-- src/engine: every request is answered once.
use atomic_blob_storage.Base.{
  ℕ, ◌+◌, ◌<◌, ◌≡◌, refl, ap, subst, inl, inr, Bool, true, false, List, [], ◌∷◌, ◌++◌, Option, some,
  is_empty, arith, All, Bool-cases, if_cases,
}
use atomic_blob_storage.Engine.Event.{CoordinatorEvent, PendingEvent}
use atomic_blob_storage.Engine.Workers.{
  WorkerPool, WorkerJob, operation_job, maintenance_job, new_pool, shutdown,
}
use atomic_blob_storage.Engine.Queues.{Queues, queue}
use atomic_blob_storage.Engine.Queues.Entries.{IsHashOrder, queue-all_empty}
use atomic_blob_storage.Engine.Scheduler.Defs.{Scheduler, initial, send, busy}
use atomic_blob_storage.Engine.Scheduler.Handle.{round, receive, handle, disconnected}
use atomic_blob_storage.Engine.Scheduler.Fifo.{IsDeliverable}
use atomic_blob_storage.Engine.Scheduler.Reach.{
  Reachable, sent, taken, Reachable-IsConsistent, channel-IsConsistent,
}
use atomic_blob_storage.Engine.Ledger.{
  one_if, sum_of, sum_of-append, in_pending, in_job, in_event, answered, owed, total, runs_key,
  completes_key, runs_maintenance, completes_maintenance,
}
use atomic_blob_storage.Engine.Ledger.Settled.{all_empty-sum}
use atomic_blob_storage.Engine.Ledger.Handled.{handle-Audited}
use atomic_blob_storage.Engine.System.{
  Storage, caught, job_sender, requester, System, without_job, Runs, requested, worked, crashed,
}
use atomic_blob_storage.Engine.System.Jobs.{Returns, run_job-Returns, caught-Returns}
use atomic_blob_storage.Engine.System.Steps.{
  Kept, Audited-Kept, initial-Kept, requested-Kept, without_job-Kept, job-runs,
}

-- Between two steps: the scheduler's state can be reached, its books are kept, and what was asked is
-- answered, still owed, or dropped by a panic.
abbrev pub Accounts : {W : Type 0} → (Queues → Queues) → ℕ → System W → Type 0
Accounts iter maximum y =
    Reachable iter maximum y.scheduler
    × Kept y.scheduler
    × ((n : ℕ) → total n y.scheduler + sum_of (one_if n) y.dropped ≡ sum_of (one_if n) y.asked)

is_empty-active : (l : List ℕ) → ((k : ℕ) → sum_of (one_if k) l ≡ 0) → l ≡ []
is_empty-active [] h = refl
is_empty-active (k ∷ l) h = absurd (ground (arith, h k))

is_empty-pending : (n : ℕ) (l : List PendingEvent) → is_empty l ≡ true → sum_of (in_pending n) l ≡ 0
is_empty-pending n [] h = refl
is_empty-pending n (p ∷ l) h = absurd (ground arith)

in_job-sender : (n : ℕ) (job : WorkerJob) → in_job n job ≡ one_if n (job_sender job)
in_job-sender n (operation_job k op) = refl
in_job-sender n (maintenance_job m) = refl

initial-sums :
    (maximum : ℕ) (spawns : List (Option Bool)) (n : ℕ)
    → total n (initial (new_pool maximum spawns)) + 0 ≡ 0
unfolding initial new_pool
initial-sums maximum spawns n = refl

shutdown-jobs : (p : WorkerPool) → (shutdown p).1.jobs ≡ p.jobs
unfolding shutdown
shutdown-jobs p = ground arith

module _ (iter : Queues → Queues) (order : IsHashOrder iter) (maximum : ℕ) where
  round-Kept :
      (s : Scheduler)
      → Reachable iter maximum s
      → Kept s
      → Kept (round iter maximum s) × ((n : ℕ) → total n (round iter maximum s) ≡ total n s)
  unfolding round
  round-Kept s r h =
      if_cases (λ t. Kept t × ((n : ℕ) → total n t ≡ total n s)) s.stopped s _
        (λ over. (h, (λ n. refl))) (λ on. go s.channel refl on)
    where
      go :
          (l : List CoordinatorEvent)
          → s.channel ≡ l
          → s.stopped ≡ false
          → Kept (receive iter maximum l s)
            × ((n : ℕ) → total n (receive iter maximum l s) ≡ total n s)
      go [] e on = (h, (λ n. refl))
      go (x ∷ l) e on =
          let s' = record s { channel = l } in
          let (pool, good) = h.sends on in
          let good' : All IsDeliverable (x ∷ l) = subst (All IsDeliverable) e good in
          let audited =
            handle-Audited iter order maximum (λ n. total n s) x s'
              (channel-IsConsistent maximum l s (Reachable-IsConsistent iter order maximum s r).0)
              on good'.0
              (
                (λ k. omega (arith, h.tallied.0 k, ap (sum_of (completes_key k)) e)),
                omega (arith, h.tallied, ap (sum_of completes_maintenance) e),
                (pool, good'.1),
                (λ n. omega (arith, ap (sum_of (in_event n)) e)),
              ) in
          (Audited-Kept (λ n. total n s) (handle iter maximum x s') audited, audited.sums)

  -- With nothing in the channel and no job, nothing is queued and nothing pending.
  nothing_owed :
      (s : Scheduler)
      → Reachable iter maximum s
      → Kept s
      → 0 < maximum
      → s.channel ≡ []
      → s.pool.jobs ≡ []
      → (n : ℕ) → owed n s ≡ 0
  nothing_owed s r h some_slot none_sent no_jobs n =
      let sound = (Reachable-IsConsistent iter order maximum s r).0 in
      let idle : s.active ≡ [] = is_empty-active s.active (λ k. omega (
        arith,
        h.tallied.0 k,
        ap (sum_of (runs_key k)) no_jobs,
        ap (sum_of (completes_key k)) none_sent,
      )) in
      let off : s.maintenance_active ≡ false = ground (
        arith,
        h.tallied.1,
        ap (sum_of runs_maintenance) no_jobs,
        ap (sum_of completes_maintenance) none_sent,
      ) in
      let none_queued : (k : ℕ) → queue k s.queues ≡ [] =
        λ k. sound.served k (rw idle some_slot) (rw idle refl) in
      let all_idle = queue-all_empty s.queues sound.slots.2 none_queued in
      let idle_now : busy s ≡ false = ground (arith, ap is_empty idle) in
      let none_waits : is_empty s.pending ≡ true = elim (Bool-cases (is_empty s.pending)) [
        | inl e ↦ e
        | inr waits ↦ elim (sound.lively waits) [
          | inl on ↦ absurd (ground arith)
          | inr b ↦ absurd (ground arith)
        ]
      ] in
      omega (
        arith,
        all_empty-sum n s.queues all_idle,
        is_empty-pending n s.pending none_waits,
        ap (sum_of (in_job n)) no_jobs,
        ap (sum_of (in_event n)) none_sent,
      )

  disconnected-Kept :
      (s : Scheduler)
      → Reachable iter maximum s
      → Kept s
      → 0 < maximum
      → s.channel ≡ []
      → s.pool.jobs ≡ []
      → Kept (disconnected s) × ((n : ℕ) → total n (disconnected s) ≡ total n s)
  unfolding disconnected
  disconnected-Kept s r h some_slot none_sent no_jobs =
      let kept = shutdown-jobs s.pool in
      let same : (n : ℕ)
          → sum_of (in_job n) (disconnected s).pool.jobs ≡ sum_of (in_job n) s.pool.jobs =
        λ n. ap (sum_of (in_job n)) kept in
      (
        record {
          tallied = (
            (λ k. omega (arith, h.tallied.0 k, ap (sum_of (runs_key k)) kept)),
            omega (arith, h.tallied, ap (sum_of runs_maintenance) kept),
          );
          sends = λ goes. absurd (ground arith);
          sums = λ n. refl;
          over =
              λ stopped n. omega (arith, nothing_owed s r h some_slot none_sent no_jobs n, same n);
        },
        (λ n. omega (arith, same n)),
      )

  Accounts-request :
      {W : Type 0} (y : System W) (e : CoordinatorEvent) (to : ℕ)
      → y.scheduler.stopped ≡ false
      → requester e ≡ some to
      → Accounts iter maximum y
      → Accounts iter maximum (record y { scheduler = send e y.scheduler; asked = to ∷ y.asked })
  Accounts-request y e to on asks (r, h, sums) =
      let (h', sums') = requested-Kept e to y.scheduler asks on h in
      (sent y.scheduler e r on, h', (λ n. omega (arith, sums n, sums' n)))

  Accounts-job :
      {W : Type 0} (y : System W) (before after : List WorkerJob) (job : WorkerJob)
      (e : CoordinatorEvent) (w : W) (lost : List ℕ)
      → y.scheduler.pool.jobs ≡ before ++ (job ∷ after)
      → Returns job e
      → ((n : ℕ) → in_event n e + sum_of (one_if n) lost ≡ in_job n job)
      → Accounts iter maximum y
      → Accounts iter maximum (record y {
        scheduler = without_job (before ++ after) e y.scheduler;
        world = w;
        dropped = lost ++ y.dropped;
      })
  Accounts-job y before after job e w lost place back brings (r, h, sums) =
      let (h', sums') =
        without_job-Kept before after job e (λ n. sum_of (one_if n) lost) y.scheduler place back
          brings h in
      (
        sent _ e (taken y.scheduler (before ++ after) r)
            (job-runs before after job y.scheduler place h),
        h',
        (λ n. omega (arith, sums n, sums' n, sum_of-append (one_if n) lost y.dropped)),
      )

  module _ {W : Type 0} (storage : Storage W) (some_slot : 0 < maximum) where
    pub Runs-Accounts : (y : System W) → Runs storage iter maximum y → Accounts iter maximum y
    Runs-Accounts _ (Runs.opened spawns w) = (
      Reachable.opened (new_pool maximum spawns),
      initial-Kept maximum spawns,
      initial-sums maximum spawns,
    )
    Runs-Accounts _ (requested y e to r on asks) =
        Accounts-request y e to on asks (Runs-Accounts y r)
    Runs-Accounts _ (Runs.handled y r) =
        let (reached, h, sums) = Runs-Accounts y r in
        let (h', sums') = round-Kept y.scheduler reached h in
        (Reachable.handled y.scheduler reached, h', (λ n. omega (arith, sums n, sums' n)))
    Runs-Accounts _ (worked y before after job e w r place ran) =
        let (back, same) = run_job-Returns storage job e y.world w ran in
        Accounts-job y before after job e w [] place back (λ n. omega (arith, same n))
          (Runs-Accounts y r)
    Runs-Accounts _ (crashed y before after job w r place) =
        let (back, nothing) = caught-Returns job in
        Accounts-job y before after job (caught job) w (job_sender job ∷ []) place back
          (λ n. ground (arith, nothing n, in_job-sender n job)) (Runs-Accounts y r)
    Runs-Accounts _ (Runs.abandoned y r on none_sent no_jobs) =
        let (reached, h, sums) = Runs-Accounts y r in
        let (h', sums') = disconnected-Kept y.scheduler reached h some_slot none_sent no_jobs in
        (
          Reachable.abandoned y.scheduler reached on none_sent,
          h',
          (λ n. omega (arith, sums n, sums' n)),
        )

    -- With a positive maximum, whatever order the HashMap has, in every run of the coordinator
    -- with its clients and workers, jobs that panic and threads that do not start included: on
    -- every channel, the replies that were sent, the sending ends that an event, a queue or a job
    -- still holds and those that a panicking job dropped are together as many as the requests to
    -- be answered there; and behind the end of the loop none is held any more.
    pub Runs-answers :
        (y : System W) (n : ℕ)
        → Runs storage iter maximum y
        → (answered n y.scheduler + (owed n y.scheduler + sum_of (one_if n) y.dropped)
            ≡ sum_of (one_if n) y.asked)
          × (y.scheduler.stopped ≡ true
              → answered n y.scheduler + sum_of (one_if n) y.dropped ≡ sum_of (one_if n) y.asked)
    Runs-answers y n r =
        let (reached, h, sums) = Runs-Accounts y r in
        (omega (arith, sums n), (λ over. omega (arith, sums n, h.over over n)))

    -- With a positive maximum, in every run in which no event and no job is left to be handled,
    -- every request was answered exactly once, or its sending end was dropped by a job that
    -- panicked: none waits forever.
    pub Runs-quiescent :
        (y : System W) (n : ℕ)
        → Runs storage iter maximum y
        → y.scheduler.channel ≡ []
        → y.scheduler.pool.jobs ≡ []
        → answered n y.scheduler + sum_of (one_if n) y.dropped ≡ sum_of (one_if n) y.asked
    Runs-quiescent y n r none_sent no_jobs =
        let (reached, h, sums) = Runs-Accounts y r in
        omega (arith, sums n, nothing_owed y.scheduler reached h some_slot none_sent no_jobs n)
