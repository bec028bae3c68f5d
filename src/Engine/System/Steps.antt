-- ===== src/Engine/System/Steps.antt =====
-- src/engine/scheduler.rs and workers.rs: a request, and a job that comes back, keep the books.
use atomic_blob_storage.Base.{
  ℕ, ◌+◌, ◌<◌, ◌≡◌, refl, ap, inl, inr, Bool, false, List, [], ◌∷◌, ◌++◌, Option, some, arith,
  All-append, Bool-cases,
}
use atomic_blob_storage.Engine.Event.{CoordinatorEvent}
use atomic_blob_storage.Engine.Workers.{WorkerJob, operation_job, maintenance_job, new_pool}
use atomic_blob_storage.Engine.Scheduler.Defs.{Scheduler, initial, send}
use atomic_blob_storage.Engine.Scheduler.Fifo.{IsDeliverable}
use atomic_blob_storage.Engine.Ledger.{
  one_if, sum_of, sum_of-append, in_job, in_event, owed, total, runs_key, completes_key,
  runs_maintenance, completes_maintenance,
}
use atomic_blob_storage.Engine.Ledger.Settled.{Audited}
use atomic_blob_storage.Engine.System.{job_sender, requester, without_job}
use atomic_blob_storage.Engine.System.Jobs.{Returns}

-- The books of a scheduler, from whatever they were opened with.
abbrev pub Kept : Scheduler → Type 0
Kept s = Audited (λ n. total n s) s

pub Audited-Kept : (c : ℕ → ℕ) (s : Scheduler) → Audited c s → Kept s
Audited-Kept c s h = record {
  tallied = h.tallied;
  sends = h.sends;
  sums = λ n. refl;
  over = h.over;
}

pub initial-Kept :
    (maximum : ℕ) (spawns : List (Option Bool)) → Kept (initial (new_pool maximum spawns))
unfolding initial new_pool
initial-Kept maximum spawns = record {
  tallied = ((λ k. refl), refl);
  sends = λ on. (refl, tt);
  sums = λ n. refl;
  over = λ stopped. absurd (ground arith);
}

-- A request brings the sending end of its channel, and completes nothing.
pub requested-Kept :
    (e : CoordinatorEvent) (to : ℕ) (s : Scheduler)
    → requester e ≡ some to
    → s.stopped ≡ false
    → Kept s
    → Kept (send e s) × ((n : ℕ) → total n (send e s) ≡ total n s + one_if n to)
requested-Kept e to s asks on h =
    let (key, maint, d, brings) = quiet e asks in
    (
      record {
        tallied = (
          (λ k.
              omega
                (arith, h.tallied.0 k, key k, sum_of-append (completes_key k) s.channel (e ∷ []))),
          omega (arith, h.tallied, maint, sum_of-append completes_maintenance s.channel (e ∷ [])),
        );
        sends = λ goes.
            let (pool, good) = h.sends on in
            (pool, All-append IsDeliverable s.channel (e ∷ []) good (d, tt));
        sums = λ n. refl;
        over = λ stopped. absurd (ground arith);
      },
      (λ n. omega (arith, brings n, sum_of-append (in_event n) s.channel (e ∷ []))),
    )
  where
    quiet :
        (x : CoordinatorEvent)
        → requester x ≡ some to
        → ((k : ℕ) → completes_key k x ≡ 0)
          × (completes_maintenance x ≡ 0)
          × IsDeliverable x
          × ((n : ℕ) → in_event n x ≡ one_if n to)
    quiet (CoordinatorEvent.submission sub) a = ((λ k. refl), refl, tt, (λ n. ground arith))
    quiet (CoordinatorEvent.completion c) a = absurd (ground arith)
    quiet (CoordinatorEvent.maintenance m) a = ((λ k. refl), refl, tt, (λ n. ground arith))
    quiet (CoordinatorEvent.maintenance_completion c) a = absurd (ground arith)
    quiet (CoordinatorEvent.flush t) a = ((λ k. refl), refl, tt, (λ n. ground arith))
    quiet (CoordinatorEvent.close t) a = ((λ k. refl), refl, tt, (λ n. ground arith))

-- The sums over the jobs, with one of them taken out.
sum_of-middle :
    (f : WorkerJob → ℕ) (jobs before after : List WorkerJob) (job : WorkerJob)
    → jobs ≡ before ++ (job ∷ after)
    → sum_of f jobs ≡ sum_of f (before ++ after) + f job
sum_of-middle f jobs before after job e =
    omega
      (arith, ap (sum_of f) e, sum_of-append f before (job ∷ after), sum_of-append f before after)

job-lt-owed :
    (before after : List WorkerJob) (job : WorkerJob) (s : Scheduler)
    → s.pool.jobs ≡ before ++ (job ∷ after)
    → 0 < owed (job_sender job) s
job-lt-owed before after job s e =
    omega (arith, sum_of-middle (in_job (job_sender job)) s.pool.jobs before after job e, own job)
  where
    own : (j : WorkerJob) → in_job (job_sender j) j ≡ 1
    own (operation_job k op) = ground arith
    own (maintenance_job m) = ground arith

-- While a job waits, the loop has not ended.
pub job-runs :
    (before after : List WorkerJob) (job : WorkerJob) (s : Scheduler)
    → s.pool.jobs ≡ before ++ (job ∷ after)
    → Kept s
    → s.stopped ≡ false
job-runs before after job s e h = elim (Bool-cases s.stopped) [
  | inr on ↦ on
  | inl stopped ↦
      absurd (omega (arith, job-lt-owed before after job s e, h.over stopped (job_sender job)))
]

pub without_job-Kept :
    (before after : List WorkerJob) (job : WorkerJob) (e : CoordinatorEvent) (d : ℕ → ℕ)
    (s : Scheduler)
    → s.pool.jobs ≡ before ++ (job ∷ after)
    → Returns job e
    → ((n : ℕ) → in_event n e + d n ≡ in_job n job)
    → Kept s
    → Kept (without_job (before ++ after) e s)
      × ((n : ℕ) → total n (without_job (before ++ after) e s) + d n ≡ total n s)
without_job-Kept before after job e d s place back brings h =
    let on = job-runs before after job s place h in
    (
      record {
        tallied = (
          (λ k. omega (
            arith,
            h.tallied.0 k,
            back.same_key k,
            sum_of-middle (runs_key k) s.pool.jobs before after job place,
            sum_of-append (completes_key k) s.channel (e ∷ []),
          )),
          omega (
            arith,
            h.tallied,
            back.same_maintenance,
            sum_of-middle runs_maintenance s.pool.jobs before after job place,
            sum_of-append completes_maintenance s.channel (e ∷ []),
          ),
        );
        sends = λ goes.
            let (pool, good) = h.sends on in
            (pool, All-append IsDeliverable s.channel (e ∷ []) good (back.deliverable, tt));
        sums = λ n. refl;
        over = λ stopped. absurd (ground arith);
      },
      (λ n. omega (
        arith,
        brings n,
        sum_of-middle (in_job n) s.pool.jobs before after job place,
        sum_of-append (in_event n) s.channel (e ∷ []),
      )),
    )
