-- ===== src/Engine/System/Settles.antt =====
-- src/engine/scheduler.rs, with workers.rs: left to themselves, the coordinator and the workers come to
-- an end of all that was requested.
use atomic_blob_storage.Base.{
  ℕ, zero, suc, ◌+◌, ◌≤◌, ◌<◌, ◌≡◌, refl, ap, ◌⊎◌, inl, inr, false, List, [], ◌∷◌, ◌++◌, some,
  arith, Bool-cases, Option-cases,
}
use atomic_blob_storage.Engine.Event.{CoordinatorEvent}
use atomic_blob_storage.Engine.Operation.{run_owned_operation}
use atomic_blob_storage.Engine.Workers.{WorkerJob, operation_job, maintenance_job}
use atomic_blob_storage.Engine.Queues.{Queues}
use atomic_blob_storage.Engine.Queues.Entries.{IsHashOrder}
use atomic_blob_storage.Engine.Scheduler.Defs.{Scheduler}
use atomic_blob_storage.Engine.Scheduler.Handle.{round}
use atomic_blob_storage.Engine.Ledger.{one_if, sum_of, sum_of-append, answered}
use atomic_blob_storage.Engine.System.{
  Storage, System, Runs, run_job, caught, job_sender, begins, without_job,
}
use atomic_blob_storage.Engine.System.Answers.{Runs-answers, Runs-quiescent}
use atomic_blob_storage.Engine.System.Work.{work, event_work, job_work}
use atomic_blob_storage.Engine.System.Work.Handled.{round-work}

-- So many steps of the coordinator and the workers, in any order, with no further request.
pub data Proceeds {W : Type 0} (storage : Storage W) (iter : Queues → Queues) (maximum : ℕ)
    : ℕ → System W → System W → Type 0 where
  rests : (y : System W) → Proceeds storage iter maximum 0 y y
  handles :
      (n : ℕ) (y z : System W) (e : CoordinatorEvent) (rest : List CoordinatorEvent)
      → y.scheduler.stopped ≡ false
      → y.scheduler.channel ≡ e ∷ rest
      → Proceeds storage iter maximum n (record y { scheduler = round iter maximum y.scheduler }) z
      → Proceeds storage iter maximum (suc n) y z
  works :
      (n : ℕ) (y z : System W) (before after : List WorkerJob) (job : WorkerJob)
      (e : CoordinatorEvent) (w : W)
      → y.scheduler.pool.jobs ≡ before ++ (job ∷ after)
      → run_job storage job y.world ≡ some (e, w)
      → Proceeds storage iter maximum n
          (record y {
            scheduler = without_job (before ++ after) e y.scheduler;
            world = w;
            ran = y.ran ++ begins job;
          })
          z
      → Proceeds storage iter maximum (suc n) y z
  panics :
      (n : ℕ) (y z : System W) (before after : List WorkerJob) (job : WorkerJob) (w : W)
      → y.scheduler.pool.jobs ≡ before ++ (job ∷ after)
      → Proceeds storage iter maximum n
          (record y {
            scheduler = without_job (before ++ after) (caught job) y.scheduler;
            world = w;
            dropped = job_sender job ∷ y.dropped;
            ran = y.ran ++ begins job;
          })
          z
      → Proceeds storage iter maximum (suc n) y z

List-cases {ℓ} : {A : Type ℓ} (l : List A) → (l ≡ []) ⊎ ((x : A) × (xs : List A) × (l ≡ x ∷ xs))
List-cases [] = inl refl
List-cases (x ∷ xs) = inr (x, xs, refl)

-- A job that was run leaves less work: its event.
without_job-work :
    (before after : List WorkerJob) (job : WorkerJob) (e : CoordinatorEvent) (s : Scheduler)
    → s.pool.jobs ≡ before ++ (job ∷ after)
    → event_work e ≡ 1
    → work (without_job (before ++ after) e s) + 1 ≡ work s
without_job-work before after job e s place light = omega (
  arith,
  light,
  ap (sum_of job_work) place,
  sum_of-append job_work before (job ∷ after),
  sum_of-append job_work before after,
  sum_of-append event_work s.channel (e ∷ []),
)

caught-work : (job : WorkerJob) → event_work (caught job) ≡ 1
unfolding caught
caught-work (operation_job k op) = refl
caught-work (maintenance_job m) = refl

module _ {W : Type 0} (storage : Storage W) where
  run_job-work :
      (job : WorkerJob) (e : CoordinatorEvent) (w w' : W)
      → run_job storage job w ≡ some (e, w')
      → event_work e ≡ 1
  unfolding run_job
  run_job-work (operation_job k op) e w w' ran =
      elim (Option-cases (run_owned_operation (storage.backend k) op w)) [
        | inl h ↦ absurd (ground arith)
        | inr ((out, w2), h) ↦ ground arith
      ]
  run_job-work (maintenance_job m) e w w' ran = ground arith

  module _ (iter : Queues → Queues) (maximum : ℕ) where
    Proceeds-work :
        (n : ℕ) (y z : System W)
        → Proceeds storage iter maximum n y z
        → n + work z.scheduler ≤ work y.scheduler
    Proceeds-work _ y _ (rests _) = omega arith
    Proceeds-work _ y z (handles n _ _ e rest on waiting more) =
        omega
          (arith, round-work iter maximum y.scheduler e rest on waiting, Proceeds-work n _ z more)
    Proceeds-work _ y z (works n _ _ before after job e w place ran more) = omega (
      arith,
      without_job-work before after job e y.scheduler place (run_job-work job e y.world w ran),
      Proceeds-work n _ z more,
    )
    Proceeds-work _ y z (panics n _ _ before after job w place more) = omega (
      arith,
      without_job-work before after job (caught job) y.scheduler place (caught-work job),
      Proceeds-work n _ z more,
    )

    Proceeds-Runs :
        (n : ℕ) (y z : System W)
        → Runs storage iter maximum y
        → Proceeds storage iter maximum n y z
        → Runs storage iter maximum z
    Proceeds-Runs _ y _ r (rests _) = r
    Proceeds-Runs _ y z r (handles n _ _ e rest on waiting more) =
        Proceeds-Runs n _ z (Runs.handled y r) more
    Proceeds-Runs _ y z r (works n _ _ before after job e w place ran more) =
        Proceeds-Runs n _ z (Runs.worked y before after job e w r place ran) more
    Proceeds-Runs _ y z r (panics n _ _ before after job w place more) =
        Proceeds-Runs n _ z (Runs.crashed y before after job w r place) more

    module _ (order : IsHashOrder iter) (some_slot : 0 < maximum) where
      -- On every channel, as many replies were sent, or sending ends dropped, as requests were made.
      abbrev pub Settled : System W → Type 0
      Settled z =
          (to : ℕ)
          → answered to z.scheduler + sum_of (one_if to) z.dropped ≡ sum_of (one_if to) z.asked

      -- A state that is reached by so many steps, with the same requests, and is settled.
      abbrev pub ComesToRest : System W → Type 0
      ComesToRest y =
          (n : ℕ) × (z : System W) × Proceeds storage iter maximum n y z
          × (z.asked ≡ y.asked)
          × Settled z

      at_rest : (y : System W) → Runs storage iter maximum y → Settled y → ComesToRest y
      at_rest y r settled = (0, y, rests y, refl, settled)

      -- The rest of the way, from a state with less work.
      abbrev Onward : System W → Type 0
      Onward y =
          (z : System W)
          → Runs storage iter maximum z
          → work z.scheduler + 1 ≤ work y.scheduler
          → ComesToRest z

      next_event :
          (y : System W) (e : CoordinatorEvent) (rest : List CoordinatorEvent)
          → Runs storage iter maximum y
          → y.scheduler.stopped ≡ false
          → y.scheduler.channel ≡ e ∷ rest
          → Onward y
          → ComesToRest y
      next_event y e rest r on waiting onward =
          let less = round-work iter maximum y.scheduler e rest on waiting in
          let (n, z, way, same, settled) = onward _ (Runs.handled y r) less in
          (suc n, z, handles n y z e rest on waiting way, same, settled)

      next_job :
          (y : System W) (job : WorkerJob) (jobs : List WorkerJob)
          → Runs storage iter maximum y
          → y.scheduler.pool.jobs ≡ job ∷ jobs
          → Onward y
          → ComesToRest y
      next_job y job jobs r place onward = elim (Option-cases (run_job storage job y.world)) [
        | inl panic ↦
            let less =
              without_job-work [] jobs job (caught job) y.scheduler place (caught-work job) in
            let (n, z, way, same, settled) =
              onward _ (Runs.crashed y [] jobs job y.world r place) (omega (arith, less)) in
            (suc n, z, panics n y z [] jobs job y.world place way, same, settled)
        | inr ((e, w), ran) ↦
            let light = run_job-work job e y.world w ran in
            let less = without_job-work [] jobs job e y.scheduler place light in
            let (n, z, way, same, settled) =
              onward _ (Runs.worked y [] jobs job e w r place ran) (omega (arith, less)) in
            (suc n, z, works n y z [] jobs job e w place ran way, same, settled)
      ]

      rests_or_goes_on : (y : System W) → Runs storage iter maximum y → Onward y → ComesToRest y
      rests_or_goes_on y r onward = elim (Bool-cases y.scheduler.stopped) [
        | inl over ↦
            at_rest y r (λ to. (Runs-answers iter order maximum storage some_slot y to r).1 over)
        | inr on ↦ elim (List-cases y.scheduler.channel) [
          | inr (e, rest, waiting) ↦ next_event y e rest r on waiting onward
          | inl none_sent ↦ elim (List-cases y.scheduler.pool.jobs) [
            | inr (job, jobs, place) ↦ next_job y job jobs r place onward
            | inl no_jobs ↦
                at_rest y r (λ to.
                  Runs-quiescent iter order maximum storage some_slot y to r none_sent no_jobs)
          ]
        ]
      ]

      comes_to_rest :
          (fuel : ℕ) (y : System W)
          → Runs storage iter maximum y
          → work y.scheduler ≤ fuel
          → ComesToRest y
      comes_to_rest zero y r bound =
          rests_or_goes_on y r (λ z rz less. absurd (omega (arith, less, bound)))
      comes_to_rest (suc fuel) y r bound =
          rests_or_goes_on y r (λ z rz less. comes_to_rest fuel z rz (omega (arith, less, bound)))

      -- With a positive maximum, whatever order the HashMap has: from any run on, with no further
      -- request, the coordinator and the workers can make at most as many steps, in any order, as
      -- there is work left; and from every state that they come to, further steps lead to one in
      -- which every request was answered exactly once, or its sending end was dropped by a job
      -- that panicked.
      pub Runs-settles :
          (n : ℕ) (y z : System W)
          → Runs storage iter maximum y
          → Proceeds storage iter maximum n y z
          → (n + work z.scheduler ≤ work y.scheduler) × ComesToRest z
      Runs-settles n y z r way = (
        Proceeds-work n y z way,
        comes_to_rest (work z.scheduler) z (Proceeds-Runs n y z r way) (omega arith),
      )
