-- ===== src/Engine/Scheduler/Reach.antt =====
-- src/engine/scheduler.rs: every state that the coordinator can come to.
use atomic_blob_storage.Base.{
  ℕ, ◌<◌, ◌≡◌, ◌≢◌, refl, ◌⊎◌, inl, inr, true, false, List, [], ◌∷◌, ◌++◌, is_empty, arith,
  if_cases,
}
use atomic_blob_storage.Engine.Event.{CoordinatorEvent}
use atomic_blob_storage.Engine.Workers.{WorkerPool, WorkerJob}
use atomic_blob_storage.Engine.Queues.{Queues, queue}
use atomic_blob_storage.Engine.Queues.Entries.{IsHashOrder}
use atomic_blob_storage.Engine.Scheduler.Defs.{Scheduler, initial, send, is_final}
use atomic_blob_storage.Engine.Scheduler.Handle.{handle, receive, round, disconnected}
use atomic_blob_storage.Engine.Scheduler.Invariant.{IsConsistent, initial-IsConsistent}
use atomic_blob_storage.Engine.Scheduler.Rounds.{handle-IsConsistent}
use atomic_blob_storage.Engine.Scheduler.Progress.{handle-EndsDrained, waiting-runs}

-- Clients and workers send any events while the loop runs; the loop takes them one at a time; the
-- workers take any jobs; and the loop ends when all its senders are gone.
pub data Reachable (iter : Queues → Queues) (maximum : ℕ) : Scheduler → Type 0 where
  opened : (pool : WorkerPool) → Reachable iter maximum (initial pool)
  sent :
      (s : Scheduler) (e : CoordinatorEvent)
      → Reachable iter maximum s
      → s.stopped ≡ false
      → Reachable iter maximum (send e s)
  handled :
      (s : Scheduler) → Reachable iter maximum s → Reachable iter maximum (round iter maximum s)
  taken :
      (s : Scheduler) (jobs : List WorkerJob)
      → Reachable iter maximum s
      → Reachable iter maximum (record s { pool = record s.pool { jobs = jobs } })
  abandoned :
      (s : Scheduler)
      → Reachable iter maximum s
      → s.stopped ≡ false
      → s.channel ≡ []
      → Reachable iter maximum (disconnected s)

-- Once the loop has ended, the lifecycle is final.
abbrev pub EndsFinal : Scheduler → Type 0
EndsFinal s = s.stopped ≡ true → is_final s.lifecycle ≡ true

pool-IsConsistent :
    (maximum : ℕ) (p : WorkerPool) (s : Scheduler)
    → IsConsistent maximum s
    → IsConsistent maximum (record s { pool = p })
pool-IsConsistent maximum p s h = record {
  slots = h.slots;
  served = h.served;
  quiet = h.quiet;
  ordered = h.ordered;
  lively = h.lively;
}

pub channel-IsConsistent :
    (maximum : ℕ) (c : List CoordinatorEvent) (s : Scheduler)
    → IsConsistent maximum s
    → IsConsistent maximum (record s { channel = c })
channel-IsConsistent maximum c s h = record {
  slots = h.slots;
  served = h.served;
  quiet = h.quiet;
  ordered = h.ordered;
  lively = h.lively;
}

disconnected-IsConsistent :
    (maximum : ℕ) (s : Scheduler) → IsConsistent maximum s → IsConsistent maximum (disconnected s)
unfolding disconnected
disconnected-IsConsistent maximum s h = record {
  slots = h.slots;
  served = h.served;
  quiet = h.quiet;
  ordered = ((λ o. absurd (ground arith)), h.ordered.1);
  lively = h.lively;
}

initial-EndsFinal : (pool : WorkerPool) → EndsFinal (initial pool)
unfolding initial
initial-EndsFinal pool over = absurd (ground arith)

disconnected-EndsFinal : (s : Scheduler) → EndsFinal (disconnected s)
unfolding disconnected
disconnected-EndsFinal s over = refl

module _ (iter : Queues → Queues) (order : IsHashOrder iter) (maximum : ℕ) where
  handle-EndsFinal :
      (e : CoordinatorEvent) (s : Scheduler)
      → IsConsistent maximum s
      → s.stopped ≡ false
      → EndsFinal (handle iter maximum e s)
  handle-EndsFinal e s h on over = elim (handle-EndsDrained iter order maximum e s h on) [
    | inl goes ↦ absurd (ground arith)
    | inr (p, a, q, m, c, f) ↦ f
  ]

  round-keeps :
      (s : Scheduler)
      → IsConsistent maximum s × EndsFinal s
      → IsConsistent maximum (round iter maximum s) × EndsFinal (round iter maximum s)
  unfolding round
  round-keeps s (h, f) =
      if_cases (λ t. IsConsistent maximum t × EndsFinal t) s.stopped s _ (λ over. (h, f))
        (λ on. go s.channel on)
    where
      go :
          (c : List CoordinatorEvent)
          → s.stopped ≡ false
          → IsConsistent maximum (receive iter maximum c s) × EndsFinal (receive iter maximum c s)
      go [] on = (h, f)
      go (e ∷ rest) on =
          let s' = record s { channel = rest } in
          let h' = channel-IsConsistent maximum rest s h in
          (handle-IsConsistent iter order maximum e s' h', handle-EndsFinal e s' h' on)

  -- Every state that the coordinator can reach, whatever events are sent and whatever order the
  -- HashMap has, is consistent (at most the maximum run, each of another key; a key with queued
  -- work runs while a slot is free; maintenance runs alone; only closes stand behind a close; what
  -- is pending waits for something that runs), and one whose loop has ended has a final lifecycle.
  pub Reachable-IsConsistent :
      (s : Scheduler) → Reachable iter maximum s → IsConsistent maximum s × EndsFinal s
  Reachable-IsConsistent _ (opened pool) =
      (initial-IsConsistent maximum pool, initial-EndsFinal pool)
  Reachable-IsConsistent _ (sent s e r on) =
      let (h, f) = Reachable-IsConsistent s r in
      (channel-IsConsistent maximum (s.channel ++ (e ∷ [])) s h, f)
  Reachable-IsConsistent _ (handled s r) = round-keeps s (Reachable-IsConsistent s r)
  Reachable-IsConsistent _ (taken s jobs r) =
      let (h, f) = Reachable-IsConsistent s r in
      (pool-IsConsistent maximum (record s.pool { jobs = jobs }) s h, f)
  Reachable-IsConsistent _ (abandoned s r on nothing) =
      let (h, f) = Reachable-IsConsistent s r in
      (disconnected-IsConsistent maximum s h, disconnected-EndsFinal s)

  -- With a positive maximum, in no reachable state does work wait, in a queue or behind a barrier,
  -- while neither an operation nor maintenance runs.
  pub Reachable-runs :
      (k : ℕ) (s : Scheduler)
      → Reachable iter maximum s
      → 0 < maximum
      → (queue k s.queues ≢ []) ⊎ (is_empty s.pending ≡ false)
      → (is_empty s.active ≡ false) ⊎ (s.maintenance_active ≡ true)
  Reachable-runs k s r some_slot waits =
      waiting-runs maximum k s (Reachable-IsConsistent s r).0 some_slot waits
