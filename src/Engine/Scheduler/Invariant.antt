-- ===== src/Engine/Scheduler/Invariant.antt =====
-- src/engine/scheduler.rs: the invariant of the scheduler's state, kept by every event.
use atomic_blob_storage.Base.{
  ℕ, ◌≡◌, refl, ap, ◌⊎◌, true, false, not, ◌&&◌, List, [], ◌∷◌, is_empty, arith, if_cases,
}
use atomic_blob_storage.Engine.Event.{PendingEvent}
use atomic_blob_storage.Engine.Workers.{WorkerPool}
use atomic_blob_storage.Engine.Scheduler.Defs.{Scheduler, initial, busy, front_is_close}
use atomic_blob_storage.Engine.Scheduler.Dispatch.{advance_pending_if_ready}
use atomic_blob_storage.Engine.Scheduler.Handle.{behind_closes, shut_down, check_shutdown}
use atomic_blob_storage.Engine.Scheduler.Slots.{Slots, Served}
use atomic_blob_storage.Engine.Scheduler.Order.{has_close, closes_last, Ordered, behind_closes-last}
use atomic_blob_storage.Engine.Scheduler.Core.{
  Quiet, Core, Settled, advance_pending_if_ready-Core, advance_pending_if_ready-Settled,
}

-- Whatever is pending waits for work in progress.
abbrev pub Lively : Scheduler → Type 0
Lively s = is_empty s.pending ≡ false → (s.maintenance_active ≡ true) ⊎ (busy s ≡ true)

-- What holds between two rounds.
pub record IsConsistent (maximum : ℕ) (s : Scheduler) : Type 0 where
  pub slots : Slots maximum s
  pub served : Served maximum s
  pub quiet : Quiet s
  pub ordered : Ordered s.lifecycle s.pending
  pub lively : Lively s

pub initial-IsConsistent : (maximum : ℕ) (pool : WorkerPool) → IsConsistent maximum (initial pool)
unfolding initial
initial-IsConsistent maximum pool = record {
  slots = (omega arith, tt, tt);
  served = λ k free idle. refl;
  quiet = λ on. refl;
  ordered = ((λ o. refl), refl);
  lively = λ waits. absurd (ground arith);
}

is_empty-nil : (l : List PendingEvent) → is_empty l ≡ true → l ≡ []
is_empty-nil [] h = refl
is_empty-nil (e ∷ l) h = absurd (ground arith)

shut_down-Ordered :
    (s : Scheduler)
    → behind_closes s.pending ≡ []
    → Ordered (shut_down s).lifecycle (shut_down s).pending
unfolding shut_down
shut_down-Ordered s e = ((λ o. ap has_close e), ap closes_last e)

shut_down-IsConsistent :
    (maximum : ℕ) (s : Scheduler)
    → Core maximum s
    → behind_closes s.pending ≡ []
    → IsConsistent maximum (shut_down s)
unfolding shut_down
shut_down-IsConsistent maximum s (slots, served, quiet, ordered) e = record {
  slots = slots;
  served = served;
  quiet = quiet;
  ordered = shut_down-Ordered s e;
  lively = λ waits. absurd (ground (arith, ap is_empty e));
}

-- A round that ends without a `continue` ends consistent.
pub check_shutdown-IsConsistent :
    (maximum : ℕ) (s : Scheduler)
    → Core maximum s
    → Settled s
    → IsConsistent maximum (check_shutdown s)
unfolding check_shutdown
check_shutdown-IsConsistent maximum s (slots, served, quiet, ordered) settled =
    if_cases (IsConsistent maximum)
      (front_is_close s.pending && (not (busy s) && not s.maintenance_active)) (shut_down s) s
      (λ over.
        let e = behind_closes-last s.pending ordered.1 (ground arith) in
        shut_down-IsConsistent maximum s (slots, served, quiet, ordered) e)
      (λ on. record {
        slots = slots;
        served = served;
        quiet = quiet;
        ordered = ordered;
        lively = λ waits. ground arith;
      })

pub settle-IsConsistent :
    (maximum : ℕ) (s : Scheduler)
    → Core maximum s
    → IsConsistent maximum (check_shutdown (advance_pending_if_ready maximum s))
settle-IsConsistent maximum s h =
    check_shutdown-IsConsistent maximum (advance_pending_if_ready maximum s)
      (advance_pending_if_ready-Core maximum s h) (advance_pending_if_ready-Settled maximum s)
