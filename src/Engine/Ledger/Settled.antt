-- ===== src/Engine/Ledger/Settled.antt =====
-- src/engine/scheduler.rs: the pending events and the shutdown lose no sending end.
use atomic_blob_storage.Base.{
  ℕ, ◌+◌, ◌≡◌, refl, ap, ◌∙◌, true, false, not, ◌&&◌, List, [], ◌∷◌, ◌++◌, is_empty, arith,
  if_cases,
}
use atomic_blob_storage.Error.{store_closed, ok, Outcome}
use atomic_blob_storage.Engine.Event.{Submission, CoordinatorEvent, PendingEvent}
use atomic_blob_storage.Engine.Workers.{WorkerJob, operation_job, maintenance_job, shutdown}
use atomic_blob_storage.Engine.Queues.{Queues, push_back, all_empty}
use atomic_blob_storage.Engine.Queues.Entries.{push_back-KeysDistinct}
use atomic_blob_storage.Engine.Scheduler.Defs.{Scheduler, busy, done_with, front_is_close}
use atomic_blob_storage.Engine.Scheduler.Dispatch.{
  dispatch_if_idle, advance, advance_pending_if_ready,
}
use atomic_blob_storage.Engine.Scheduler.Handle.{
  replies_to, closing_reply, close_replies, behind_closes, shutdown_result, shut_down,
  check_shutdown,
}
use atomic_blob_storage.Engine.Scheduler.Cases.{advance_cases, dispatch_if_idle_rest}
use atomic_blob_storage.Engine.Scheduler.Slots.{Slots, dispatch_if_idle-Slots}
use atomic_blob_storage.Engine.Scheduler.Order.{closes_last, behind_closes-last}
use atomic_blob_storage.Engine.Scheduler.Core.{Core, advance_pending_if_ready-Core}
use atomic_blob_storage.Engine.Scheduler.Progress.{advance-stopped}
use atomic_blob_storage.Engine.Ledger.{
  one_if, sum_of, sum_of-append, in_reply, in_entry, in_pending, in_job, in_event, owed, total,
  runs_key, completes_key, runs_maintenance, completes_maintenance, Tallied,
}
use atomic_blob_storage.Engine.Ledger.Queued.{in-push_back}
use atomic_blob_storage.Engine.Ledger.Dispatched.{
  Sends, Balanced, deliver_error-sender, dispatch_if_idle-Balanced, dispatch_maintenance-Balanced,
}

abbrev Running : (ℕ → ℕ) → ℕ → Scheduler → Type 0
Running c maximum s = Slots maximum s × (s.maintenance_active ≡ false) × Balanced c s

Running-submission :
    (c : ℕ → ℕ) (maximum : ℕ) (s : Scheduler) (sub : Submission) (rest : List PendingEvent)
    → Running c maximum s
    → s.pending ≡ PendingEvent.submission sub ∷ rest
    → Running c maximum (
        dispatch_if_idle maximum sub.key_hash
          (record s { pending = rest; queues = push_back sub.key_hash sub.operation s.queues }))
Running-submission c maximum s sub rest (slots, off, (tally, sends, sums)) e =
    let s' = record s { pending = rest; queues = push_back sub.key_hash sub.operation s.queues } in
    let keys = push_back-KeysDistinct sub.key_hash sub.operation s.queues slots.2 in
    let (p, ma, l, st) = dispatch_if_idle_rest maximum sub.key_hash s' in
    (
      dispatch_if_idle-Slots maximum sub.key_hash s' (slots.0, slots.1, keys),
      ma ∙ off,
      dispatch_if_idle-Balanced c maximum sub.key_hash s' keys (
        tally,
        sends,
        (λ n. omega (
          arith,
          sums n,
          ap (sum_of (in_pending n)) e,
          in-push_back n sub.key_hash sub.operation s.queues,
        )),
      ),
    )

pub advance_pending_if_ready-Balanced :
    (c : ℕ → ℕ) (maximum : ℕ) (s : Scheduler)
    → Slots maximum s
    → Balanced c s
    → Balanced c (advance_pending_if_ready maximum s)
unfolding advance_pending_if_ready
advance_pending_if_ready-Balanced c maximum s slots h =
    if_cases (Balanced c) s.maintenance_active s (advance maximum s.pending s) (λ on. h)
      (λ off.
        advance_cases (Running c maximum) (Balanced c) maximum (λ t k. k.2)
          (λ t m rest k e idle.
            let (slots', off', (tally, sends, sums)) = k in
            dispatch_maintenance-Balanced c m
              (record t { pending = rest; maintenance_active = true }) tally.0 refl (ground arith)
              sends (λ n. omega (arith, sums n, ap (sum_of (in_pending n)) e)))
          (Running-submission c maximum)
          (λ t to rest k e idle.
            let (slots', off', (tally, sends, sums)) = k in
            (
              slots',
              off',
              (
                tally,
                sends,
                (λ n. ground (
                  arith,
                  sums n,
                  ap (sum_of (in_pending n)) e,
                  sum_of-append (in_reply n) t.replies (done_with to (ok tt) ∷ []),
                )),
              ),
            ))
          s.pending s refl (slots, off, h))

-- The closes in front are answered, and the others stay.
close_replies-sum :
    (n : ℕ) (result : Outcome (Unit {0})) (l : List PendingEvent)
    → sum_of (in_reply n) (close_replies result l) + sum_of (in_pending n) (behind_closes l)
      ≡ sum_of (in_pending n) l
close_replies-sum n result [] = refl
close_replies-sum n result (PendingEvent.close to ∷ l) = omega (arith, close_replies-sum n result l)
close_replies-sum n result (PendingEvent.submission sub ∷ l) = omega arith
close_replies-sum n result (PendingEvent.maintenance m ∷ l) = omega arith
close_replies-sum n result (PendingEvent.flush to ∷ l) = omega arith

-- Nothing that runs has still to be handled.
abbrev Landed : List CoordinatorEvent → Type 0
Landed l = ((k : ℕ) → sum_of (completes_key k) l ≡ 0) × (sum_of completes_maintenance l ≡ 0)

Landed-rest : (e : CoordinatorEvent) (l : List CoordinatorEvent) → Landed (e ∷ l) → Landed l
Landed-rest e l h = ((λ k. omega (arith, h.0 k)), omega arith)

closing_reply-sum :
    (n : ℕ) (result : Outcome (Unit {0})) (l : List CoordinatorEvent)
    → Landed l
    → sum_of (in_reply n) (replies_to (closing_reply result) l) ≡ sum_of (in_event n) l
unfolding closing_reply
closing_reply-sum n result [] h = refl
closing_reply-sum n result (CoordinatorEvent.submission sub ∷ l) h = omega (
  arith,
  closing_reply-sum n result l (Landed-rest (CoordinatorEvent.submission sub) l h),
  deliver_error-sender n sub.operation store_closed,
)
closing_reply-sum n result (CoordinatorEvent.completion c ∷ l) h =
    absurd (ground (arith, h.0 c.key_hash))
closing_reply-sum n result (CoordinatorEvent.maintenance m ∷ l) h =
    omega (arith, closing_reply-sum n result l (Landed-rest (CoordinatorEvent.maintenance m) l h))
closing_reply-sum n result (CoordinatorEvent.maintenance_completion c ∷ l) h = absurd (omega arith)
closing_reply-sum n result (CoordinatorEvent.flush to ∷ l) h =
    omega (arith, closing_reply-sum n result l (Landed-rest (CoordinatorEvent.flush to) l h))
closing_reply-sum n result (CoordinatorEvent.close to ∷ l) h =
    omega (arith, closing_reply-sum n result l (Landed-rest (CoordinatorEvent.close to) l h))

no_jobs :
    (l : List WorkerJob)
    → ((k : ℕ) → sum_of (runs_key k) l ≡ 0)
    → sum_of runs_maintenance l ≡ 0
    → l ≡ []
no_jobs [] h m = refl
no_jobs (operation_job k op ∷ l) h m = absurd (ground (arith, h k))
no_jobs (maintenance_job m' ∷ l) h m = absurd (omega arith)

pub all_empty-sum : (n : ℕ) (m : Queues) → all_empty m ≡ true → sum_of (in_entry n) m ≡ 0
all_empty-sum n [] h = refl
all_empty-sum n ((k, []) ∷ m) h = ground (arith, all_empty-sum n m)
all_empty-sum n ((k, op ∷ q) ∷ m) h = absurd (ground arith)

is_empty-sum : (k : ℕ) (l : List ℕ) → is_empty l ≡ true → sum_of (one_if k) l ≡ 0
is_empty-sum k [] h = refl
is_empty-sum k (j ∷ l) h = absurd (ground arith)

-- What is kept in every state: nothing of what is in flight is forgotten, the answers and the sending
-- ends are those of the requests, and once the loop has ended no sending end is left.
pub record Audited (c : ℕ → ℕ) (s : Scheduler) : Type 0 where
  pub tallied : Tallied s
  pub sends : s.stopped ≡ false → Sends s
  pub sums : (n : ℕ) → total n s ≡ c n
  pub over : s.stopped ≡ true → (n : ℕ) → owed n s ≡ 0

pub Balanced-Audited : (c : ℕ → ℕ) (s : Scheduler) → s.stopped ≡ false → Balanced c s → Audited c s
Balanced-Audited c s on h = record {
  tallied = h.0;
  sends = λ goes. h.1;
  sums = h.2;
  over = λ stopped. absurd (ground arith);
}

shut_down-Audited :
    (c : ℕ → ℕ) (s : Scheduler)
    → Balanced c s
    → busy s ≡ false
    → s.maintenance_active ≡ false
    → behind_closes s.pending ≡ []
    → Audited c (shut_down s)
unfolding shut_down shutdown
shut_down-Audited c s (tally, sends, sums) idle off e =
    let none_run : (k : ℕ) → sum_of (one_if k) s.active ≡ 0 =
      λ k. is_empty-sum k s.active (ground arith) in
    let landed : Landed s.channel = ((λ k. omega (arith, none_run k, tally.0 k)), ground arith) in
    let result = shutdown_result (shutdown s.pool).0 in
    let done = no_jobs s.pool.jobs (λ k. omega (arith, none_run k, tally.0 k)) (ground arith) in
    record {
      tallied = ((λ k. ground (arith, none_run k, tally.0 k)), ground arith);
      sends = λ on. absurd (ground arith);
      sums = λ n. ground (
        arith,
        sums n,
        sum_of-append (in_reply n) (s.replies ++ close_replies result s.pending)
            (replies_to (closing_reply result) s.channel),
        sum_of-append (in_reply n) s.replies (close_replies result s.pending),
        close_replies-sum n result s.pending,
        closing_reply-sum n result s.channel landed,
      );
      over = λ stopped n. ground (
        arith,
        ap (sum_of (in_job n)) done,
        ap (sum_of (in_pending n)) e,
        all_empty-sum n s.queues,
      );
    }

-- A round that ends without a `continue`.
pub check_shutdown-Audited :
    (c : ℕ → ℕ) (s : Scheduler)
    → closes_last s.pending ≡ true
    → s.stopped ≡ false
    → Balanced c s
    → Audited c (check_shutdown s)
unfolding check_shutdown
check_shutdown-Audited c s last on h =
    if_cases (Audited c) (front_is_close s.pending && (not (busy s) && not s.maintenance_active))
      (shut_down s) s
      (λ over.
        shut_down-Audited c s h (ground arith) (ground arith)
          (behind_closes-last s.pending last (ground arith)))
      (λ waits. Balanced-Audited c s on h)

pub settle-Audited :
    (c : ℕ → ℕ) (maximum : ℕ) (s : Scheduler)
    → Core maximum s
    → s.stopped ≡ false
    → Balanced c s
    → Audited c (check_shutdown (advance_pending_if_ready maximum s))
settle-Audited c maximum s core on h =
    check_shutdown-Audited c (advance_pending_if_ready maximum s)
      (advance_pending_if_ready-Core maximum s core).3.1 (advance-stopped maximum s on)
      (advance_pending_if_ready-Balanced c maximum s core.0 h)
