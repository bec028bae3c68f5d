-- ===== src/Engine/Ledger/Replied.antt =====
-- src/engine/scheduler.rs: a reply or a pending event takes over a sending end.
use atomic_blob_storage.Base.{
  ℕ, ◌+◌, ◌≤◌, ◌≡◌, ◌≢◌, refl, subst, inl, inr, false, List, [], ◌∷◌, Option, none, some, ◌==◌,
  arith, Option-cases, if◌then◌else◌,
}
use atomic_blob_storage.Error.{shutdown_failure, CleanupReport, ok, err, Outcome}
use atomic_blob_storage.Engine.Operation.{
  Operation, BlockingResult, Reply, cleaned, deliver, sender,
}
use atomic_blob_storage.Engine.Event.{
  Lifecycle, open_store, closing, closed, shutdown_failed, failed, Completion, CoordinatorEvent,
  PendingEvent,
}
use atomic_blob_storage.Engine.Queues.{contains, remove_key}
use atomic_blob_storage.Engine.Scheduler.Defs.{Scheduler, answer, done_with}
use atomic_blob_storage.Engine.Scheduler.Handle.{push_pending, delivered, cleanup_reply, close_in}
use atomic_blob_storage.Engine.Scheduler.Slots.{Distinct}
use atomic_blob_storage.Engine.Scheduler.Fifo.{MatchesKind}
use atomic_blob_storage.Engine.Ledger.{
  one_if, sum_of, sum_of-append, in_reply, in_operation, in_pending, in_outcome, in_event, total,
  completes_key, completes_maintenance, in_flight, maintenance_in_flight, flag, Tallied,
}
use atomic_blob_storage.Engine.Ledger.Dispatched.{Sends, Balanced}

-- The event was taken off the channel, and its sending end is not yet passed on.
abbrev pub Taken : (ℕ → ℕ) → CoordinatorEvent → Scheduler → Type 0
Taken c e s =
    ((k : ℕ) → sum_of (one_if k) s.active ≡ in_flight k s + completes_key k e)
    × (flag s.maintenance_active ≡ maintenance_in_flight s + completes_maintenance e)
    × (Sends s)
    × ((n : ℕ) → total n s + in_event n e ≡ c n)

pub push_pending-Balanced :
    (c : ℕ → ℕ) (p : PendingEvent) (s : Scheduler)
    → Tallied s
    → Sends s
    → ((n : ℕ) → total n s + in_pending n p ≡ c n)
    → Balanced c (push_pending p s)
push_pending-Balanced c p s tally sends sums =
    (tally, sends, (λ n. omega (arith, sums n, sum_of-append (in_pending n) s.pending (p ∷ []))))

pub answer-Balanced :
    (c : ℕ → ℕ) (r : ℕ × Reply) (s : Scheduler)
    → Tallied s
    → Sends s
    → ((n : ℕ) → total n s + in_reply n r ≡ c n)
    → Balanced c (answer r s)
answer-Balanced c r s tally sends sums =
    (tally, sends, (λ n. omega (arith, sums n, sum_of-append (in_reply n) s.replies (r ∷ []))))

pub deliver-sender :
    (op : Operation) (result : BlockingResult) (r : ℕ × Reply)
    → deliver op result ≡ some r
    → r.0 ≡ sender op
unfolding deliver
deliver-sender op result r h = ground arith

pub remove_key-sum :
    (j k : ℕ) (l : List ℕ)
    → sum_of (one_if j) (remove_key k l) ≡ (if k == j then 0 else sum_of (one_if j) l)
unfolding remove_key
remove_key-sum j k [] = ground arith
remove_key-sum j k (i ∷ l) = ground (arith, remove_key-sum j k l)

pub absent-sum : (k : ℕ) (l : List ℕ) → contains k l ≡ false → sum_of (one_if k) l ≡ 0
absent-sum k [] h = refl
absent-sum k (i ∷ l) h = ground (arith, absent-sum k l)

-- A key is active once at most.
pub Distinct-sum : (k : ℕ) (l : List ℕ) → Distinct l → sum_of (one_if k) l ≤ 1
Distinct-sum k [] h = omega arith
Distinct-sum k (i ∷ l) h = ground (arith, Distinct-sum k l h.1, absent-sum i l h.0, absent-sum k l)

-- A completion frees the slot of its key, and nothing else of the key is in flight.
pub freed-Balanced :
    (c : ℕ → ℕ) (done : Completion) (s : Scheduler)
    → Distinct s.active
    → Taken c (CoordinatorEvent.completion done) s
    → Balanced (λ n. total n s) (record s { active = remove_key done.key_hash s.active })
freed-Balanced c done s apart (tally, maint, sends, sums) = (
  (
    (λ j.
        ground
          (arith, tally j, remove_key-sum j done.key_hash s.active, Distinct-sum j s.active apart)),
    omega arith,
  ),
  sends,
  (λ n. refl),
)

-- A result of its operation's kind is delivered without a panic.
pub no_panic :
    (o : Option (Operation × BlockingResult)) (s : Scheduler) → MatchesKind o → delivered o s ≢ none
no_panic none s kind e = absurd (ground arith)
no_panic (some (op, result)) s kind e = elim (Option-cases (deliver op result)) [
  | inl none_due ↦ kind none_due
  | inr (r, due) ↦ absurd (ground arith)
]

pub delivered-Balanced :
    (c : ℕ → ℕ) (o : Option (Operation × BlockingResult)) (s t : Scheduler)
    → delivered o s ≡ some t
    → Tallied s
    → Sends s
    → ((n : ℕ) → total n s + in_outcome (λ out. in_operation n out.0) o ≡ c n)
    → Balanced c t
delivered-Balanced c none s t e tally sends sums =
    let same : s ≡ t = ground arith in
    subst (Balanced c) same (tally, sends, (λ n. omega (arith, sums n)))
delivered-Balanced c (some (op, result)) s t e tally sends sums =
    elim (Option-cases (deliver op result)) [
      | inl none_due ↦ absurd (ground arith)
      | inr (r, due) ↦
          let same : answer r s ≡ t = ground arith in
          let to = deliver-sender op result r due in
          subst (Balanced c) same (answer-Balanced c r s tally sends (λ n. rw to (sums n)))
    ]

pub cleanup_reply-Balanced :
    (c : ℕ → ℕ) (o : Option (ℕ × Outcome CleanupReport)) (s : Scheduler)
    → Tallied s
    → Sends s
    → ((n : ℕ) → total n s + in_outcome (λ out. one_if n out.0) o ≡ c n)
    → Balanced c (cleanup_reply o s)
cleanup_reply-Balanced c none s tally sends sums = (tally, sends, (λ n. omega (arith, sums n)))
cleanup_reply-Balanced c (some (to, result)) s tally sends sums =
    answer-Balanced c (to, cleaned result) s tally sends sums

pub close_in-Balanced :
    (c : ℕ → ℕ) (to : ℕ) (l : Lifecycle) (s : Scheduler)
    → Tallied s
    → Sends s
    → ((n : ℕ) → total n s + one_if n to ≡ c n)
    → Balanced c (close_in to l s)
close_in-Balanced c to open_store s tally sends sums =
    push_pending-Balanced c (PendingEvent.close to) (record s { lifecycle = closing }) tally sends
      sums
close_in-Balanced c to closing s tally sends sums =
    push_pending-Balanced c (PendingEvent.close to) s tally sends sums
close_in-Balanced c to closed s tally sends sums =
    answer-Balanced c (done_with to (ok tt)) s tally sends sums
close_in-Balanced c to shutdown_failed s tally sends sums =
    answer-Balanced c (done_with to (err shutdown_failure)) s tally sends sums
close_in-Balanced c to failed s tally sends sums =
    answer-Balanced c (done_with to (err shutdown_failure)) s tally sends sums
