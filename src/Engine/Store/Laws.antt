-- ===== src/Engine/Store/Laws.antt =====
-- src/engine/mod.rs: when a request reaches the coordinator, and what close answers.
use atomic_blob_storage.Base.{
  ℕ, ◌+◌, ◌≤◌, ◌≡◌, ◌≢◌, refl, ◌⊎◌, inl, inr, Bool, true, false, Option, none, some, arith,
  Bool-cases,
}
use atomic_blob_storage.Error.{
  Bytes, store_closed, engine_failed, shutdown_failure, Result, ok, err, Outcome,
}
use atomic_blob_storage.Naming.{Blake3, key_hash}
use atomic_blob_storage.Engine.Operation.{Operation}
use atomic_blob_storage.Engine.Event.{Lifecycle, CoordinatorEvent}
use atomic_blob_storage.Engine.Scheduler.Defs.{send, is_open, is_final}
use atomic_blob_storage.Engine.Queues.{Queues}
use atomic_blob_storage.Engine.Queues.Entries.{IsHashOrder}
use atomic_blob_storage.Engine.Scheduler.Reach.{Reachable, Reachable-IsConsistent}
use atomic_blob_storage.Engine.Store.{
  JoinOutcome, joined, thread_panicked, CoordinatorJoin, finish, Store, channel, Pending,
  with_disconnected, with_after, ensure_open, send_event, submit_event, submit_operation,
  start_save_stream, closed_result, closed_pending, joining, close, wait, new_pending, resolved,
}

-- The coordinator's thread can be joined, or was joined before.
abbrev pub IsJoinable : CoordinatorJoin → Type 0
IsJoinable j = (j.handle ≢ none) ⊎ (j.outcome ≢ none)

-- The coordinator's thread ended well, or with a panic: as the first join found, or as the join handle
-- will report.
abbrev pub EndedWell : CoordinatorJoin → Type 0
EndedWell j = (j.outcome ≡ some joined) ⊎ ((j.outcome ≡ none) × (j.handle ≡ some false))

abbrev pub Panicked : CoordinatorJoin → Type 0
Panicked j = (j.outcome ≡ some thread_panicked) ⊎ ((j.outcome ≡ none) × (j.handle ≡ some true))

-- The result `r1` of joining `j` with the result `r`, and what every later join from `j1` gives.
abbrev pub Joins :
    CoordinatorJoin → Outcome (Unit {0}) → Outcome (Unit {0}) → CoordinatorJoin → Type 0
Joins j r r1 j1 =
    (EndedWell j × (r1 ≡ r) × ((q : Outcome (Unit {0})) → finish q j1 ≡ some (q, j1)))
    ⊎ (Panicked j
        × (r1 ≡ err shutdown_failure)
        × ((q : Outcome (Unit {0})) → finish q j1 ≡ some (err shutdown_failure, j1)))

-- Where the coordinator's thread can be joined or was joined, joining does not panic. Where the
-- thread ended well, each join has its own result; where it panicked, the first and every later
-- join give a shutdown failure.
pub finish-finish :
    (r : Outcome (Unit {0})) (j : CoordinatorJoin)
    → IsJoinable j
    → (r1 : Outcome (Unit {0})) × (j1 : CoordinatorJoin) × (finish r j ≡ some (r1, j1))
      × Joins j r r1 j1
unfolding finish
finish-finish r j h = go j.handle j.outcome h
  where
    go :
        (hd : Option Bool) (oc : Option JoinOutcome)
        → IsJoinable (record { handle = hd; outcome = oc })
        → (r1 : Outcome (Unit {0})) × (j1 : CoordinatorJoin) × (finish r
              (record { handle = hd; outcome = oc })
            ≡ some (r1, j1))
          × Joins (record { handle = hd; outcome = oc }) r r1 j1
    go hd (some joined) h = (_, _, refl, inl (inl refl, refl, (λ q. refl)))
    go hd (some thread_panicked) h = (_, _, refl, inr (inl refl, refl, (λ q. refl)))
    go none none (inl h) = absurd (h refl)
    go none none (inr h) = absurd (h refl)
    go (some true) none h = (_, _, refl, inr (inr (refl, refl), refl, (λ q. refl)))
    go (some false) none h = (_, _, refl, inl (inr (refl, refl), refl, (λ q. refl)))

-- A request is appended to the coordinator's channel exactly where the store is open under the
-- lock and the coordinator runs; otherwise nothing changes, and the caller has an error at once.
pub submit_operation-cases :
    (key : ℕ) (operation : Operation) (s : Store)
    → ((submit_operation key operation s).0 ≡ ok tt
        × (is_open s.scheduler.lifecycle ≡ true)
        × (s.scheduler.stopped ≡ false)
        × ((submit_operation key operation s).1 ≡ record s {
          scheduler =
              send
                (CoordinatorEvent.submission (record { key_hash = key; operation = operation }))
                s.scheduler;
        }))
      ⊎ (((is_open s.scheduler.lifecycle ≡ false) ⊎ (s.scheduler.stopped ≡ true))
          × ((submit_operation key operation s).1 ≡ s)
          × (((submit_operation key operation s).0 ≡ err store_closed)
              ⊎ ((submit_operation key operation s).0 ≡ err engine_failed)))
unfolding submit_operation submit_event send_event ensure_open
submit_operation-cases key operation s = ground arith

abbrev pub is_ok : {A E : Type 0} → Result A E → Bool
is_ok (ok a) = true
is_ok (err e) = false

-- A streaming save that succeeds declares no more than the maximum, finds the store open and the
-- coordinator running, and sends one submission; where it fails, the coordinator sees nothing of
-- it.
pub start_save_stream-cases :
    (blake3 : Blake3) (seen : Lifecycle) (key : Bytes) (declared : ℕ) (s : Store)
    → ((is_ok (start_save_stream blake3 seen key declared s).0 ≡ true)
        × (declared ≤ s.config.maximum)
        × (is_open s.scheduler.lifecycle ≡ true)
        × (s.scheduler.stopped ≡ false)
        × ((start_save_stream blake3 seen key declared s).1.scheduler
            ≡ send
                (CoordinatorEvent.submission (record {
                  key_hash = key_hash blake3 key;
                  operation = Operation.save_stream declared s.next (s.next + 1);
                }))
                s.scheduler))
      ⊎ ((is_ok (start_save_stream blake3 seen key declared s).0 ≡ false)
          × ((start_save_stream blake3 seen key declared s).1.scheduler ≡ s.scheduler))
unfolding start_save_stream submit_operation submit_event send_event ensure_open
start_save_stream-cases blake3 seen key declared s = ground arith

-- What a close is answered by a final lifecycle: a success where the store is closed, and otherwise a
-- shutdown failure.
abbrev pub FinalAnswer : Lifecycle → Outcome (Unit {0}) → Type 0
FinalAnswer l r =
    (is_final l ≡ true)
    × (((l ≡ Lifecycle.closed) × (r ≡ ok tt))
        ⊎ ((l ≢ Lifecycle.closed) × (r ≡ err shutdown_failure)))

-- The result is there without any reply: whatever arrives, waiting only joins the coordinator, with
-- the answer of one of the two lifecycles that were read.
abbrev pub Answers : Lifecycle → Store → Pending (Unit {0}) → Type 0
Answers seen s p =
    (r : Outcome (Unit {0})) × (FinalAnswer seen r ⊎ FinalAnswer s.scheduler.lifecycle r)
    × ((arrived : Option (Outcome (Unit {0}))) (t : Store) → wait p arrived t ≡ joining r t)

-- The result is the reply on a channel of its own, and where its sending end is gone, what the
-- lifecycle says then; and the coordinator is joined.
abbrev pub Awaits : ℕ → Pending (Unit {0}) → Type 0
Awaits to p =
    (p.receiver ≡ channel to)
    × ((reply : Outcome (Unit {0})) (t : Store) → wait p (some reply) t ≡ joining reply t)
    × ((t : Store) → wait p none t ≡ joining (closed_result t.scheduler.lifecycle) t)

abbrev pub Closes : Lifecycle → Store → Pending (Unit {0}) → Store → Type 0
Closes seen s p s' =
    ((s'.scheduler ≡ s.scheduler) × Answers seen s p)
    ⊎ ((s'.scheduler ≡ send (CoordinatorEvent.close s.next) s.scheduler)
        × (s.scheduler.stopped ≡ false)
        × Awaits s.next p)

closed_result-FinalAnswer : (l : Lifecycle) → is_final l ≡ true → FinalAnswer l (closed_result l)
unfolding closed_result
closed_result-FinalAnswer l h = ground arith

closed_pending-wait :
    (r : Outcome (Unit {0})) (arrived : Option (Outcome (Unit {0}))) (t : Store)
    → wait (closed_pending r) arrived t ≡ joining r t
unfolding closed_pending with_after resolved new_pending wait
closed_pending-wait r arrived t = refl

-- The result of a close that was sent.
abbrev sent_pending : ℕ → Pending (Unit {0})
sent_pending to =
    with_after (with_disconnected (channel to) (λ t. closed_result t.scheduler.lifecycle)) joining

sent_pending-Awaits : (to : ℕ) → Awaits to (sent_pending to)
unfolding with_after with_disconnected wait
sent_pending-Awaits to = (refl, (λ reply t. refl), (λ t. refl))

close-cases :
    (seen : Lifecycle) (s : Store)
    → (s.scheduler.stopped ≡ true → is_final s.scheduler.lifecycle ≡ true)
    → (p : Pending (Unit {0})) × (s' : Store) × (close seen s ≡ some (p, s')) × Closes seen s p s'
unfolding close send_event
close-cases seen s h = elim (Bool-cases (is_final seen)) [
  | inl e ↦ (
    closed_pending (closed_result seen),
    s,
    rw (e, close) refl,
    inl (refl, (closed_result seen, inl (closed_result-FinalAnswer seen e), closed_pending-wait _)),
  )
  | inr e ↦ elim (Bool-cases (is_final s.scheduler.lifecycle)) [
    | inl f ↦
        let l = s.scheduler.lifecycle in
        (
          closed_pending (closed_result l),
          record s { next = s.next + 1 },
          rw (e, f, close) refl,
          inl (refl, (closed_result l, inr (closed_result-FinalAnswer l f), closed_pending-wait _)),
        )
    | inr f ↦
        let goes : s.scheduler.stopped ≡ false = ground arith in
        (
          sent_pending s.next,
          record s {
            next = s.next + 1;
            scheduler = send (CoordinatorEvent.close s.next) s.scheduler;
          },
          rw (e, f, goes, close, send_event) refl,
          inr (refl, goes, sent_pending-Awaits s.next),
        )
  ]
]

-- With a coordinator in any reachable state, close does not deadlock. Either it sends nothing, and
-- its result is there without any reply: joining the coordinator, with success where one of the
-- two lifecycles that it read is closed, or with a shutdown failure where one of them is another
-- final one. Or it sends its event to a coordinator that runs, and its result is what comes on the
-- channel that the event names, or, where the sending end is gone, what the lifecycle says then,
-- and the coordinator is joined.
pub Reachable-close :
    (iter : Queues → Queues) (maximum : ℕ)
    → IsHashOrder iter
    → (seen : Lifecycle) (s : Store) → Reachable iter maximum s.scheduler
    → (p : Pending (Unit {0})) × (s' : Store) × (close seen s ≡ some (p, s')) × Closes seen s p s'
Reachable-close iter maximum order seen s r =
    close-cases seen s (Reachable-IsConsistent iter order maximum s.scheduler r).1
