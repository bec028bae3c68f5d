-- ===== src/Tests/Coordinator.antt =====
-- src/engine on small runs, and the theorems about it at such inputs.
use atomic_blob_storage.Base.{
  ◌+◌, ◌≤◌, ◌≡◌, refl, ap, ◌⊎◌, inl, true, false, [], ◌∷◌, ◌++◌, length, is_empty, min, none, some,
  arith,
}
use atomic_blob_storage.Error.{StoreError, BlobState, store_closed, engine_failed, ok, err, Outcome}
use atomic_blob_storage.Naming.{Blake3, key_hash}
use atomic_blob_storage.Stream.{byte, split, Reader}
use atomic_blob_storage.Blocking.{save_from}
use atomic_blob_storage.Blocking.Laws.{Settles, save_from-clean}
use atomic_blob_storage.Engine.Operation.{
  Operation, BlockingResult, Reply, metadata, Backend, deliver, deliver_error, run_owned_operation,
}
use atomic_blob_storage.Engine.Operation.Laws.{run-deliver}
use atomic_blob_storage.Engine.Event.{PendingEvent, open_store, CoordinatorEvent}
use atomic_blob_storage.Engine.Workers.{
  WorkerPool, new_pool, prepare, start_workers, execute, shutdown,
}
use atomic_blob_storage.Engine.Workers.Laws.{prepare-length}
use atomic_blob_storage.Engine.Queues.{
  Queues, queue, push_back, front, pop_front, find_ready, remove_if_empty, remove,
}
use atomic_blob_storage.Engine.Queues.Entries.{IsHashOrder}
use atomic_blob_storage.Engine.Scheduler.Defs.{Scheduler, initial, send, is_open}
use atomic_blob_storage.Engine.Scheduler.Dispatch.{
  launch, start, dispatch_if_idle, dispatch_rounds, dispatch_available, advance,
  advance_pending_if_ready,
}
use atomic_blob_storage.Engine.Scheduler.Handle.{
  handle, round, on_submission, on_close, check_shutdown, shut_down,
}
use atomic_blob_storage.Engine.Scheduler.History.{started_of, history}
use atomic_blob_storage.Engine.Scheduler.Fifo.{arrival, history-handle}
use atomic_blob_storage.Engine.Scheduler.Invariant.{IsConsistent, initial-IsConsistent}
use atomic_blob_storage.Engine.Scheduler.Rounds.{handle-IsConsistent}
use atomic_blob_storage.Engine.Scheduler.Progress.{EndsDrained, handle-EndsDrained, handle-started}
use atomic_blob_storage.Engine.Scheduler.Reach.{
  Reachable, opened, sent, handled, EndsFinal, Reachable-IsConsistent, Reachable-runs,
}
use atomic_blob_storage.Engine.Scheduler.Barriers.{Waits, advance_pending_if_ready-Waits}
use atomic_blob_storage.Engine.Store.{
  CoordinatorJoin, finish, Store, Pending, submit_operation, start_save_stream, close,
}
use atomic_blob_storage.Engine.Store.Laws.{
  Joins, Closes, is_ok, finish-finish, submit_operation-cases, start_save_stream-cases,
  Reachable-close,
}
use atomic_blob_storage.Tests.Samples.{identity, abc}

abbrev pub in_order : Queues → Queues
in_order m = m

pub in_order-IsHashOrder : IsHashOrder in_order
in_order-IsHashOrder = record { visits = λ P m. ((λ h. h), (λ h. h)) }

-- One worker at most.
abbrev pub fresh : Scheduler
fresh = initial (new_pool 1 [])

abbrev pub first : CoordinatorEvent
first = CoordinatorEvent.submission (record { key_hash = 7; operation = Operation.save abc 0 })

abbrev second : CoordinatorEvent
second = CoordinatorEvent.submission (record { key_hash = 8; operation = Operation.load 1 })

-- The first operation runs, the second waits for the only slot.
abbrev both : Scheduler
both = handle in_order 1 second (handle in_order 1 first fresh)

both_waits : queue 8 both.queues ≡ Operation.load 1 ∷ []
unfolding handle on_submission check_shutdown dispatch_available dispatch_rounds dispatch_if_idle
    start launch execute prepare start_workers push_back pop_front front find_ready initial new_pool
    remove_if_empty remove
both_waits = refl

both_runs : both.active ≡ 7 ∷ []
unfolding handle on_submission check_shutdown dispatch_available dispatch_rounds dispatch_if_idle
    start launch execute prepare start_workers push_back pop_front front find_ready initial new_pool
    remove_if_empty remove
both_runs = refl

-- While the first operation runs, a flush waits.
abbrev flushing : Scheduler
flushing = record both { pending = PendingEvent.flush 3 ∷ [] }

advance_pending_if_ready-Waits_example : Waits flushing (advance_pending_if_ready 1 flushing)
advance_pending_if_ready-Waits_example =
    advance_pending_if_ready-Waits 1 flushing (inl (ap is_empty both_runs))

both-IsConsistent : IsConsistent 1 both
both-IsConsistent =
    handle-IsConsistent in_order in_order-IsHashOrder 1 second (handle in_order 1 first fresh) (
      handle-IsConsistent in_order in_order-IsHashOrder 1 first fresh
        (initial-IsConsistent 1 (new_pool 1 [])))

history-handle_example :
    history 8 (handle in_order 1 second (handle in_order 1 first fresh))
    ≡ history 8 (handle in_order 1 first fresh) ++ arrival 8 (handle in_order 1 first fresh) second
history-handle_example = history-handle in_order 1 8 second (handle in_order 1 first fresh) tt

both_goes : both.stopped ≡ false
unfolding handle on_submission check_shutdown dispatch_available dispatch_rounds dispatch_if_idle
    start launch execute prepare start_workers push_back pop_front front find_ready initial new_pool
    remove_if_empty remove
both_goes = refl

handle-EndsDrained_example : EndsDrained (handle in_order 1 (CoordinatorEvent.close 2) both)
handle-EndsDrained_example =
    handle-EndsDrained in_order in_order-IsHashOrder 1 (CoordinatorEvent.close 2) both
      both-IsConsistent both_goes

closes : (handle in_order 1 (CoordinatorEvent.close 2) fresh).stopped ≡ true
unfolding handle on_close check_shutdown shut_down advance_pending_if_ready advance initial new_pool
    shutdown
closes = refl

handle-started_example :
    started_of 7 (handle in_order 1 (CoordinatorEvent.close 2) fresh).started
    ≡ history 7 fresh ++ arrival 7 fresh (CoordinatorEvent.close 2)
unfolding initial
handle-started_example =
    handle-started in_order in_order-IsHashOrder 1 7 (CoordinatorEvent.close 2) fresh
      (initial-IsConsistent 1 (new_pool 1 [])) tt refl closes

fresh_goes : fresh.stopped ≡ false
unfolding initial
fresh_goes = refl

once : Reachable in_order 1 (round in_order 1 (send first fresh))
once = handled (send first fresh) (sent fresh first (opened (new_pool 1 [])) fresh_goes)

Reachable-IsConsistent_example :
    IsConsistent 1 (round in_order 1 (send first fresh))
    × EndsFinal (round in_order 1 (send first fresh))
Reachable-IsConsistent_example =
    Reachable-IsConsistent in_order in_order-IsHashOrder 1 (round in_order 1 (send first fresh))
      once

-- Both operations have been sent, and two rounds were made.
abbrev two_rounds : Scheduler
two_rounds = round in_order 1 (round in_order 1 (send second (send first fresh)))

twice : Reachable in_order 1 two_rounds
unfolding initial
twice = handled (round in_order 1 (send second (send first fresh))) (
    handled (send second (send first fresh))
      (sent (send first fresh) second (sent fresh first (opened (new_pool 1 [])) refl) refl))

two_rounds_wait : queue 8 two_rounds.queues ≡ Operation.load 1 ∷ []
unfolding round handle on_submission check_shutdown dispatch_available dispatch_rounds
    dispatch_if_idle start launch execute prepare start_workers push_back pop_front front find_ready
    initial new_pool remove_if_empty remove
two_rounds_wait = refl

Reachable-runs_example :
    (is_empty two_rounds.active ≡ false) ⊎ (two_rounds.maintenance_active ≡ true)
Reachable-runs_example =
    Reachable-runs in_order in_order-IsHashOrder 1 8 two_rounds twice (omega arith)
      (inl (λ e. absurd (ground (arith, two_rounds_wait))))

abbrev store : Store
store = record {
  config = record {
    namespace = (b'n' ∷ []) ∷ [];
    format = identity;
    maximum = 1024;
    max_concurrent_operations = 1;
  };
  scheduler = fresh;
  coordinator = record { handle = some false; outcome = none };
  next = 5;
}

Reachable-close_example :
    (p : Pending (Unit {0})) × (s' : Store) × (close open_store store ≡ some (p, s'))
    × Closes open_store store p s'
Reachable-close_example =
    Reachable-close in_order 1 in_order-IsHashOrder open_store store (opened (new_pool 1 []))

submit_operation-cases_example :
    ((submit_operation 7 (Operation.load 4) store).0 ≡ ok tt
      × (is_open fresh.lifecycle ≡ true)
      × (fresh.stopped ≡ false)
      × ((submit_operation 7 (Operation.load 4) store).1 ≡ record store {
        scheduler =
            send
              (CoordinatorEvent.submission (record { key_hash = 7; operation = Operation.load 4 }))
              fresh;
      }))
    ⊎ (((is_open fresh.lifecycle ≡ false) ⊎ (fresh.stopped ≡ true))
        × ((submit_operation 7 (Operation.load 4) store).1 ≡ store)
        × (((submit_operation 7 (Operation.load 4) store).0 ≡ err store_closed)
            ⊎ ((submit_operation 7 (Operation.load 4) store).0 ≡ err engine_failed)))
submit_operation-cases_example = submit_operation-cases 7 (Operation.load 4) store

-- A stand-in for the digest: the length.
abbrev toy : Blake3
toy = record { hash = length; to_hex = λ n. n ∷ [] }

start_save_stream-cases_example :
    ((is_ok (start_save_stream toy open_store abc 9 store).0 ≡ true)
      × (9 ≤ 1024)
      × (is_open fresh.lifecycle ≡ true)
      × (fresh.stopped ≡ false)
      × ((start_save_stream toy open_store abc 9 store).1.scheduler
          ≡ send
              (CoordinatorEvent.submission (record {
                key_hash = key_hash toy abc;
                operation = Operation.save_stream 9 5 (5 + 1);
              }))
              fresh))
    ⊎ ((is_ok (start_save_stream toy open_store abc 9 store).0 ≡ false)
        × ((start_save_stream toy open_store abc 9 store).1.scheduler ≡ fresh))
start_save_stream-cases_example = start_save_stream-cases toy open_store abc 9 store

finish-finish_example :
    (r1 : Outcome (Unit {0})) × (j1 : CoordinatorJoin) × (finish
        (ok tt)
        (record { handle = some true; outcome = none })
      ≡ some (r1, j1))
    × Joins (record { handle = some true; outcome = none }) (ok tt) r1 j1
finish-finish_example =
    finish-finish (ok tt) (record { handle = some true; outcome = none })
      (inl (λ e. absurd (ground arith)))

-- A filesystem that holds nothing and takes nothing.
abbrev nothing : Backend (Unit {0})
nothing = record {
  load_blob = λ w. (ok none, w);
  load_blob_into_sender = λ chunks ack w. (ok none, w);
  save_blob = λ payload w. (ok tt, w);
  save_blob_from_receiver = λ declared chunks w. (ok tt, w);
  clear_blob = λ w. (ok tt, w);
  inspect_blob = λ w. (ok (record { state = BlobState.absent; size = none; modified = none }), w);
  quarantine_blob = λ w. (err StoreError.quarantine_source_missing, w);
}

run-deliver_example :
    (op' : Operation) × (result : BlockingResult) × (w' : Unit {0}) × (reply : Reply)
    × (run_owned_operation nothing (Operation.load_stream (some 2) (some 3) 4) tt
        ≡ some ((op', result), w'))
    × (deliver op' result ≡ some (4, reply))
    × ((reply ≡ metadata (ok none)) × (w' ≡ tt))
    × ((e : StoreError) → (deliver_error (Operation.load_stream (some 2) (some 3) 4) e).0 ≡ 4)
run-deliver_example =
    run-deliver nothing (Operation.load_stream (some 2) (some 3) 4) tt
      ((λ e. absurd (ground arith)), (λ e. absurd (ground arith)))

-- Three workers are missing, and the second of them cannot be started.
abbrev pool : WorkerPool
pool = new_pool 3 (some false ∷ none ∷ [])

prepare-length_example :
    (length (prepare 5 pool).1.handles ≤ pool.capacity)
    × (length pool.handles ≤ length (prepare 5 pool).1.handles)
    × ((prepare 5 pool).0 ≡ ok tt → min 5 pool.capacity ≤ length (prepare 5 pool).1.handles)
unfolding new_pool
prepare-length_example = prepare-length 5 pool (omega arith)

-- Two bytes, and one more in a second read, where three were declared.
abbrev source : Reader
source = byte b'a' ∷ byte b'b' ∷ split ∷ byte b'c' ∷ []

save_from-clean_example : Settles 3 (ok tt) source (save_from 3 (ok tt) source [])
save_from-clean_example = save_from-clean 3 (ok tt) source tt
