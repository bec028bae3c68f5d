-- ===== src/Engine/Store.antt =====
-- src/engine/mod.rs: Pending, CoordinatorJoin and the methods of EngineHandle. A method first reads
-- the lifecycle without keeping the lock, so that it may see an older value than the locked read
-- that follows; that first value is the argument `seen`.
pub mod Laws
use atomic_blob_storage.Base.{
  ℕ, ◌+◌, Bool, true, false, List, [], ◌∷◌, ◌++◌, Option, none, some, ltb, ◌==◌, if◌then◌else◌,
}
use atomic_blob_storage.Error.{
  Bytes, FilePath, StoreError, store_closed, engine_failed, shutdown_failure, blob_too_large,
  invalid_cleanup_age, maintenance_coordination_failure, BlobMetadata, BlobInspection,
  QuarantineInfo, CleanupReport, Result, ok, err, Outcome,
}
use atomic_blob_storage.Config.{StoreConfig}
use atomic_blob_storage.Naming.{Blake3, key_hash, blob_filename}
use atomic_blob_storage.Engine.Operation.{Operation}
use atomic_blob_storage.Engine.Event.{
  Lifecycle, open_store, closing, closed, shutdown_failed, failed, Submission, CoordinatorEvent,
  MaintenanceSubmission,
}
use atomic_blob_storage.Engine.Scheduler.Defs.{Scheduler, send, is_final}

pub data JoinOutcome : Type 0 where
  joined thread_panicked : JoinOutcome

-- The join handle is whether joining the coordinator's thread will report a panic.
pub record CoordinatorJoin : Type 0 where
  pub handle : Option Bool
  pub outcome : Option JoinOutcome

abbrev join_result : JoinOutcome → Outcome (Unit {0}) → Outcome (Unit {0})
join_result joined result = result
join_result thread_panicked result = err shutdown_failure

abbrev join_outcome : Bool → JoinOutcome
join_outcome true = thread_panicked
join_outcome false = joined

-- `none` is the panic of `expect`.
unfoldable pub finish :
    Outcome (Unit {0}) → CoordinatorJoin → Option (Outcome (Unit {0}) × CoordinatorJoin)
finish result j = elim j.outcome [
  | some outcome ↦ some (join_result outcome result, j)
  | none ↦ elim j.handle [
    | none ↦ none
    | some panics ↦ some (
      join_result (join_outcome panics) result,
      record { handle = none; outcome = some (join_outcome panics) },
    )
  ]
]

-- `Inner`, with what its Arcs share with the coordinator; `next` is the number of the next channel.
pub record Store : Type 0 where
  pub config : StoreConfig
  pub scheduler : Scheduler
  pub coordinator : CoordinatorJoin
  pub next : ℕ

-- The receiving end of a channel of capacity one; `filled` already holds its value.
pub data Receiver (A : Type 0) : Type 0 where
  channel : ℕ → Receiver A
  filled : Outcome A → Receiver A

-- `none` is a panic.
pub record Pending (A : Type 0) : Type 0 where
  pub receiver : Receiver A
  pub completion : Option (Outcome A) → Store → Option (Outcome A × Store)

abbrev unwrap_or : {A : Type 0} → A → Option A → A
unwrap_or a none = a
unwrap_or a (some b) = b

unfoldable pub new_pending : {A : Type 0} → Receiver A → Pending A
new_pending receiver = record {
  receiver = receiver;
  completion = λ result s. some (unwrap_or (err engine_failed) result, s);
}

unfoldable pub with_disconnected : {A : Type 0} → Receiver A → (Store → Outcome A) → Pending A
with_disconnected receiver disconnected = record {
  receiver = receiver;
  completion = λ result s. some (unwrap_or (disconnected s) result, s);
}

abbrev then_after :
    {A : Type 0}
    → (Outcome A → Store → Option (Outcome A × Store))
    → Option (Outcome A × Store)
    → Option (Outcome A × Store)
then_after after none = none
then_after after (some (result, s)) = after result s

unfoldable pub with_after :
    {A : Type 0} → Pending A → (Outcome A → Store → Option (Outcome A × Store)) → Pending A
with_after p after = record {
  receiver = p.receiver;
  completion = λ result s. then_after after (p.completion result s);
}

unfoldable pub resolved : {A : Type 0} → Outcome A → Pending A
resolved result = new_pending (filled result)

abbrev pub recv : {A : Type 0} → Receiver A → Option (Outcome A) → Option (Outcome A)
recv (channel n) arrived = arrived
recv (filled result) arrived = some result

-- `arrived` is what `recv` gives where the value was not there from the start: the reply, or nothing
-- when the sending end is gone.
unfoldable pub wait :
    {A : Type 0} → Pending A → Option (Outcome A) → Store → Option (Outcome A × Store)
wait p arrived s = p.completion (recv p.receiver arrived) s

-- The same match stands in `submit`, `submit_operation`, `flush` and the cleanup.
unfoldable pub ensure_open : Lifecycle → Outcome (Unit {0})
ensure_open open_store = ok tt
ensure_open closing = err store_closed
ensure_open closed = err store_closed
ensure_open shutdown_failed = err store_closed
ensure_open failed = err engine_failed

-- The send fails once the coordinator has dropped its receiver.
unfoldable pub send_event : CoordinatorEvent → StoreError → Store → Outcome (Unit {0}) × Store
send_event e failure s =
    if s.scheduler.stopped
    then (err failure, s)
    else (ok tt, record s { scheduler = send e s.scheduler })

-- What is behind the lifecycle lock: the check and the send.
unfoldable pub submit_event : CoordinatorEvent → StoreError → Store → Outcome (Unit {0}) × Store
submit_event e failure s = elim (ensure_open s.scheduler.lifecycle) [
  | err error ↦ (err error, s)
  | ok _ ↦ send_event e failure s
]

unfoldable pub submit_operation : ℕ → Operation → Store → Outcome (Unit {0}) × Store
submit_operation key operation =
    submit_event (CoordinatorEvent.submission (record { key_hash = key; operation = operation }))
      engine_failed

abbrev awaited : {A : Type 0} → Receiver A → Outcome (Unit {0}) × Store → Pending A × Store
awaited receiver (ok _, s) = (new_pending receiver, s)
awaited receiver (err error, s) = (resolved (err error), s)

unfoldable pub submit : {A : Type 0} → ℕ → Operation → Receiver A → Store → Pending A × Store
submit key operation receiver s = awaited receiver (submit_operation key operation s)

-- `flume::bounded`: new channels have the next numbers.
abbrev with_channels : ℕ → Store → Store
with_channels n s = record s { next = s.next + n }

-- The channels of a stream, as the facade holds them, and the result.
pub record SaveStreamEndpoint : Type 0 where
  pub chunks : ℕ
  pub result : Pending (Unit {0})

pub record LoadStreamEndpoint : Type 0 where
  pub chunks : ℕ
  pub acknowledgement : ℕ
  pub result : Pending (Option BlobMetadata)

module _ (blake3 : Blake3) where
  -- Check, make the channel of the result, submit.
  unfoldable pub request :
      {A : Type 0} → Lifecycle → Bytes → (ℕ → Operation) → Store → Pending A × Store
  request seen key operation s = elim (ensure_open seen) [
    | err error ↦ (resolved (err error), s)
    | ok _ ↦ submit (key_hash blake3 key) (operation s.next) (channel s.next) (with_channels 1 s)
  ]

  unfoldable pub load : Lifecycle → Bytes → Store → Pending (Option Bytes) × Store
  load seen key = request seen key Operation.load

  unfoldable pub save : Lifecycle → Bytes → Bytes → Store → Pending (Unit {0}) × Store
  save seen key payload = request seen key (Operation.save payload)

  unfoldable pub clear : Lifecycle → Bytes → Store → Pending (Unit {0}) × Store
  clear seen key = request seen key Operation.clear

  unfoldable pub inspect : Lifecycle → Bytes → Store → Pending BlobInspection × Store
  inspect seen key = request seen key Operation.inspect

  unfoldable pub quarantine : Lifecycle → Bytes → Store → Pending QuarantineInfo × Store
  quarantine seen key = request seen key Operation.quarantine

  abbrev endpoint : {E : Type 0} → E → Outcome (Unit {0}) × Store → Outcome E × Store
  endpoint e (ok _, s) = (ok e, s)
  endpoint e (err error, s) = (err error, s)

  unfoldable pub start_save_stream :
      Lifecycle → Bytes → ℕ → Store → Outcome SaveStreamEndpoint × Store
  start_save_stream seen key declared s = elim (ensure_open seen) [
    | err error ↦ (err error, s)
    | ok _ ↦
        if ltb s.config.maximum declared
        then (err (blob_too_large declared s.config.maximum), s)
        else endpoint (record { chunks = s.next; result = new_pending (channel (s.next + 1)) })
            (submit_operation (key_hash blake3 key)
              (Operation.save_stream declared s.next (s.next + 1)) (with_channels 2 s))
  ]

  unfoldable pub start_load_stream : Lifecycle → Bytes → Store → Outcome LoadStreamEndpoint × Store
  start_load_stream seen key s = elim (ensure_open seen) [
    | err error ↦ (err error, s)
    | ok _ ↦
        endpoint
          (record {
            chunks = s.next;
            acknowledgement = s.next + 1;
            result = new_pending (channel (s.next + 2));
          })
          (submit_operation (key_hash blake3 key)
            (Operation.load_stream (some s.next) (some (s.next + 1)) (s.next + 2))
            (with_channels 3 s))
  ]

  unfoldable pub blob_path : Bytes → Store → FilePath
  blob_path key s = s.config.namespace ++ (blob_filename blake3 s.config.format key ∷ [])

-- The age is in nanoseconds.
unfoldable pub cleanup_stale_temporary_files : Lifecycle → ℕ → Store → Pending CleanupReport × Store
cleanup_stale_temporary_files seen minimum_age s = elim (ensure_open seen) [
  | err error ↦ (resolved (err error), s)
  | ok _ ↦
      if minimum_age == 0
      then (resolved (err invalid_cleanup_age), s)
      else awaited (channel s.next) (
          submit_event
            (CoordinatorEvent.maintenance
              (record { minimum_age = some minimum_age; sender = s.next }))
            maintenance_coordination_failure (with_channels 1 s))
]

unfoldable pub flush : Lifecycle → Store → Pending (Unit {0}) × Store
flush seen s = elim (ensure_open seen) [
  | err error ↦ (resolved (err error), s)
  | ok _ ↦ awaited (channel s.next) (
      submit_event (CoordinatorEvent.flush s.next) maintenance_coordination_failure
        (with_channels 1 s))
]

-- What a close is answered by the lifecycle alone.
unfoldable pub closed_result : Lifecycle → Outcome (Unit {0})
closed_result closed = ok tt
closed_result shutdown_failed = err shutdown_failure
closed_result failed = err shutdown_failure
closed_result open_store = err engine_failed
closed_result closing = err engine_failed

abbrev pub joining : Outcome (Unit {0}) → Store → Option (Outcome (Unit {0}) × Store)
joining result s = elim (finish result s.coordinator) [
  | none ↦ none
  | some (result', j) ↦ some (result', record s { coordinator = j })
]

unfoldable pub closed_pending : Outcome (Unit {0}) → Pending (Unit {0})
closed_pending result = with_after (resolved result) joining

-- `none` is a deadlock: where the send fails, the lifecycle is locked again while its guard is alive.
unfoldable pub close : Lifecycle → Store → Option (Pending (Unit {0}) × Store)
close seen s =
    if is_final seen
    then some (closed_pending (closed_result seen), s)
    else if is_final s.scheduler.lifecycle
    then some (closed_pending (closed_result s.scheduler.lifecycle), with_channels 1 s)
    else close_with (send_event (CoordinatorEvent.close s.next) engine_failed (with_channels 1 s))
  where
    close_with : Outcome (Unit {0}) × Store → Option (Pending (Unit {0}) × Store)
    close_with (err error, s') = none
    close_with (ok _, s') = some (
      with_after (with_disconnected (channel s.next) (λ t. closed_result t.scheduler.lifecycle))
          joining,
      s',
    )
