-- ===== src/Tokio.antt =====
-- src/tokio.rs: the streams of the Tokio facade, and the operations of its other methods.
pub mod Laws
use atomic_blob_storage.Base.{
  ℕ, zero, suc, ◌+◌, ◌-◌, min, Bool, true, false, List, [], ◌∷◌, ◌++◌, length, Option, some, none,
  ltb, if◌then◌else◌,
}
use atomic_blob_storage.Error.{
  Bytes, FilePath, StoreError, IoError, StoreOperation, io, engine_failed, input_ended_early,
  input_io, input_has_trailing_data, output_io, BlobMetadata, BlobInspection, QuarantineInfo,
  CleanupReport, Result, ok, err, Outcome,
}
use atomic_blob_storage.Config.{Options, stream_chunk_size}
use atomic_blob_storage.Naming.{Blake3, Component}
use atomic_blob_storage.Stream.{Reader, read, Writer, write_all}
use atomic_blob_storage.Filesystem.Platform.{Platform}
use atomic_blob_storage.Format.Encode.{SaveStreamMessage, chunk, complete}
use atomic_blob_storage.Engine.Event.{Lifecycle}
use atomic_blob_storage.Engine.Store
use atomic_blob_storage.Engine.Open.{Threads, open_handle}
use atomic_blob_storage.Engine.Store.{Store, Pending, Receiver, recv}

-- What a list says of the coming rounds, and the default behind its end.
abbrev pub next_or : Bool → List Bool → Bool × List Bool
next_or default [] = (default, [])
next_or default (b ∷ bs) = (b, bs)

-- How the loop over the chunks ends: with all of the declared bytes, or with a result.
pub data Sending : Type 0 where
  all_sent : Reader → List Bool → List Bool → Sending
  stopped_with : Outcome (Unit {0}) → Sending

-- `ready` says for each `select!`, which is biased, whether the engine's answer is there before the
-- reader is polled; behind the list it is not. `receives` is that of the blocking facade: whether the
-- channel still has a receiver. A round reads at least one byte.
unfoldable pub send_chunks :
    ℕ
    → ℕ
    → ℕ
    → Outcome (Unit {0})
    → Reader
    → List Bool
    → List Bool
    → Sending × List SaveStreamMessage
send_chunks zero declared seen answer r receives ready = (all_sent r receives ready, [])
send_chunks (suc fuel) declared seen answer r receives ready =
    let (answered, ready') = next_or false ready in
    let (res, r') = read (min (declared - seen) stream_chunk_size) r in
    let (received, receives') = next_or true receives in
    if ltb seen declared
    then elim answered [
      | true ↦ (stopped_with answer, [])
      | false ↦ elim res [
        | err source ↦ (stopped_with (err (input_io source)), [])
        | ok [] ↦ (stopped_with (err (input_ended_early declared seen)), [])
        | ok (b ∷ bs) ↦
            let (end, sent) =
              send_chunks fuel declared (seen + length (b ∷ bs)) answer r' receives' ready' in
            if received then (end, chunk (b ∷ bs) ∷ sent) else (stopped_with answer, [])
      ]
    ]
    else (all_sent r receives ready, [])

abbrev pub end_stream :
    ℕ
    → Outcome (Unit {0})
    → Sending × List SaveStreamMessage
    → Outcome (Unit {0}) × List SaveStreamMessage
end_stream declared answer (stopped_with result, sent) = (result, sent)
end_stream declared answer (all_sent r receives ready, sent) =
    let (answered, ready') = next_or false ready in
    let (res, r') = read 1 r in
    let (received, receives') = next_or true receives in
    elim answered [
      | true ↦ (answer, sent)
      | false ↦ elim res [
        | err source ↦ (err (input_io source), sent)
        | ok (b ∷ bs) ↦ (err (input_has_trailing_data declared), sent)
        | ok [] ↦ if received then (answer, sent ++ (complete ∷ [])) else (answer, sent)
      ]
    ]

-- `save_from`, once its stream was started: the result, and the messages that were sent.
unfoldable pub save_from :
    ℕ
    → Outcome (Unit {0})
    → Reader
    → List Bool
    → List Bool
    → Outcome (Unit {0}) × List SaveStreamMessage
save_from declared answer r receives ready =
    end_stream declared answer (send_chunks declared declared 0 answer r receives ready)

-- `load_into`, once its stream was started, as in the blocking facade.
unfoldable pub load_into :
    List Bytes
    → Outcome (Option BlobMetadata)
    → Writer
    → Outcome (Option BlobMetadata) × Writer × Bool
load_into [] answer w = (answer, w, true)
load_into (bs ∷ chunks) answer w =
    let (res, w') = write_all bs w in
    let rest = load_into chunks answer w' in
    elim res [ err source ↦ (err (output_io source), w', false) | ok _ ↦ rest ]

-- A submitted operation: what it gives when it is polled to its end.
pub record Operation (A : Type 0) : Type 0 where
  pub future : Option (Outcome A) → Store → Option (Outcome A × Store)

-- `Operation::new`, with `Pending::wait_async`.
abbrev pub new_operation : {A : Type 0} → Pending A → Operation A
new_operation p = record { future = λ arrived s. p.completion (recv p.receiver arrived) s }

abbrev wrap : {A : Type 0} → Pending A × Store → Operation A × Store
wrap (p, s) = (new_operation p, s)

module _ (blake3 : Blake3) (seen : Lifecycle) (key : Bytes) where
  unfoldable pub load : Store → Operation (Option Bytes) × Store
  load s = wrap (Store.load blake3 seen key s)

  unfoldable pub save : Bytes → Store → Operation (Unit {0}) × Store
  save payload s = wrap (Store.save blake3 seen key payload s)

  unfoldable pub clear : Store → Operation (Unit {0}) × Store
  clear s = wrap (Store.clear blake3 seen key s)

  unfoldable pub inspect : Store → Operation BlobInspection × Store
  inspect s = wrap (Store.inspect blake3 seen key s)

  unfoldable pub quarantine : Store → Operation QuarantineInfo × Store
  quarantine s = wrap (Store.quarantine blake3 seen key s)

unfoldable pub cleanup_stale_temporary_files :
    Lifecycle → ℕ → Store → Operation CleanupReport × Store
cleanup_stale_temporary_files seen minimum_age s =
    wrap (Store.cleanup_stale_temporary_files seen minimum_age s)

unfoldable pub flush : Lifecycle → Store → Operation (Unit {0}) × Store
flush seen s = wrap (Store.flush seen s)

unfoldable pub close : Lifecycle → Store → Option (Operation (Unit {0}) × Store)
close seen s = elim (Store.close seen s) [ none ↦ none | some (p, s') ↦ some (wrap (p, s')) ]

unfoldable pub blob_path : Blake3 → Bytes → Store → FilePath
blob_path blake3 key s = Store.blob_path blake3 key s

-- `open`: a thread opens the handle and sends the result. `started` is the failure to start it, and
-- `sends` is false where the thread panics before it sends.
unfoldable pub open_store :
    {W : Type 0}
    → Platform W
    → Option IoError
    → Bool
    → FilePath
    → Bool
    → List Component
    → Options
    → Threads
    → W
    → Outcome Store × W
open_store platform (some source) sends root relative namespace options threads w =
    (err (io StoreOperation.start_initialization source), w)
open_store platform none false root relative namespace options threads w =
    (err engine_failed, (open_handle platform root relative namespace options threads w).1)
open_store platform none true root relative namespace options threads w =
    open_handle platform root relative namespace options threads w
