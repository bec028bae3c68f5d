-- ===== src/Blocking.antt =====
-- src/blocking.rs: the streams of the blocking facade. Calls has the other methods.
pub mod Laws
pub mod Stored
pub mod Calls
use atomic_blob_storage.Base.{
  ℕ, zero, suc, ◌+◌, ◌-◌, ◌*◌, min, Bool, true, false, List, [], ◌∷◌, ◌++◌, length, Option, none,
  some, ltb, ◌==◌, if◌then◌else◌,
}
use atomic_blob_storage.Error.{
  Bytes, IoError, StoreError, input_ended_early, input_io, input_has_trailing_data, output_io,
  BlobMetadata, Result, ok, err, Outcome,
}
use atomic_blob_storage.Config.{stream_chunk_size}
use atomic_blob_storage.Stream.{Reader, read, Writer, write_all}
use atomic_blob_storage.Format.Encode.{SaveStreamMessage, chunk, complete}

abbrev next_receives : List Bool → Bool × List Bool
next_receives [] = (true, [])
next_receives (b ∷ bs) = (b, bs)

-- How the loop over the chunks ends: with all of the declared bytes, or with a result.
pub data Sending : Type 0 where
  all_sent : Reader → List Bool → Sending
  stopped_with : Outcome (Unit {0}) → Sending

-- What `result.wait()` gives stands for the engine's answer, where the channel still has a receiver
-- (`receives`, behind the list always) the sent messages are kept. A round reads at least one byte, so
-- that the missing length is fuel enough.
unfoldable pub send_chunks :
    ℕ → ℕ → ℕ → Outcome (Unit {0}) → Reader → List Bool → Sending × List SaveStreamMessage
send_chunks zero declared seen answer r receives = (all_sent r receives, [])
send_chunks (suc fuel) declared seen answer r receives =
    let (res, r') = read (min (declared - seen) stream_chunk_size) r in
    let (received, receives') = next_receives receives in
    if ltb seen declared
    then elim res [
      | err source ↦ (stopped_with (err (input_io source)), [])
      | ok [] ↦ (stopped_with (err (input_ended_early declared seen)), [])
      | ok (b ∷ bs) ↦
          let (end, sent) =
            send_chunks fuel declared (seen + length (b ∷ bs)) answer r' receives' in
          if received then (end, chunk (b ∷ bs) ∷ sent) else (stopped_with answer, [])
    ]
    else (all_sent r receives, [])

abbrev pub end_stream :
    ℕ
    → Outcome (Unit {0})
    → Sending × List SaveStreamMessage
    → Outcome (Unit {0}) × List SaveStreamMessage
end_stream declared answer (stopped_with result, sent) = (result, sent)
end_stream declared answer (all_sent r receives, sent) =
    let (res, r') = read 1 r in
    let (received, receives') = next_receives receives in
    elim res [
      | err source ↦ (err (input_io source), sent)
      | ok (b ∷ bs) ↦ (err (input_has_trailing_data declared), sent)
      | ok [] ↦ if received then (answer, sent ++ (complete ∷ [])) else (answer, sent)
    ]

-- `save_from`, once its stream was started: the result, and the messages that were sent.
unfoldable pub save_from :
    ℕ → Outcome (Unit {0}) → Reader → List Bool → Outcome (Unit {0}) × List SaveStreamMessage
save_from declared answer r receives =
    end_stream declared answer (send_chunks declared declared 0 answer r receives)

-- `load_into`, once its stream was started: the chunks that arrive are written in order. The last
-- component is whether the acknowledgement was sent.
unfoldable pub load_into :
    List Bytes
    → Outcome (Option BlobMetadata)
    → Writer
    → Outcome (Option BlobMetadata) × Writer × Bool
load_into [] answer w = (answer, w, true)
load_into (bs ∷ chunks) answer w =
    let (res, w') = write_all bs w in
    let rest = load_into chunks answer w' in
    elim res [ err source ↦ (err (output_io source), w', false) | ok _ ↦ rest ]
