-- ===== src/Filesystem/Load.antt =====
-- src/format.rs: load_blob and load_blob_into_sender.
use atomic_blob_storage.Base.{
  ℕ, zero, suc, ◌-◌, min, Bool, true, List, [], ◌∷◌, ◌++◌, Option, none, some, ◌==◌, if◌then◌else◌,
}
use atomic_blob_storage.Error.{
  Bytes, FilePath, IoError, StoreOperation, EnvelopeSection, io, stream_cancelled, BlobMetadata,
  Result, ok, err, Outcome, map_ok,
}
use atomic_blob_storage.Config.{StoreConfig, header_len, stream_chunk_size}
use atomic_blob_storage.Stream.{Reader}
use atomic_blob_storage.Format.Crc.{Crc32c}
use atomic_blob_storage.Format.Decode.{read_section, decode_reader, validate_envelope_reader}
use atomic_blob_storage.Filesystem.System.{System, is_not_found}
use atomic_blob_storage.Filesystem.Unix.{and_then, ensure_namespace_available}

-- The other end of a streaming load: whether each coming send still has a receiver (behind the list
-- they all have), and whether the acknowledgement is sent.
pub record Consumer : Type 0 where
  pub receives : List Bool
  pub acknowledges : Bool

abbrev next_receives : List Bool → Bool × List Bool
next_receives [] = (true, [])
next_receives (b ∷ bs) = (b, bs)

-- The loop over the payload; `sent` is what was sent before. Each round reads at least one byte, so
-- the remaining length is fuel enough.
unfoldable pub send_payload :
    ℕ → ℕ → List Bool → List Bytes → Reader → Outcome (Unit {0}) × List Bytes
send_payload zero remaining receives sent r = (ok tt, sent)
send_payload (suc fuel) remaining receives sent r =
    let requested = min remaining stream_chunk_size in
    let (res, r') = read_section requested EnvelopeSection.payload r in
    let (received, receives') = next_receives receives in
    if remaining == 0 then (ok tt, sent) else elim res [
      | err e ↦ (err e, sent)
      | ok chunk ↦
          if received
          then send_payload fuel (remaining - requested) receives' (sent ++ (chunk ∷ [])) r'
          else (err stream_cancelled, sent)
    ]

module _ {W : Type 0} (os : System W) (c : Crc32c) (config : StoreConfig) where
  abbrev pub open_blob :
      {A : Type 0} → FilePath → A → (Reader → W → Outcome A × W) → W → Outcome A × W
  open_blob path missing next w =
      let (opened, w1) = os.open_file path w in
      elim opened [
        | ok r ↦ next r w1
        | err source ↦
            if is_not_found source.kind
            then and_then (ensure_namespace_available os config w1) (λ _ w2. (ok missing, w2))
            else (err (io StoreOperation.open_blob source), w1)
      ]

  unfoldable pub load_blob : FilePath → W → Outcome (Option Bytes) × W
  load_blob path =
      open_blob path none
        λ r w1. (map_ok some (decode_reader c config.format config.maximum r).0, w1)

  -- The acknowledgement is awaited after the last chunk.
  abbrev acknowledged : Consumer → BlobMetadata → Outcome (Unit {0}) → Outcome (Option BlobMetadata)
  acknowledged consumer metadata (err e) = err e
  acknowledged consumer metadata (ok _) =
      if consumer.acknowledges then ok (some metadata) else err stream_cancelled

  abbrev pub sent_none :
      Outcome (Option BlobMetadata) × W → (Outcome (Option BlobMetadata) × List Bytes) × W
  sent_none (res, w2) = ((res, []), w2)

  abbrev pub send_seeked :
      Consumer → BlobMetadata → Result Reader IoError → Outcome (Option BlobMetadata) × List Bytes
  send_seeked consumer metadata (err source) = (err (io StoreOperation.read_envelope source), [])
  send_seeked consumer metadata (ok r) =
      let (res, sent) =
        send_payload metadata.payload_len metadata.payload_len consumer.receives [] r in
      (acknowledged consumer metadata res, sent)

  abbrev pub send_validated :
      FilePath
      → Consumer
      → Outcome BlobMetadata
      → W
      → (Outcome (Option BlobMetadata) × List Bytes) × W
  send_validated path consumer (err e) w = ((err e, []), w)
  send_validated path consumer (ok metadata) w =
      let (sought, w2) = os.seek_start path header_len w in
      (send_seeked consumer metadata sought, w2)

  -- The chunks that were sent are part of the result.
  unfoldable pub load_blob_into_sender :
      FilePath → Consumer → W → (Outcome (Option BlobMetadata) × List Bytes) × W
  load_blob_into_sender path consumer w =
      let (opened, w1) = os.open_file path w in
      elim opened [
        | err source ↦
            if is_not_found source.kind
            then sent_none
                (and_then (ensure_namespace_available os config w1) (λ _ w2. (ok none, w2)))
            else ((err (io StoreOperation.open_blob source), []), w1)
        | ok r ↦
            send_validated path consumer
              (validate_envelope_reader c config.format config.maximum r).0 w1
      ]
