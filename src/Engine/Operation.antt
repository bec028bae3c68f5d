-- ===== src/Engine/Operation.antt =====
-- src/engine/operation.rs: operations, their results and the delivery of replies. The sending end of
-- a channel is the channel's number, and a reply is what is sent on it.
pub mod Laws
use atomic_blob_storage.Base.{ℕ, List, Option, none, some, ◌≡◌}
use atomic_blob_storage.Error.{
  Bytes, StoreError, BlobMetadata, BlobInspection, QuarantineInfo, CleanupReport, Result, ok, err,
  Outcome,
}

pub data Operation : Type 0 where
  load : ℕ → Operation
  -- the channel of the chunks and the one of the acknowledgement, until they are taken
  load_stream : Option ℕ → Option ℕ → ℕ → Operation
  save : Bytes → ℕ → Operation
  -- the declared length and the channel of the chunks
  save_stream : ℕ → ℕ → ℕ → Operation
  clear inspect quarantine : ℕ → Operation

pub data BlockingResult : Type 0 where
  load : Outcome (Option Bytes) → BlockingResult
  load_stream : Outcome (Option BlobMetadata) → BlockingResult
  save save_stream clear : Outcome (Unit {0}) → BlockingResult
  inspect : Outcome BlobInspection → BlockingResult
  quarantine : Outcome QuarantineInfo → BlockingResult

-- A value sent on a result channel, of the channel's type.
pub data Reply : Type 0 where
  blob : Outcome (Option Bytes) → Reply
  metadata : Outcome (Option BlobMetadata) → Reply
  done : Outcome (Unit {0}) → Reply
  inspection : Outcome BlobInspection → Reply
  quarantined : Outcome QuarantineInfo → Reply
  cleaned : Outcome CleanupReport → Reply

abbrev pub sender : Operation → ℕ
sender (Operation.load s) = s
sender (Operation.load_stream chunks ack s) = s
sender (Operation.save payload s) = s
sender (Operation.save_stream declared chunks s) = s
sender (Operation.clear s) = s
sender (Operation.inspect s) = s
sender (Operation.quarantine s) = s

-- `none` is the panic of `unreachable!`.
unfoldable pub deliver : Operation → BlockingResult → Option (ℕ × Reply)
deliver (Operation.load s) (BlockingResult.load r) = some (s, blob r)
deliver (Operation.load_stream chunks ack s) (BlockingResult.load_stream r) = some (s, metadata r)
deliver (Operation.save payload s) (BlockingResult.save r) = some (s, done r)
deliver (Operation.save_stream declared chunks s) (BlockingResult.save_stream r) = some (s, done r)
deliver (Operation.clear s) (BlockingResult.clear r) = some (s, done r)
deliver (Operation.inspect s) (BlockingResult.inspect r) = some (s, inspection r)
deliver (Operation.quarantine s) (BlockingResult.quarantine r) = some (s, quarantined r)
deliver operation result = none

unfoldable pub deliver_error : Operation → StoreError → ℕ × Reply
deliver_error (Operation.load s) e = (s, blob (err e))
deliver_error (Operation.load_stream chunks ack s) e = (s, metadata (err e))
deliver_error (Operation.save payload s) e = (s, done (err e))
deliver_error (Operation.save_stream declared chunks s) e = (s, done (err e))
deliver_error (Operation.clear s) e = (s, done (err e))
deliver_error (Operation.inspect s) e = (s, inspection (err e))
deliver_error (Operation.quarantine s) e = (s, quarantined (err e))

-- The operations on the filesystem, over its state `W`: the path of the blob is its key's.
pub record Backend (W : Type 0) : Type 0 where
  pub load_blob : W → Outcome (Option Bytes) × W
  pub load_blob_into_sender : ℕ → ℕ → W → Outcome (Option BlobMetadata) × W
  pub save_blob : Bytes → W → Outcome (Unit {0}) × W
  pub save_blob_from_receiver : ℕ → ℕ → W → Outcome (Unit {0}) × W
  pub clear_blob : W → Outcome (Unit {0}) × W
  pub inspect_blob : W → Outcome BlobInspection × W
  pub quarantine_blob : W → Outcome QuarantineInfo × W

module _ {W : Type 0} (fs : Backend W) where
  abbrev pack :
      {A : Type 0}
      → Operation
      → (A → BlockingResult)
      → A × W
      → Option ((Operation × BlockingResult) × W)
  pack operation result (a, w) = some ((operation, result a), w)

  abbrev take_both : Option ℕ → Option ℕ → Option (ℕ × ℕ)
  take_both (some chunks) (some ack) = some (chunks, ack)
  take_both (some chunks) none = none
  take_both none ack = none

  -- `none` is the panic of `expect` on a streaming load whose channels were taken before.
  unfoldable pub run_owned_operation : Operation → W → Option ((Operation × BlockingResult) × W)
  run_owned_operation (Operation.load s) w =
      pack (Operation.load s) BlockingResult.load (fs.load_blob w)
  run_owned_operation (Operation.load_stream chunks ack s) w = elim (take_both chunks ack) [
    | none ↦ none
    | some (c, a) ↦
        pack (Operation.load_stream none none s) BlockingResult.load_stream
          (fs.load_blob_into_sender c a w)
  ]
  run_owned_operation (Operation.save payload s) w =
      pack (Operation.save payload s) BlockingResult.save (fs.save_blob payload w)
  run_owned_operation (Operation.save_stream declared chunks s) w =
      pack (Operation.save_stream declared chunks s) BlockingResult.save_stream
        (fs.save_blob_from_receiver declared chunks w)
  run_owned_operation (Operation.clear s) w =
      pack (Operation.clear s) BlockingResult.clear (fs.clear_blob w)
  run_owned_operation (Operation.inspect s) w =
      pack (Operation.inspect s) BlockingResult.inspect (fs.inspect_blob w)
  run_owned_operation (Operation.quarantine s) w =
      pack (Operation.quarantine s) BlockingResult.quarantine (fs.quarantine_blob w)
