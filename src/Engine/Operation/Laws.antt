-- ===== src/Engine/Operation/Laws.antt =====
-- src/engine/operation.rs: what run_owned_operation gives to deliver.
use atomic_blob_storage.Base.{◌≡◌, ◌≢◌, refl, none, some}
use atomic_blob_storage.Error.{StoreError}
use atomic_blob_storage.Engine.Operation.{
  Operation, BlockingResult, Reply, blob, metadata, done, inspection, quarantined, Backend, sender,
  deliver, deliver_error, run_owned_operation,
}

-- A streaming load still has its channels, as every submitted one has.
abbrev pub IsFresh : Operation → Type 0
IsFresh (Operation.load_stream chunks ack s) = (chunks ≢ none) × (ack ≢ none)
IsFresh op = Unit {0}

module _ {W : Type 0} (fs : Backend W) where
  -- What the filesystem answers to an operation, as its caller is to get it, and the state it leaves.
  abbrev pub Answers : Operation → W → Reply → W → Type 0
  Answers (Operation.load s) w reply w' =
      (reply ≡ blob (fs.load_blob w).0) × (w' ≡ (fs.load_blob w).1)
  Answers (Operation.load_stream (some c) (some a) s) w reply w' =
      let answer = fs.load_blob_into_sender c a w in (reply ≡ metadata answer.0) × (w' ≡ answer.1)
  Answers (Operation.load_stream (some c) none s) w reply w' = ⊥
  Answers (Operation.load_stream none ack s) w reply w' = ⊥
  Answers (Operation.save payload s) w reply w' =
      (reply ≡ done (fs.save_blob payload w).0) × (w' ≡ (fs.save_blob payload w).1)
  Answers (Operation.save_stream declared chunks s) w reply w' =
      let answer = fs.save_blob_from_receiver declared chunks w in
      (reply ≡ done answer.0) × (w' ≡ answer.1)
  Answers (Operation.clear s) w reply w' =
      (reply ≡ done (fs.clear_blob w).0) × (w' ≡ (fs.clear_blob w).1)
  Answers (Operation.inspect s) w reply w' =
      (reply ≡ inspection (fs.inspect_blob w).0) × (w' ≡ (fs.inspect_blob w).1)
  Answers (Operation.quarantine s) w reply w' =
      (reply ≡ quarantined (fs.quarantine_blob w).0) × (w' ≡ (fs.quarantine_blob w).1)

  -- An operation that still has its channels runs without a panic, whatever the filesystem
  -- answers. Its reply is the filesystem's answer to that very call, with its arguments, the
  -- filesystem's state is the one after the call, and the reply is delivered on the operation's
  -- channel, where an error of the same operation would go too.
  pub run-deliver :
      (op : Operation) (w : W)
      → IsFresh op
      → (op' : Operation) × (result : BlockingResult) × (w' : W) × (reply : Reply)
        × (run_owned_operation fs op w ≡ some ((op', result), w'))
        × (deliver op' result ≡ some (sender op, reply))
        × Answers op w reply w'
        × ((e : StoreError) → (deliver_error op e).0 ≡ sender op)
  unfolding run_owned_operation deliver deliver_error
  run-deliver (Operation.load s) w h = (_, _, _, _, refl, refl, (refl, refl), (λ e. refl))
  run-deliver (Operation.load_stream none ack s) w h = absurd (h.0 refl)
  run-deliver (Operation.load_stream (some c) none s) w h = absurd (h.1 refl)
  run-deliver (Operation.load_stream (some c) (some a) s) w h =
      (_, _, _, _, refl, refl, (refl, refl), (λ e. refl))
  run-deliver (Operation.save payload s) w h = (_, _, _, _, refl, refl, (refl, refl), (λ e. refl))
  run-deliver (Operation.save_stream declared chunks s) w h =
      (_, _, _, _, refl, refl, (refl, refl), (λ e. refl))
  run-deliver (Operation.clear s) w h = (_, _, _, _, refl, refl, (refl, refl), (λ e. refl))
  run-deliver (Operation.inspect s) w h = (_, _, _, _, refl, refl, (refl, refl), (λ e. refl))
  run-deliver (Operation.quarantine s) w h = (_, _, _, _, refl, refl, (refl, refl), (λ e. refl))
