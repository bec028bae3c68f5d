-- ===== src/Blocking/Calls.antt =====
-- src/blocking.rs: open, and the methods that wait for the result of the handle. While a method waits,
-- the coordinator goes on: `meanwhile` is what it makes of the store, and `arrived` is the reply, or
-- nothing where its sending end is gone.
use atomic_blob_storage.Base.{ℕ, Bool, List, Option, none, some}
use atomic_blob_storage.Error.{
  Bytes, FilePath, BlobInspection, QuarantineInfo, CleanupReport, Outcome,
}
use atomic_blob_storage.Config.{Options}
use atomic_blob_storage.Naming.{Blake3, Component}
use atomic_blob_storage.Filesystem.Platform.{Platform}
use atomic_blob_storage.Engine.Event.{Lifecycle}
use atomic_blob_storage.Engine.Store
use atomic_blob_storage.Engine.Store.{Store, Pending, wait}
use atomic_blob_storage.Engine.Open.{Threads, open_handle}

unfoldable pub open_store :
    {W : Type 0}
    → Platform W
    → FilePath
    → Bool
    → List Component
    → Options
    → Threads
    → W
    → Outcome Store × W
open_store platform root relative namespace options threads w =
    open_handle platform root relative namespace options threads w

abbrev waited :
    {A : Type 0}
    → (Store → Store)
    → Option (Outcome A)
    → Pending A × Store
    → Option (Outcome A × Store)
waited meanwhile arrived (p, s) = wait p arrived (meanwhile s)

module _ (seen : Lifecycle) (meanwhile : Store → Store) where
  module _ (blake3 : Blake3) (key : Bytes) where
    unfoldable pub load :
        Option (Outcome (Option Bytes)) → Store → Option (Outcome (Option Bytes) × Store)
    load arrived s = waited meanwhile arrived (Store.load blake3 seen key s)

    unfoldable pub save :
        Bytes → Option (Outcome (Unit {0})) → Store → Option (Outcome (Unit {0}) × Store)
    save payload arrived s = waited meanwhile arrived (Store.save blake3 seen key payload s)

    unfoldable pub clear : Option (Outcome (Unit {0})) → Store → Option (Outcome (Unit {0}) × Store)
    clear arrived s = waited meanwhile arrived (Store.clear blake3 seen key s)

    unfoldable pub inspect :
        Option (Outcome BlobInspection) → Store → Option (Outcome BlobInspection × Store)
    inspect arrived s = waited meanwhile arrived (Store.inspect blake3 seen key s)

    unfoldable pub quarantine :
        Option (Outcome QuarantineInfo) → Store → Option (Outcome QuarantineInfo × Store)
    quarantine arrived s = waited meanwhile arrived (Store.quarantine blake3 seen key s)

  unfoldable pub cleanup_stale_temporary_files :
      ℕ → Option (Outcome CleanupReport) → Store → Option (Outcome CleanupReport × Store)
  cleanup_stale_temporary_files minimum_age arrived s =
      waited meanwhile arrived (Store.cleanup_stale_temporary_files seen minimum_age s)

  unfoldable pub flush : Option (Outcome (Unit {0})) → Store → Option (Outcome (Unit {0}) × Store)
  flush arrived s = waited meanwhile arrived (Store.flush seen s)

  -- `none` is a panic or a deadlock.
  unfoldable pub close : Option (Outcome (Unit {0})) → Store → Option (Outcome (Unit {0}) × Store)
  close arrived s = elim (Store.close seen s) [
    | none ↦ none
    | some (p, s') ↦ wait p arrived (meanwhile s')
  ]

unfoldable pub blob_path : Blake3 → Bytes → Store → FilePath
blob_path blake3 key s = Store.blob_path blake3 key s
