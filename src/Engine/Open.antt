-- ===== src/Engine/Open.antt =====
-- src/engine/mod.rs: EngineHandle::open and from_config.
pub mod Roots
pub mod Laws
use atomic_blob_storage.Base.{ℕ, Bool, List, [], Option, none, some}
use atomic_blob_storage.Error.{FilePath, IoError, StoreOperation, io, Result, ok, err, Outcome}
use atomic_blob_storage.Config.{Options, StoreConfig, validate_maximum}
use atomic_blob_storage.Naming.{Component, validate_namespace}
use atomic_blob_storage.Filesystem.Unix.{and_then}
use atomic_blob_storage.Filesystem.Platform.{Platform, initialize_on}
use atomic_blob_storage.Engine.Workers.{new_pool}
use atomic_blob_storage.Engine.Scheduler.Defs.{initial}
use atomic_blob_storage.Engine.Store.{Store}

-- What std::thread does: the attempts to start a worker, as in the pool; and the start of the
-- coordinator, with whether joining it will report a panic.
pub record Threads : Type 0 where
  pub workers : List (Option Bool)
  pub coordinator : Result Bool IoError

unfoldable pub from_config : StoreConfig → Threads → Outcome Store
from_config config threads = elim threads.coordinator [
  | err source ↦ err (io StoreOperation.start_coordinator source)
  | ok panics ↦ ok (record {
    config = config;
    scheduler = initial (new_pool config.max_concurrent_operations threads.workers);
    coordinator = record { handle = some panics; outcome = none };
    next = 0;
  })
]

module _ {W : Type 0} (platform : Platform W) where
  -- `relative` is `root.is_relative()`, and the namespace is given by its components.
  unfoldable pub open_handle :
      FilePath → Bool → List Component → Options → Threads → W → Outcome Store × W
  open_handle root relative namespace options threads w =
      and_then (validate_namespace namespace, w)
        λ component w1.
          and_then (validate_maximum options.max_blob_size, w1)
            λ _ w2.
              and_then
                (initialize_on platform root relative component options.format options.max_blob_size
                  options.max_concurrent_operations w2)
                λ config w3. (from_config config threads, w3)
