-- ===== src/Tests/Stores.antt =====
-- src/tokio.rs and src/engine/mod.rs: the theorems on a stream of the Tokio facade and on the opening
-- of a store at concrete inputs.
use atomic_blob_storage.Base.{ℕ, ◌+◌, ◌<◌, ◌≡◌, ◌≢◌, refl, true, false, List, [], ◌∷◌, none, some}
use atomic_blob_storage.Error.{Bytes, FilePath, engine_failed, ok, err}
use atomic_blob_storage.Config.{Options, u64_limit, validate_maximum}
use atomic_blob_storage.Naming.{Component, normal, validate_namespace}
use atomic_blob_storage.Stream.{byte, split, Reader}
use atomic_blob_storage.Blocking
use atomic_blob_storage.Tokio
use atomic_blob_storage.Tokio.Laws.{Agrees, comes_first, save_from-blocking}
use atomic_blob_storage.Filesystem.System.{Metadata}
use atomic_blob_storage.Filesystem.Unix.{initialize_platform, sync_directory}
use atomic_blob_storage.Filesystem.Windows.{WindowsSystem}
use atomic_blob_storage.Filesystem.Windows.Initialize
use atomic_blob_storage.Filesystem.Platform.{unix, windows}
use atomic_blob_storage.Tests.WindowsDisk.{windows_disk}
use atomic_blob_storage.Engine.Workers.{new_pool}
use atomic_blob_storage.Engine.Scheduler.Defs.{initial}
use atomic_blob_storage.Engine.Store.{Store}
use atomic_blob_storage.Engine.Open.{Threads, from_config, open_handle}
use atomic_blob_storage.Engine.Open.Roots.{Resolves, configure}
use atomic_blob_storage.Engine.Open.Laws.{open_handle-Opens}
use atomic_blob_storage.Tests.Disk.{Disk, disk_system}
use atomic_blob_storage.Tests.Samples.{identity}

-- Two bytes, and one more in a second read, where three are declared.
abbrev source : Reader
source = byte b'a' ∷ byte b'b' ∷ split ∷ byte b'c' ∷ []

-- The engine has failed before the second read.
save_from-blocking_example :
    Agrees
      (comes_first (false ∷ true ∷ []) ≡ true)
      (err engine_failed)
      (Tokio.save_from 3 (err engine_failed) source [] (false ∷ true ∷ []))
      (Blocking.save_from 3 (err engine_failed) source [])
save_from-blocking_example = save_from-blocking 3 (err engine_failed) source [] (false ∷ true ∷ [])

abbrev options : Options
options = record { format = identity; max_blob_size = 1024; max_concurrent_operations = 2 }

abbrev threads : Threads
threads = record { workers = []; coordinator = ok false }

-- "r"
abbrev root : FilePath
root = (b'r' ∷ []) ∷ []

-- "n"
abbrev namespace : List Component
namespace = normal (b'n' ∷ []) ∷ []

abbrev empty_disk : Disk
empty_disk p = none

abbrev opened : Store
opened = record {
  config = configure root ((b'n' ∷ []) ∷ []) identity 1024 2;
  scheduler = initial (new_pool 2 []);
  coordinator = record { handle = some false; outcome = none };
  next = 0;
}

opens :
    (open_handle (unix disk_system) root false namespace options threads empty_disk).0 ≡ ok opened
unfolding open_handle validate_namespace validate_maximum initialize_platform from_config
    sync_directory
opens = refl

-- A Windows whose current directory is "c", where the root is made absolute.
abbrev windows_in_c : WindowsSystem Disk
windows_in_c = record windows_disk { absolute = λ p w. (ok ((b'c' ∷ []) ∷ p), w) }

abbrev opened_in_c : Store
opened_in_c = record opened {
  config = record opened.config { namespace = (b'c' ∷ []) ∷ (b'r' ∷ []) ∷ (b'n' ∷ []) ∷ [] };
}

opens_on_windows :
    (open_handle
      (windows disk_system windows_in_c)
      root
      true
      namespace
      options
      threads
      empty_disk).0
    ≡ ok opened_in_c
unfolding open_handle validate_namespace validate_maximum Initialize.initialize_platform from_config
opens_on_windows = refl

open_handle-Opens_example :
    (b : ℕ) × (bs : Bytes) × (base : FilePath) × (m : Metadata) × (w1 : Disk) × (namespace
      ≡ normal (b ∷ bs) ∷ [])
    × (1024 + 22 < u64_limit)
    × Resolves (unix disk_system) root false base empty_disk w1
    × ((disk_system.metadata base w1).0 ≡ ok m)
    × (m.is_dir ≡ true)
    × (opened.config ≡ configure base ((b ∷ bs) ∷ []) identity 1024 2)
    × (opened.scheduler ≡ initial (new_pool 2 []))
    × (opened.coordinator.handle ≢ none)
open_handle-Opens_example =
    open_handle-Opens (unix disk_system) root false namespace options threads empty_disk opened
      opens
