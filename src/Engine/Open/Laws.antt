-- ===== src/Engine/Open/Laws.antt =====
-- src/engine/mod.rs: what a store that was opened is.
use atomic_blob_storage.Base.{
  ℕ, ◌+◌, ◌<◌, ◌≡◌, ◌≢◌, refl, Bool, true, List, [], ◌∷◌, none, some, arith,
}
use atomic_blob_storage.Error.{
  Bytes, FilePath, IoError, Result, ok, err, Outcome, StoreOperation, io,
}
use atomic_blob_storage.Config.{Options, StoreConfig, u64_limit, validate_maximum}
use atomic_blob_storage.Config.Laws.{validate_maximum_iff}
use atomic_blob_storage.Naming.{Component, normal, validate_namespace}
use atomic_blob_storage.Filesystem.System.{Metadata}
use atomic_blob_storage.Filesystem.Unix.{and_then}
use atomic_blob_storage.Filesystem.Platform.{Platform, std_of, initialize_on}
use atomic_blob_storage.Engine.Workers.{new_pool}
use atomic_blob_storage.Engine.Scheduler.Defs.{initial}
use atomic_blob_storage.Engine.Store.{Store}
use atomic_blob_storage.Engine.Open.{Threads, from_config, open_handle}
use atomic_blob_storage.Engine.Open.Roots.{and_then-ok, configure, Resolves, initialize_on-ok}

validate_namespace-ok :
    (l : List Component) (p : FilePath)
    → validate_namespace l ≡ ok p
    → (b : ℕ) × (bs : Bytes) × (l ≡ normal (b ∷ bs) ∷ []) × (p ≡ (b ∷ bs) ∷ [])
unfolding validate_namespace
validate_namespace-ok (normal (b ∷ bs) ∷ []) p h = (b, bs, refl, ground arith)
validate_namespace-ok (normal [] ∷ []) p h = absurd (ground arith)
validate_namespace-ok [] p h = absurd (ground arith)
validate_namespace-ok (Component.prefix ∷ l) p h = absurd (ground arith)
validate_namespace-ok (Component.root_dir ∷ l) p h = absurd (ground arith)
validate_namespace-ok (Component.cur_dir ∷ l) p h = absurd (ground arith)
validate_namespace-ok (Component.parent_dir ∷ l) p h = absurd (ground arith)
validate_namespace-ok (normal [] ∷ (c ∷ l)) p h = absurd (ground arith)
validate_namespace-ok (normal (b ∷ bs) ∷ (c ∷ l)) p h = absurd (ground arith)

from_config-ok :
    (config : StoreConfig) (threads : Threads) (s : Store)
    → from_config config threads ≡ ok s
    → (s.config ≡ config)
      × (s.scheduler ≡ initial (new_pool config.max_concurrent_operations threads.workers))
      × (s.coordinator.handle ≢ none)
unfolding from_config
from_config-ok config threads s h = go threads.coordinator h
  where
    go :
        (r : Result Bool IoError)
        → (elim r as (λ _. Outcome Store) [
          | err source ↦ err (io StoreOperation.start_coordinator source)
          | ok panics ↦ ok (record {
            config = config;
            scheduler = initial (new_pool config.max_concurrent_operations threads.workers);
            coordinator = record { handle = some panics; outcome = none };
            next = 0;
          })
        ])
          ≡ ok s
        → (s.config ≡ config)
          × (s.scheduler ≡ initial (new_pool config.max_concurrent_operations threads.workers))
          × (s.coordinator.handle ≢ none)
    go (err e) h = absurd (ground arith)
    go (ok panics) h = ground arith

module _ {W : Type 0} (platform : Platform W) where
  -- On Unix and on Windows, a store that was opened has a namespace of exactly one normal
  -- component that is not empty, a maximum whose envelope fits in a u64, and a root that was seen
  -- as a directory right after it was determined: on Unix the given one, or it below the current
  -- directory where it is relative, on Windows the one that std::path::absolute makes of it. It is
  -- configured as the options say, with the namespace below the root, and its coordinator starts
  -- in its initial state and can be joined.
  pub open_handle-Opens :
      (root : FilePath) (relative : Bool) (namespace : List Component) (options : Options)
      (threads : Threads) (w : W) (s : Store)
      → (open_handle platform root relative namespace options threads w).0 ≡ ok s
      → (b : ℕ) × (bs : Bytes) × (base : FilePath) × (m : Metadata) × (w1 : W) × (namespace
          ≡ normal (b ∷ bs) ∷ [])
        × (options.max_blob_size + 22 < u64_limit)
        × Resolves platform root relative base w w1
        × (((std_of platform).metadata base w1).0 ≡ ok m)
        × (m.is_dir ≡ true)
        × (s.config
            ≡ configure base
                ((b ∷ bs) ∷ [])
                options.format
                options.max_blob_size
                options.max_concurrent_operations)
        × (s.scheduler ≡ initial (new_pool options.max_concurrent_operations threads.workers))
        × (s.coordinator.handle ≢ none)
  unfolding open_handle
  open_handle-Opens root relative namespace options threads w s h =
      let ready : FilePath → Unit {0} → W → Outcome Store × W = λ component u w2.
        and_then
          (initialize_on platform root relative component options.format options.max_blob_size
            options.max_concurrent_operations w2)
          λ config w3. (from_config config threads, w3) in
      let named : FilePath → W → Outcome Store × W =
        λ component w1. and_then (validate_maximum options.max_blob_size, w1) (ready component) in
      let (component, name, h1) = and_then-ok (validate_namespace namespace, w) named s h in
      let (u, limit, h2) =
        and_then-ok (validate_maximum options.max_blob_size, w) (ready component) s h1 in
      let (config, done, h3) =
        and_then-ok
          (initialize_on platform root relative component options.format options.max_blob_size
            options.max_concurrent_operations w)
          (λ config w3. (from_config config threads, w3)) s h2 in
      let (b, bs, e, same) = validate_namespace-ok namespace component name in
      let (base, m, w1, resolves, seen, is_dir, set) =
        initialize_on-ok platform root relative component options.format options.max_blob_size
          options.max_concurrent_operations w config done in
      let (c, i, j) = from_config-ok config threads s h3 in
      (
        b,
        bs,
        base,
        m,
        w1,
        e,
        (validate_maximum_iff options.max_blob_size).0 limit,
        resolves,
        seen,
        is_dir,
        ground arith,
        ground arith,
        j,
      )
