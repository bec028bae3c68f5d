-- ===== src/Filesystem/Windows/Initialize.antt =====
-- src/filesystem/mod.rs on Windows: initialize_platform, which synchronizes no directory there.
use atomic_blob_storage.Base.{ℕ, ◌++◌, if◌then◌else◌}
use atomic_blob_storage.Error.{
  FilePath, StoreOperation, io, namespace_path_is_not_directory, ok, err, Outcome, map_err,
}
use atomic_blob_storage.Config.{BlobFormatIdentity, StoreConfig}
use atomic_blob_storage.Filesystem.System.{System, is_already_exists}
use atomic_blob_storage.Filesystem.Unix.{and_then, dir_or, check_root}
use atomic_blob_storage.Filesystem.Windows.{WindowsSystem}

module _ {W : Type 0} (std : System W) (api : WindowsSystem W) where
  abbrev pub normalized : FilePath → W → Outcome FilePath × W
  normalized root w =
      let (res, w1) = api.absolute root w in (map_err (io StoreOperation.normalize_root) res, w1)

  abbrev pub create_namespace : FilePath → W → Outcome (Unit {0}) × W
  create_namespace namespace w =
      let (made, w1) = std.create_dir namespace w in
      let (res, w2) = std.metadata namespace w1 in
      elim made [
        | ok _ ↦ (ok tt, w1)
        | err source ↦
            if is_already_exists source.kind
            then elim res [
              | ok m ↦ (dir_or namespace_path_is_not_directory m, w2)
              | err source ↦ (err (io StoreOperation.inspect_namespace source), w2)
            ]
            else (err (io StoreOperation.create_namespace source), w1)
      ]

  unfoldable pub initialize_platform :
      FilePath → FilePath → BlobFormatIdentity → ℕ → ℕ → W → Outcome StoreConfig × W
  initialize_platform root component format maximum max_concurrent_operations w =
      and_then (normalized root w) λ root w1. and_then (check_root std root w1) λ _ w2.
        and_then (create_namespace (root ++ component) w2) λ _ w3. (
          ok (record {
            namespace = root ++ component;
            format = format;
            maximum = maximum;
            max_concurrent_operations = max_concurrent_operations;
          }),
          w3,
        )
