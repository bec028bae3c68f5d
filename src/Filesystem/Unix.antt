-- ===== src/Filesystem/Unix.antt =====
-- src/filesystem/mod.rs on Unix, without the test hooks.
use atomic_blob_storage.Base.{
  ℕ, zero, suc, Bool, List, [], ◌∷◌, ◌++◌, Option, none, some, if◌then◌else◌,
}
use atomic_blob_storage.Error.{
  Bytes, FilePath, ErrorKind, IoError, StoreOperation, StoreError, io, root_does_not_exist,
  root_is_not_directory, namespace_path_is_not_directory, atomic_commit, unexpected_file_type,
  quarantine_source_missing, quarantine_commit, quarantine_namespace_sync, cleanup_unsupported,
  identifier_generation, absent, present, BlobInspection, QuarantineInfo, CleanupReport, ok, err,
  Outcome, map_err, map_ok,
}
use atomic_blob_storage.Config.{BlobFormatIdentity, StoreConfig}
use atomic_blob_storage.Stream.{Writer}
use atomic_blob_storage.Format.Crc.{Crc32c}
use atomic_blob_storage.Format.Encode.{
  SaveStreamMessage, envelope_header, envelope_parts, write_stream_envelope, write_or_fail,
}
use atomic_blob_storage.Filesystem.System.{
  System, Metadata, noent, exist, errno, is_not_found, is_already_exists,
}
use atomic_blob_storage.Filesystem.Names.{hex, file_name, stem, quarantine_name}

-- One `write_all` after the other, for the header, the payload and the checksum.
abbrev pub write_sections : Crc32c → List Bytes → Writer → Outcome (Unit {0}) × Writer
write_sections c [] w = (ok tt, w)
write_sections c (bs ∷ sections) w = write_or_fail c bs w (write_sections c sections)

-- `?`, and what follows it.
abbrev pub and_then : {A B W : Type 0} → Outcome A × W → (A → W → Outcome B × W) → Outcome B × W
and_then (ok a, w) next = next a w
and_then (err e, w) next = (err e, w)

abbrev pub dir_or : StoreError → Metadata → Outcome (Unit {0})
dir_or e m = if m.is_dir then ok tt else err e

module _ {W : Type 0} (os : System W) where
  unfoldable pub sync_directory :
      FilePath → StoreOperation → StoreOperation → W → Outcome (Unit {0}) × W
  sync_directory path open_operation sync_operation w =
      let (opened, w1) = os.open_dir path w in
      elim opened [
        | err source ↦ (err (io open_operation source), w1)
        | ok _ ↦ let (synced, w2) = os.sync_all path w1 in (map_err (io sync_operation) synced, w2)
      ]

  unfoldable pub ensure_namespace_available : StoreConfig → W → Outcome (Unit {0}) × W
  ensure_namespace_available config w =
      let (res, w1) = os.metadata config.namespace w in
      elim res [
        | ok m ↦ (dir_or namespace_path_is_not_directory m, w1)
        | err source ↦ (err (io StoreOperation.inspect_namespace source), w1)
      ]

  abbrev pub absolute : FilePath → Bool → W → Outcome FilePath × W
  absolute root relative w =
      let (res, w1) = os.current_dir w in
      if relative
      then (
        map_ok (λ current. current ++ root)
            (map_err (io StoreOperation.resolve_current_directory) res),
        w1,
      )
      else (ok root, w)

  abbrev pub check_root : FilePath → W → Outcome (Unit {0}) × W
  check_root root w =
      let (res, w1) = os.metadata root w in
      elim res [
        | ok m ↦ (dir_or root_is_not_directory m, w1)
        | err source ↦ (
          err (
              if is_not_found source.kind
              then root_does_not_exist
              else io StoreOperation.inspect_root source),
          w1,
        )
      ]

  abbrev pub create_namespace : FilePath → FilePath → W → Outcome (Unit {0}) × W
  create_namespace root namespace w =
      let (made, w1) = os.create_dir namespace w in
      let (res, w2) = os.metadata namespace w1 in
      elim made [
        | ok _ ↦
            sync_directory root StoreOperation.open_root_directory
              StoreOperation.sync_root_directory w1
        | err source ↦
            if is_already_exists source.kind
            then elim res [
              | ok m ↦ (dir_or namespace_path_is_not_directory m, w2)
              | err source ↦ (err (io StoreOperation.inspect_namespace source), w2)
            ]
            else (err (io StoreOperation.create_namespace source), w1)
      ]

  -- `relative` is `root.is_relative()`.
  unfoldable pub initialize_platform :
      FilePath → Bool → FilePath → BlobFormatIdentity → ℕ → ℕ → W → Outcome StoreConfig × W
  initialize_platform root relative component format maximum max_concurrent_operations w =
      and_then (absolute root relative w) λ root w1. and_then (check_root root w1) λ _ w2.
        and_then (create_namespace root (root ++ component) w2) λ _ w3. (
          ok (record {
            namespace = root ++ component;
            format = format;
            maximum = maximum;
            max_concurrent_operations = max_concurrent_operations;
          }),
          w3,
        )

  -- The staging file is opened, written by `write`, and committed where that succeeds.
  abbrev pub write_atomically :
      FilePath → (Writer → Outcome (Unit {0}) × Writer) → W → Outcome (Unit {0}) × W
  write_atomically path write w =
      let (opened, w1) = os.atomic_open path w in
      elim opened [
        | err source ↦ (err (io StoreOperation.open_atomic_writer source), w1)
        | ok writer ↦
            let (res, writer') = write writer in
            let (committed, w2) = os.commit path writer'.written w1 in
            elim res [ err e ↦ (err e, w1) | ok _ ↦ (map_err atomic_commit committed, w2) ]
      ]

  module _ (c : Crc32c) (config : StoreConfig) where
    unfoldable pub save_blob : FilePath → Bytes → W → Outcome (Unit {0}) × W
    save_blob path payload w = elim (envelope_parts c config.format payload config.maximum) [
      | err e ↦ (err e, w)
      | ok (header, checksum) ↦
          write_atomically path (write_sections c (header ∷ payload ∷ checksum ∷ [])) w
    ]

    unfoldable pub save_blob_from_receiver :
        FilePath → ℕ → List SaveStreamMessage → W → Outcome (Unit {0}) × W
    save_blob_from_receiver path declared chunks w =
        elim (envelope_header config.format declared config.maximum) [
          | err e ↦ (err e, w)
          | ok header ↦
              write_atomically path
                (λ writer.
                  write_stream_envelope c config.format config.maximum writer declared chunks)
                w
        ]

  unfoldable pub clear_blob : StoreConfig → FilePath → W → Outcome (Unit {0}) × W
  clear_blob config path w =
      let (removed, w1) = os.remove_file path w in
      elim removed [
        | ok _ ↦
            sync_directory config.namespace StoreOperation.open_namespace_directory
              StoreOperation.sync_namespace_directory w1
        | err source ↦
            if is_not_found source.kind
            then ensure_namespace_available config w1
            else (err (io StoreOperation.remove_blob source), w1)
      ]

  unfoldable pub inspect_blob : StoreConfig → FilePath → W → Outcome BlobInspection × W
  inspect_blob config path w =
      let (res, w1) = os.symlink_metadata path w in
      elim res [
        | ok m ↦ (
          if m.is_file
              then ok (record { state = present; size = some m.len; modified = m.modified })
              else err unexpected_file_type,
          w1,
        )
        | err source ↦
            if is_not_found source.kind
            then and_then (ensure_namespace_available config w1)
                (λ _ w2. (ok (record { state = absent; size = none; modified = none }), w2))
            else (err (io StoreOperation.inspect_blob source), w1)
      ]

  unfoldable pub random_identifier : W → Outcome Bytes × W
  random_identifier w =
      let (res, w1) = os.random w in (map_ok hex (map_err identifier_generation res), w1)

  unfoldable pub sync_quarantine_namespace :
      StoreConfig → QuarantineInfo → W → Outcome (Unit {0}) × W
  sync_quarantine_namespace config quarantine w =
      let (opened, w1) = os.open_dir config.namespace w in
      elim opened [
        | err source ↦ (err (quarantine_namespace_sync quarantine source), w1)
        | ok _ ↦
            let (synced, w2) = os.sync_all config.namespace w1 in
            (map_err (quarantine_namespace_sync quarantine) synced, w2)
      ]

  abbrev raw_error : ℕ → IoError
  raw_error n = record { kind = ErrorKind.other; raw_os_error = n }

  -- The loop over random names, for at most the given number of attempts; `none` is a loop that goes
  -- on after them.
  unfoldable pub quarantine_as :
      StoreConfig → Bytes → FilePath → ℕ → W → Option (Outcome QuarantineInfo × W)
  quarantine_as config hash path zero w = none
  quarantine_as config hash path (suc attempts) w =
      let (generated, w1) = random_identifier w in
      elim generated [
        | err e ↦ some (err e, w1)
        | ok identifier ↦
            let destination =
              config.namespace
              ++ (quarantine_name hash config.format.filename_suffix identifier ∷ []) in
            let quarantine : QuarantineInfo = record {
              identifier = identifier;
              diagnostic_path = destination;
            } in
            let (renamed, w2) = os.rename_noreplace path destination w1 in
            let again = quarantine_as config hash path attempts w2 in
            elim renamed [
              | ok _ ↦ some (
                  and_then (sync_quarantine_namespace config quarantine w2)
                    λ _ w3. (ok quarantine, w3))
              | err noent ↦ some (
                  and_then (ensure_namespace_available config w2)
                    λ _ w3. (err quarantine_source_missing, w3))
              | err exist ↦ again
              | err (errno n) ↦ some (err (quarantine_commit (raw_error n)), w2)
            ]
      ]

  unfoldable pub quarantine_blob :
      StoreConfig → FilePath → ℕ → W → Option (Outcome QuarantineInfo × W)
  quarantine_blob config path attempts w = elim (file_name path) [
    | none ↦ some (err unexpected_file_type, w)
    | some name ↦ quarantine_as config (stem name) path attempts w
  ]

  unfoldable pub cleanup_stale_files : StoreConfig → ℕ → W → Outcome CleanupReport × W
  cleanup_stale_files config minimum_age w = (err cleanup_unsupported, w)
