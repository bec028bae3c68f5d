-- ===== src/Filesystem/Windows/Operations.antt =====
-- src/filesystem/mod.rs on Windows: the saves, the clears and the quarantine. A loop over random names
-- is given a number of attempts, and `none` is a loop that goes on after them.
use atomic_blob_storage.Base.{
  ℕ, zero, suc, Bool, true, false, ◌||◌, List, [], ◌∷◌, ◌++◌, Option, none, some, ◌==◌,
  if◌then◌else◌,
}
use atomic_blob_storage.Error.{
  Bytes, FilePath, IoError, StoreOperation, StoreError, io, atomic_commit, unexpected_file_type,
  quarantine_source_missing, quarantine_commit, quarantine_namespace_sync, QuarantineInfo, Result,
  ok, err, Outcome, map_err,
}
use atomic_blob_storage.Config.{StoreConfig}
use atomic_blob_storage.Format.Crc.{Crc32c}
use atomic_blob_storage.Format.Encode.{SaveStreamMessage, envelope_header, envelope_parts}
use atomic_blob_storage.Filesystem.System.{System, is_not_found, is_already_exists}
use atomic_blob_storage.Filesystem.Names.{
  file_name, stem, save_kind, clear_kind, staging_name, quarantine_name,
}
use atomic_blob_storage.Filesystem.Unix.{and_then, ensure_namespace_available, random_identifier}
use atomic_blob_storage.Filesystem.Windows.{WindowsSystem, delete_file}
use atomic_blob_storage.Filesystem.Windows.Calls.{
  move_file, sync_windows_directory, create_windows_staging, create_windows_streaming_staging,
  refresh_windows_clear_age,
}

abbrev pub staging_path : StoreConfig → Bytes → Bytes → Bytes → FilePath
staging_path config hash kind identifier =
    config.namespace ++ (staging_name hash config.format.filename_suffix kind identifier ∷ [])

-- `Err(AtomicBlobStoreError::Io { source, .. }) if source.kind() == AlreadyExists`
abbrev pub is_taken : StoreError → Bool
is_taken (io operation source) = is_already_exists source.kind
is_taken e = false

module _ {W : Type 0} (std : System W) (api : WindowsSystem W) (config : StoreConfig) where
  -- `map_err` of an operation on the namespace.
  abbrev mapped : (IoError → StoreError) → Result (Unit {0}) IoError × W → Outcome (Unit {0}) × W
  mapped f (res, w) = (map_err f res, w)

  abbrev pub exists_already : IoError → Bool
  exists_already e =
      e.raw_os_error == api.error_file_exists || e.raw_os_error == api.error_already_exists

  -- The staging file takes the blob's place: first as a new file, then by replacing the old one.
  unfoldable pub commit_staging : FilePath → FilePath → W → Outcome (Unit {0}) × W
  commit_staging staging path w =
      let (initial, w1) = move_file api staging path false w in
      let moved = elim initial as (λ _. Outcome (Unit {0}) × W) [
        | ok _ ↦ (ok tt, w1)
        | err e ↦
            if exists_already e
            then mapped atomic_commit (move_file api staging path true w1)
            else (err (atomic_commit e), w1)
      ] in
      and_then moved λ _ w2.
        mapped (io StoreOperation.sync_namespace_directory) (sync_windows_directory api config w2)

  -- The loop of both saves: `create` makes the staging file, and `give_up` is done where that fails.
  -- What was streamed is read once a staging file was made, and so the next attempt has it whole.
  unfoldable pub save_as :
      (FilePath → W → Outcome (Unit {0}) × W)
      → (FilePath → W → W)
      → Bytes
      → FilePath
      → ℕ
      → W
      → Option (Outcome (Unit {0}) × W)
  save_as create give_up hash path zero w = none
  save_as create give_up hash path (suc attempts) w =
      let (generated, w1) = random_identifier std w in
      elim generated [
        | err e ↦ some (err e, w1)
        | ok identifier ↦
            let staging = staging_path config hash save_kind identifier in
            let (created, w2) = create staging w1 in
            let again = save_as create give_up hash path attempts w2 in
            elim created [
              | ok _ ↦ some (commit_staging staging path w2)
              | err e ↦ if is_taken e then again else some (err e, give_up staging w2)
            ]
      ]

  unfoldable pub save_blob : Crc32c → FilePath → Bytes → ℕ → W → Option (Outcome (Unit {0}) × W)
  save_blob c path payload attempts w =
      elim (envelope_parts c config.format payload config.maximum) [
        | err e ↦ some (err e, w)
        | ok (header, checksum) ↦ elim (file_name path) [
          | none ↦ some (err unexpected_file_type, w)
          | some name ↦
              save_as (λ staging. create_windows_staging api c staging header payload checksum)
                (λ staging w'. w') (stem name) path attempts w
        ]
      ]

  unfoldable pub save_blob_from_receiver :
      Crc32c → FilePath → ℕ → List SaveStreamMessage → ℕ → W → Option (Outcome (Unit {0}) × W)
  save_blob_from_receiver c path declared chunks attempts w =
      elim (envelope_header config.format declared config.maximum) [
        | err e ↦ some (err e, w)
        | ok header ↦ elim (file_name path) [
          | none ↦ some (err unexpected_file_type, w)
          | some name ↦
              save_as
                (λ staging. create_windows_streaming_staging api c config staging declared chunks)
                (λ staging w'. (delete_file api staging w').1) (stem name) path attempts w
        ]
      ]

  -- A clear that found no blob.
  abbrev pub nothing_there : W → Outcome (Unit {0}) × W
  nothing_there w = ensure_namespace_available std config w

  unfoldable pub clear_as : Bytes → FilePath → ℕ → W → Option (Outcome (Unit {0}) × W)
  clear_as hash path zero w = none
  clear_as hash path (suc attempts) w =
      let (generated, w1) = random_identifier std w in
      elim generated [
        | err e ↦ some (err e, w1)
        | ok identifier ↦
            let staging = staging_path config hash clear_kind identifier in
            let (moved, w2) = move_file api path staging false w1 in
            let again = clear_as hash path attempts w2 in
            elim moved [
              | ok _ ↦ some (
                  and_then
                    (mapped (io StoreOperation.sync_namespace_directory)
                      (sync_windows_directory api config w2))
                    λ _ w3.
                      mapped (io StoreOperation.remove_temporary_file) (delete_file api staging w3))
              | err e ↦
                  if is_not_found e.kind
                  then some (nothing_there w2)
                  else if is_already_exists e.kind
                  then again
                  else some (err (io StoreOperation.remove_blob e), w2)
            ]
      ]

  unfoldable pub clear_blob : FilePath → ℕ → W → Option (Outcome (Unit {0}) × W)
  clear_blob path attempts w =
      let (refreshed, w1) = refresh_windows_clear_age api path w in
      elim (file_name path) [
        | none ↦ some (err unexpected_file_type, w)
        | some name ↦ elim refreshed [
          | ok _ ↦ clear_as (stem name) path attempts w1
          | err e ↦
              if is_not_found e.kind
              then some (nothing_there w1)
              else some (err (io StoreOperation.refresh_clear_staging_age e), w1)
        ]
      ]

  unfoldable pub quarantine_as : Bytes → FilePath → ℕ → W → Option (Outcome QuarantineInfo × W)
  quarantine_as hash path zero w = none
  quarantine_as hash path (suc attempts) w =
      let (generated, w1) = random_identifier std w in
      elim generated [
        | err e ↦ some (err e, w1)
        | ok identifier ↦
            let destination =
              config.namespace
              ++ (quarantine_name hash config.format.filename_suffix identifier ∷ []) in
            let quarantine : QuarantineInfo = record {
              identifier = identifier;
              diagnostic_path = destination;
            } in
            let (moved, w2) = move_file api path destination false w1 in
            let again = quarantine_as hash path attempts w2 in
            elim moved [
              | ok _ ↦ some (
                  and_then
                    (mapped (quarantine_namespace_sync quarantine)
                      (sync_windows_directory api config w2))
                    λ _ w3. (ok quarantine, w3))
              | err e ↦
                  if is_not_found e.kind
                  then some (
                      and_then (ensure_namespace_available std config w2)
                        λ _ w3. (err quarantine_source_missing, w3))
                  else if is_already_exists e.kind
                  then again
                  else some (err (quarantine_commit e), w2)
            ]
      ]

  unfoldable pub quarantine_blob : FilePath → ℕ → W → Option (Outcome QuarantineInfo × W)
  quarantine_blob path attempts w = elim (file_name path) [
    | none ↦ some (err unexpected_file_type, w)
    | some name ↦ quarantine_as (stem name) path attempts w
  ]
