-- ===== src/Error.antt =====
-- src/error.rs: the results and errors of the store, and of std::io as far as the store looks at
-- them. A path is the list of its components, each the bytes of a name.
use atomic_blob_storage.Base.{ℕ, List, Option, Bool}

abbrev pub Bytes : Type 0
Bytes = List ℕ

abbrev pub FilePath : Type 0
FilePath = List Bytes

-- std::io::ErrorKind: the kinds that the store or the library's `read_exact` tell apart.
pub data ErrorKind : Type 0 where
  not_found already_exists unexpected_eof interrupted other : ErrorKind

-- std::io::Error
pub record IoError : Type 0 where
  pub kind : ErrorKind
  pub raw_os_error : ℕ

pub data ConfigError : Type 0 where
  invalid_domain_tag_length : ℕ → ConfigError
  invalid_filename_suffix : ConfigError
  unsupported_configured_envelope_version : ℕ → ConfigError
  invalid_namespace : ConfigError
  invalid_maximum_blob_size : ℕ → ConfigError

pub data StoreOperation : Type 0 where
  resolve_current_directory normalize_root start_initialization start_coordinator : StoreOperation
  inspect_root inspect_namespace create_namespace : StoreOperation
  open_root_directory sync_root_directory open_blob read_envelope : StoreOperation
  open_atomic_writer write_envelope remove_blob open_namespace_directory : StoreOperation
  sync_namespace_directory inspect_blob quarantine_blob generate_identifier : StoreOperation
  enumerate_temporary_files remove_temporary_file refresh_clear_staging_age : StoreOperation

pub data EnvelopeSection : Type 0 where
  magic version payload_length payload checksum : EnvelopeSection

pub data BlobState : Type 0 where
  absent present : BlobState

pub record BlobInspection : Type 0 where
  pub state : BlobState
  pub size : Option ℕ
  pub modified : Option ℕ

pub record BlobMetadata : Type 0 where
  pub payload_len : ℕ

pub record QuarantineInfo : Type 0 where
  pub identifier : Bytes
  pub diagnostic_path : FilePath

pub record CleanupFailure : Type 0 where
  pub identifier : Bytes
  pub source : IoError

pub record CleanupReport : Type 0 where
  pub removed : List Bytes
  pub skipped : List Bytes
  pub failures : List CleanupFailure

pub data StoreError : Type 0 where
  configuration : ConfigError → StoreError
  io : StoreOperation → IoError → StoreError
  atomic_commit : IoError → StoreError
  root_does_not_exist root_is_not_directory namespace_path_is_not_directory : StoreError
  -- the expected tag, then the one found
  invalid_envelope_domain : Bytes → Bytes → StoreError
  unsupported_envelope_version : ℕ → StoreError
  truncated_envelope : EnvelopeSection → StoreError
  -- the size, then the maximum
  blob_too_large : ℕ → ℕ → StoreError
  invalid_payload_length : ℕ → StoreError
  trailing_data : StoreError
  -- the stored checksum, then the calculated one
  checksum_mismatch : ℕ → ℕ → StoreError
  -- the declared length, then the actual one
  input_ended_early : ℕ → ℕ → StoreError
  input_has_trailing_data : ℕ → StoreError
  input_io output_io : IoError → StoreError
  stream_cancelled unsupported_platform coordination_failure store_closed : StoreError
  engine_failed worker_unavailable shutdown_failure quarantine_source_missing : StoreError
  quarantine_commit : IoError → StoreError
  quarantine_namespace_sync : QuarantineInfo → IoError → StoreError
  cleanup_unsupported invalid_cleanup_age : StoreError
  identifier_generation : ℕ → StoreError
  unexpected_file_type maintenance_coordination_failure : StoreError

-- `Result<T, E>`, and the `?` operator as the bind of do blocks.
pub data Result (A E : Type 0) : Type 0 where
  ok : A → Result A E
  err : E → Result A E

infixl 5 ◌>>=◌ ◌>>◌
abbrev pub ◌>>=◌ : {A B E : Type 0} → Result A E → (A → Result B E) → Result B E
ok a >>= f = f a
err e >>= f = err e

abbrev pub ◌>>◌ : {B E : Type 0} → Result (Unit {0}) E → Result B E → Result B E
m >> k = m >>= λ _. k

-- `Result::map_err`
abbrev pub map_err : {A E F : Type 0} → (E → F) → Result A E → Result A F
map_err f (ok a) = ok a
map_err f (err e) = err (f e)

-- `Result::map`
abbrev pub map_ok : {A B E : Type 0} → (A → B) → Result A E → Result B E
map_ok f (ok a) = ok (f a)
map_ok f (err e) = err e

-- `if !condition { return Err(e) }`
abbrev pub guard : {E : Type 0} → Bool → E → Result (Unit {0}) E
guard Bool.true e = ok tt
guard Bool.false e = err e

-- `Result<T, AtomicBlobStoreError>`
abbrev pub Outcome : Type 0 → Type 0
Outcome A = Result A StoreError
