-- ===== src/Filesystem/Windows.antt =====
-- src/filesystem/mod.rs on Windows: wide_path, delete_file and cleanup_stale_files.
pub mod Lines
pub mod Treated
pub mod Laws
pub mod Paths
pub mod Calls
pub mod Operations
pub mod Initialize
pub mod Times
pub mod Api
pub mod Views
pub mod Attempts
pub mod Commit
pub mod Saved
pub mod Saves
pub mod Relocated
pub mod Cleared
use atomic_blob_storage.Base.{
  ℕ, ◌-◌, Bool, true, false, not, ◌&&◌, ◌||◌, List, [], ◌∷◌, ◌++◌, Option, none, some, leb, ◌==◌,
  drop, map, if◌then◌else◌,
}
use atomic_blob_storage.Error.{
  Bytes, FilePath, ErrorKind, IoError, StoreOperation, io, CleanupFailure, CleanupReport, Result,
  ok, err, Outcome,
}
use atomic_blob_storage.Config.{StoreConfig}
use atomic_blob_storage.Stream.{Writer}
use atomic_blob_storage.Filesystem.System.{Metadata}
use atomic_blob_storage.Filesystem.Names.{starts_with, is_owned_temporary_filename}

abbrev pub separator : ℕ
separator = 92

abbrev pub alternate_separator : ℕ
alternate_separator = 47

-- "\\?\", "\\.\" and "\\?\UNC\"
abbrev pub verbatim_prefix : List ℕ
verbatim_prefix = 92 ∷ 92 ∷ 63 ∷ 92 ∷ []

abbrev pub device_prefix : List ℕ
device_prefix = 92 ∷ 92 ∷ 46 ∷ 92 ∷ []

abbrev pub unc_prefix : List ℕ
unc_prefix = 92 ∷ 92 ∷ 63 ∷ 92 ∷ 85 ∷ 78 ∷ 67 ∷ 92 ∷ []

abbrev pub normalize : ℕ → ℕ
normalize unit = if unit == alternate_separator then separator else unit

abbrev pub normalize_all : List ℕ → List ℕ
normalize_all [] = []
normalize_all (u ∷ us) = normalize u ∷ normalize_all us

-- The prefix that is put in front of a path, and what it stands before.
abbrev pub prefixed : List ℕ → List ℕ × List ℕ
prefixed path =
    if starts_with verbatim_prefix path || starts_with device_prefix path
    then ([], path)
    else if starts_with (separator ∷ separator ∷ []) path
    then (unc_prefix, drop 2 path)
    else (verbatim_prefix, path)

-- The argument is the path's `encode_wide`.
unfoldable pub wide_path : List ℕ → List ℕ
wide_path path =
    let (prefix, remainder) = prefixed path in prefix ++ (normalize_all remainder ++ (0 ∷ []))

-- The Windows API, and what is used of std::fs only on Windows. A file is known by its wide path; a
-- result of 0 is a failure.
pub record WindowsSystem (W : Type 0) : Type 0 where
  -- std::fs::read_dir: the names, to_string_lossy, with the entries that fail
  pub read_dir : FilePath → W → Result (List (Result Bytes IoError)) IoError × W
  pub symlink_metadata : FilePath → W → Result Metadata IoError × W
  -- std::path::absolute
  pub absolute : FilePath → W → Result FilePath IoError × W
  -- OsStrExt::encode_wide
  pub encode_wide : FilePath → List ℕ
  -- SystemTime::now, as the seconds and nanoseconds since the Unix epoch; nothing before it
  pub system_time : W → Option (ℕ × ℕ) × W
  -- CreateFileW with CREATE_NEW: the new file, or nothing for INVALID_HANDLE_VALUE
  pub create_new : List ℕ → W → Option Writer × W
  -- what was written to that file, once it is closed or flushed
  pub write_back : List ℕ → Bytes → W → W
  -- CreateFileW with OPEN_EXISTING, of a directory and of a file's attributes: whether it is valid
  pub open_directory : List ℕ → W → Bool × W
  pub open_attributes : List ℕ → W → Bool × W
  -- FlushFileBuffers of the open handle
  pub flush_file_buffers : List ℕ → W → ℕ × W
  -- SetFileTime of the last write: the low and the high word
  pub set_file_time : List ℕ → ℕ → ℕ → W → ℕ × W
  -- MoveFileExW with MOVEFILE_WRITE_THROUGH, and with MOVEFILE_REPLACE_EXISTING where the flag is set
  pub move_file_ex_w : List ℕ → List ℕ → Bool → W → ℕ × W
  pub delete_file_w : List ℕ → W → ℕ × W
  -- io::Error::last_os_error
  pub last_os_error : W → IoError
  -- ERROR_FILE_EXISTS and ERROR_ALREADY_EXISTS
  pub error_file_exists : ℕ
  pub error_already_exists : ℕ

unfoldable pub delete_file :
    {W : Type 0} → WindowsSystem W → FilePath → W → Result (Unit {0}) IoError × W
delete_file os path w =
    let (deleted, w1) = os.delete_file_w (wide_path (os.encode_wide path)) w in
    if deleted == 0 then (err (os.last_os_error w1), w1) else (ok tt, w1)

-- "<directory-entry>"
abbrev pub entry_identifier : Bytes
entry_identifier =
    b'<' ∷ b'd' ∷ b'i' ∷ b'r' ∷ b'e' ∷ b'c' ∷ b't' ∷ b'o' ∷ b'r' ∷ b'y' ∷ b'-' ∷ b'e' ∷ b'n' ∷ b't'
    ∷ b'r' ∷ b'y' ∷ b'>' ∷ []

abbrev pub not_regular : IoError
not_regular = record { kind = ErrorKind.other; raw_os_error = 0 }

abbrev pub add_removed : Bytes → CleanupReport → CleanupReport
add_removed name r = record r { removed = r.removed ++ (name ∷ []) }

abbrev pub add_skipped : Bytes → CleanupReport → CleanupReport
add_skipped name r = record r { skipped = r.skipped ++ (name ∷ []) }

abbrev pub add_failure : Bytes → IoError → CleanupReport → CleanupReport
add_failure name e r = record r {
  failures = r.failures ++ (record { identifier = name; source = e } ∷ []);
}

-- `now.duration_since(time)` is an error for a time in the future.
abbrev pub old_enough : ℕ → ℕ → Option ℕ → Bool
old_enough now minimum_age none = false
old_enough now minimum_age (some time) = leb time now && leb minimum_age (now - time)

module _ {W : Type 0} (os : WindowsSystem W) (config : StoreConfig) (now minimum_age : ℕ) where
  -- A regular staging file.
  unfoldable pub clean_file : Bytes → Metadata → CleanupReport → W → CleanupReport × W
  clean_file name m report w =
      let (deleted, w1) = delete_file os (config.namespace ++ (name ∷ [])) w in
      if old_enough now minimum_age m.modified
      then elim deleted [
        | ok _ ↦ (add_removed name report, w1)
        | err e ↦ (add_failure name e report, w1)
      ]
      else (add_skipped name report, w)

  -- One round of the loop.
  unfoldable pub clean_entry : Result Bytes IoError → CleanupReport → W → CleanupReport × W
  clean_entry (err e) report w = (add_failure entry_identifier e report, w)
  clean_entry (ok name) report w =
      let (found, w1) = os.symlink_metadata (config.namespace ++ (name ∷ [])) w in
      if not (is_owned_temporary_filename name config.format.filename_suffix)
      then (report, w)
      else elim found [
        | err e ↦ (add_failure name e report, w1)
        | ok m ↦
            if m.is_file
            then clean_file name m report w1
            else (add_failure name not_regular report, w1)
      ]

  unfoldable pub clean_entries : List (Result Bytes IoError) → CleanupReport → W → CleanupReport × W
  clean_entries [] report w = (report, w)
  clean_entries (entry ∷ entries) report w =
      let (report', w1) = clean_entry entry report w in clean_entries entries report' w1

  unfoldable pub cleanup_stale_files : W → Outcome CleanupReport × W
  cleanup_stale_files w =
      let (listed, w1) = os.read_dir config.namespace w in
      elim listed [
        | err e ↦ (err (io StoreOperation.enumerate_temporary_files e), w1)
        | ok entries ↦
            let (report, w2) =
              clean_entries entries (record { removed = []; skipped = []; failures = [] }) w1 in
            (ok report, w2)
      ]
