-- ===== src/Filesystem/System.antt =====
-- The system under src/filesystem/mod.rs: std::fs on Unix, and the crates atomic-write-file, rustix
-- and getrandom, over an arbitrary state `W`.
use atomic_blob_storage.Base.{ℕ, drop, ◌≡◌, ◌≢◌, ◌⊎◌, Bool, true, false, [], Option, none, some}
use atomic_blob_storage.Error.{
  Bytes, FilePath, ErrorKind, not_found, already_exists, IoError, Result, ok, err,
}
use atomic_blob_storage.Stream.{Reader, Writer}
use atomic_blob_storage.Stream.Laws.{content, IsClean}

-- `std::fs::Metadata`, as far as it is read.
pub record Metadata : Type 0 where
  pub is_dir : Bool
  pub is_file : Bool
  pub len : ℕ
  pub modified : Option ℕ

-- What `renameat2` with NOREPLACE answers.
pub data RenameError : Type 0 where
  noent exist : RenameError
  errno : ℕ → RenameError

pub record System (W : Type 0) : Type 0 where
  pub metadata : FilePath → W → Result Metadata IoError × W
  pub symlink_metadata : FilePath → W → Result Metadata IoError × W
  pub current_dir : W → Result FilePath IoError × W
  pub create_dir : FilePath → W → Result (Unit {0}) IoError × W
  pub open_dir : FilePath → W → Result (Unit {0}) IoError × W
  pub sync_all : FilePath → W → Result (Unit {0}) IoError × W
  pub remove_file : FilePath → W → Result (Unit {0}) IoError × W
  -- std::fs::File::open for reading
  pub open_file : FilePath → W → Result Reader IoError × W
  -- `seek` of that file to a position from its start: what it then reads
  pub seek_start : FilePath → ℕ → W → Result Reader IoError × W
  -- atomic_write_file: the writer of a new staging file, and its commit with what was written
  pub atomic_open : FilePath → W → Result Writer IoError × W
  pub commit : FilePath → Bytes → W → Result (Unit {0}) IoError × W
  pub rename_noreplace : FilePath → FilePath → W → Result (Unit {0}) RenameError × W
  -- getrandom::fill of 32 bytes
  pub random : W → Result Bytes ℕ × W

abbrev pub is_not_found : ErrorKind → Bool
is_not_found not_found = true
is_not_found k = false

abbrev pub is_already_exists : ErrorKind → Bool
is_already_exists already_exists = true
is_already_exists k = false

-- What the code relies on, for `view`, the contents of the regular files.
pub record IsSystem {W : Type 0} (os : System W) (view : W → FilePath → Option Bytes) : Type 0 where
  pub metadata-view : (p : FilePath) (w : W) → view (os.metadata p w).1 ≡ view w
  pub open_dir-view : (p : FilePath) (w : W) → view (os.open_dir p w).1 ≡ view w
  pub sync_all-view : (p : FilePath) (w : W) → view (os.sync_all p w).1 ≡ view w
  pub random-view : (w : W) → view (os.random w).1 ≡ view w
  -- a removal that succeeds removes that file only, and one that fails removes nothing
  pub remove-ok :
      (p : FilePath) (w : W) → (os.remove_file p w).0 ≡ ok tt → view (os.remove_file p w).1 p ≡ none
  pub remove-other : (p q : FilePath) (w : W) → q ≢ p → view (os.remove_file p w).1 q ≡ view w q
  pub remove-err :
      (p : FilePath) (w : W) (e : IoError)
      → (os.remove_file p w).0 ≡ err e
      → view (os.remove_file p w).1 ≡ view w
  pub remove-missing :
      (p : FilePath) (w : W) (e : IoError)
      → (os.remove_file p w).0 ≡ err e
      → is_not_found e.kind ≡ true
      → view w p ≡ none
  -- a reader that never fails gives the bytes of its file
  pub open_file-view : (p : FilePath) (w : W) → view (os.open_file p w).1 ≡ view w
  pub open_file-ok :
      (p : FilePath) (w : W) (r : Reader)
      → (os.open_file p w).0 ≡ ok r
      → IsClean r
      → view w p ≡ some (content r)
  pub open_file-missing :
      (p : FilePath) (w : W) (e : IoError)
      → (os.open_file p w).0 ≡ err e
      → is_not_found e.kind ≡ true
      → view w p ≡ none
  -- behind the position, that file gives what is left of its bytes
  pub seek_start-view : (p : FilePath) (n : ℕ) (w : W) → view (os.seek_start p n w).1 ≡ view w
  pub seek_start-ok :
      (p : FilePath) (n : ℕ) (w : W) (r : Reader) (bs : Bytes)
      → (os.seek_start p n w).0 ≡ ok r
      → IsClean r
      → view w p ≡ some bs
      → content r ≡ drop n bs
  -- the staging file is not one of the files in view, and it starts empty
  pub atomic_open-view : (p : FilePath) (w : W) → view (os.atomic_open p w).1 ≡ view w
  pub atomic_open-empty :
      (p : FilePath) (w : W) (x : Writer) → (os.atomic_open p w).0 ≡ ok x → x.written ≡ []
  -- a commit replaces the file by what was written; one that fails may have done so
  pub commit-ok :
      (p : FilePath) (bs : Bytes) (w : W)
      → (os.commit p bs w).0 ≡ ok tt
      → view (os.commit p bs w).1 p ≡ some bs
  pub commit-old_or_new :
      (p : FilePath) (bs : Bytes) (w : W)
      → (view (os.commit p bs w).1 p ≡ view w p) ⊎ (view (os.commit p bs w).1 p ≡ some bs)
  pub commit-other :
      (p q : FilePath) (bs : Bytes) (w : W) → q ≢ p → view (os.commit p bs w).1 q ≡ view w q
  -- a rename without replacement
  pub rename-ok :
      (p q : FilePath) (w : W)
      → (os.rename_noreplace p q w).0 ≡ ok tt
      → (view w q ≡ none)
        × (view (os.rename_noreplace p q w).1 q ≡ view w p)
        × (view (os.rename_noreplace p q w).1 p ≡ none)
  pub rename-other :
      (p q r : FilePath) (w : W) → r ≢ p → r ≢ q → view (os.rename_noreplace p q w).1 r ≡ view w r
  pub rename-err :
      (p q : FilePath) (w : W) (e : RenameError)
      → (os.rename_noreplace p q w).0 ≡ err e
      → view (os.rename_noreplace p q w).1 ≡ view w
