-- ===== src/Filesystem/Windows/Api.antt =====
-- The Windows API under src/filesystem/mod.rs: what the code relies on, for `view`, the contents of the
-- regular files by their wide paths.
use atomic_blob_storage.Base.{
  ℕ, ◌≡◌, ◌≢◌, List, [], Option, none, some, Bool, false, true, ◌∷◌, ◌++◌,
}
use atomic_blob_storage.Error.{Bytes, FilePath}
use atomic_blob_storage.Stream.{Writer}
use atomic_blob_storage.Filesystem.System.{System, is_not_found}
use atomic_blob_storage.Filesystem.Windows.{WindowsSystem}
use atomic_blob_storage.Filesystem.Windows.Calls.{wide}

pub record IsWindows {W : Type 0} (std : System W) (api : WindowsSystem W)
    (view : W → List ℕ → Option Bytes) : Type 0 where
  pub metadata-view : (p : FilePath) (w : W) → view (std.metadata p w).1 ≡ view w
  pub random-view : (w : W) → view (std.random w).1 ≡ view w
  pub system_time-view : (w : W) → view (api.system_time w).1 ≡ view w
  pub open_directory-view : (u : List ℕ) (w : W) → view (api.open_directory u w).1 ≡ view w
  pub open_attributes-view : (u : List ℕ) (w : W) → view (api.open_attributes u w).1 ≡ view w
  pub flush-view : (u : List ℕ) (w : W) → view (api.flush_file_buffers u w).1 ≡ view w
  pub set_file_time-view :
      (u : List ℕ) (low high : ℕ) (w : W) → view (api.set_file_time u low high w).1 ≡ view w
  -- a new file is one that was not there, and it starts empty; no other file is touched
  pub create_new-other : (u v : List ℕ) (w : W) → v ≢ u → view (api.create_new u w).1 v ≡ view w v
  pub create_new-ok :
      (u : List ℕ) (w : W) (x : Writer)
      → (api.create_new u w).0 ≡ some x
      → (view w u ≡ none) × (x.written ≡ [])
  pub create_new-err :
      (u : List ℕ) (w : W) → (api.create_new u w).0 ≡ none → view (api.create_new u w).1 ≡ view w
  -- what was written to a file is its content
  pub write_back-same : (u : List ℕ) (bs : Bytes) (w : W) → view (api.write_back u bs w) u ≡ some bs
  pub write_back-other :
      (u v : List ℕ) (bs : Bytes) (w : W) → v ≢ u → view (api.write_back u bs w) v ≡ view w v
  -- a move takes the file to its destination, another one, and one without replacement to a free one; a move that
  -- fails moves nothing
  pub move-ok :
      (u v : List ℕ) (replace : Bool) (w : W)
      → u ≢ v
      → (api.move_file_ex_w u v replace w).0 ≢ 0
      → (view (api.move_file_ex_w u v replace w).1 v ≡ view w u)
        × (view (api.move_file_ex_w u v replace w).1 u ≡ none)
  pub move-free :
      (u v : List ℕ) (w : W) → u ≢ v → (api.move_file_ex_w u v false w).0 ≢ 0 → view w v ≡ none
  pub move-other :
      (u v x : List ℕ) (replace : Bool) (w : W)
      → x ≢ u
      → x ≢ v
      → view (api.move_file_ex_w u v replace w).1 x ≡ view w x
  pub move-err :
      (u v : List ℕ) (replace : Bool) (w : W)
      → (api.move_file_ex_w u v replace w).0 ≡ 0
      → view (api.move_file_ex_w u v replace w).1 ≡ view w
  pub delete-other : (u v : List ℕ) (w : W) → v ≢ u → view (api.delete_file_w u w).1 v ≡ view w v
  pub delete-ok :
      (u : List ℕ) (w : W) → (api.delete_file_w u w).0 ≢ 0 → view (api.delete_file_w u w).1 u ≡ none
  -- a file that is not found is not there, where the directory of a move is the same
  pub open_attributes-missing :
      (u : List ℕ) (w : W)
      → (api.open_attributes u w).0 ≡ false
      → is_not_found (api.last_os_error (api.open_attributes u w).1).kind ≡ true
      → view w u ≡ none
  pub move-missing :
      (directory : FilePath) (name name' : Bytes) (w : W)
      → let out =
          api.move_file_ex_w
            (wide api (directory ++ (name ∷ [])))
            (wide api (directory ++ (name' ∷ [])))
            false
            w in
        out.0 ≡ 0
        → is_not_found (api.last_os_error out.1).kind ≡ true
        → view w (wide api (directory ++ (name ∷ []))) ≡ none
  -- a call on an open handle does not miss its file
  pub set_file_time-found :
      (u : List ℕ) (low high : ℕ) (w : W)
      → (api.set_file_time u low high w).0 ≡ 0
      → is_not_found (api.last_os_error (api.set_file_time u low high w).1).kind ≡ false
  pub flush-found :
      (u : List ℕ) (w : W)
      → (api.flush_file_buffers u w).0 ≡ 0
      → is_not_found (api.last_os_error (api.flush_file_buffers u w).1).kind ≡ false
