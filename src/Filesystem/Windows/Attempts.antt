-- ===== src/Filesystem/Windows/Attempts.antt =====
-- src/filesystem/mod.rs on Windows: the attempts to move a blob to a random name.
use atomic_blob_storage.Base.{ℕ, zero, suc, ◌≡◌, ◌⊎◌, Bool, false, if◌then◌else◌}
use atomic_blob_storage.Error.{Bytes, FilePath, IoError, Result, ok, err}
use atomic_blob_storage.Filesystem.System.{System, is_not_found, is_already_exists}
use atomic_blob_storage.Filesystem.Unix.{random_identifier}
use atomic_blob_storage.Filesystem.Windows.{WindowsSystem}
use atomic_blob_storage.Filesystem.Windows.Calls.{move_file}

abbrev pub taken_by : Result (Unit {0}) IoError → Bool
taken_by (ok u) = false
taken_by (err e) = if is_not_found e.kind then false else is_already_exists e.kind

module _ {W : Type 0} (std : System W) (api : WindowsSystem W) (source : FilePath)
    (destination : Bytes → FilePath) where
  -- Whether an attempt meets a name that is in use, and the state behind it.
  abbrev pub collides : W → Bool × W
  collides w =
      let (generated, w1) = random_identifier std w in
      elim generated [
        | err e ↦ (false, w1)
        | ok identifier ↦
            let (moved, w2) = move_file api source (destination identifier) false w1 in
            (taken_by moved, w2)
      ]

  -- Not all of so many attempts meet a name that is in use.
  abbrev pub FreeWithin : ℕ → W → Type 0
  FreeWithin zero w = ⊥
  FreeWithin (suc n) w = ((collides w).0 ≡ false) ⊎ FreeWithin n (collides w).1
