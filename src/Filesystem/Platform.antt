-- ===== src/Filesystem/Platform.antt =====
-- src/filesystem/mod.rs: the platforms that initialize_platform is compiled for.
use atomic_blob_storage.Base.{ℕ, Bool}
use atomic_blob_storage.Error.{FilePath, Outcome}
use atomic_blob_storage.Config.{BlobFormatIdentity, StoreConfig}
use atomic_blob_storage.Filesystem.System.{System}
use atomic_blob_storage.Filesystem.Unix
use atomic_blob_storage.Filesystem.Windows.{WindowsSystem}
use atomic_blob_storage.Filesystem.Windows.Initialize

pub data Platform (W : Type 0) : Type 0 where
  unix : System W → Platform W
  windows : System W → WindowsSystem W → Platform W

-- What is used of std::fs on both.
abbrev pub std_of : {W : Type 0} → Platform W → System W
std_of (unix os) = os
std_of (windows std api) = std

-- `relative` is `root.is_relative()`, which only Unix asks for.
abbrev pub initialize_on :
    {W : Type 0}
    → Platform W
    → FilePath
    → Bool
    → FilePath
    → BlobFormatIdentity
    → ℕ
    → ℕ
    → W
    → Outcome StoreConfig × W
initialize_on (unix os) root relative component format maximum slots w =
    Unix.initialize_platform os root relative component format maximum slots w
initialize_on (windows std api) root relative component format maximum slots w =
    Initialize.initialize_platform std api root component format maximum slots w
