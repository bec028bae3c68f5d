-- ===== src/Filesystem/Windows/Laws.antt =====
-- src/filesystem/mod.rs: what a cleanup reports.
use atomic_blob_storage.Base.{ℕ, suc, ◌+◌, ◌≡◌, true, List, [], ◌∷◌, length, All, if◌then◌else◌}
use atomic_blob_storage.Error.{Bytes, IoError, CleanupReport, Result, ok, err}
use atomic_blob_storage.Config.{StoreConfig}
use atomic_blob_storage.Filesystem.Names.{is_owned_temporary_filename}
use atomic_blob_storage.Filesystem.Windows.{WindowsSystem}

-- How many lines the entries make in a report: one for each owned name and for each entry that fails.
abbrev pub reported : Bytes → List (Result Bytes IoError) → ℕ
reported suffix [] = 0
reported suffix (err e ∷ l) = suc (reported suffix l)
reported suffix (ok name ∷ l) =
    let rest = reported suffix l in
    if is_owned_temporary_filename name suffix then suc rest else rest

abbrev pub report_size : CleanupReport → ℕ
report_size r = length r.removed + (length r.skipped + length r.failures)

abbrev Owned : Bytes → Bytes → Type 0
Owned suffix name = is_owned_temporary_filename name suffix ≡ true

-- Every name that was removed is that of a staging file.
abbrev pub RemovesOwned : Bytes → CleanupReport → Type 0
RemovesOwned suffix r = All (Owned suffix) r.removed

module _ {W : Type 0} (os : WindowsSystem W) (config : StoreConfig) (now minimum_age : ℕ) where
  -- What one more line makes of a report.
  abbrev Adds : CleanupReport → CleanupReport → Type 0
  Adds r r' =
      (report_size r' ≡ suc (report_size r))
      × (RemovesOwned config.format.filename_suffix r
          → RemovesOwned config.format.filename_suffix r')

  -- One entry adds a line where it is reported, and none where it is not.
  abbrev Counts : Result Bytes IoError → CleanupReport → CleanupReport → Type 0
  Counts entry r r' =
      (report_size r' ≡ report_size r + reported config.format.filename_suffix (entry ∷ []))
      × (RemovesOwned config.format.filename_suffix r
          → RemovesOwned config.format.filename_suffix r')
