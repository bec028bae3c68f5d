-- ===== src/Tests/WindowsFiles.antt =====
-- src/filesystem/mod.rs on Windows on a small disk, and the theorems about it at such inputs.
use atomic_blob_storage.Base.{
  ℕ, ◌+◌, ◌*◌, ◌/◌, ◌^◌, ◌<◌, ◌≡◌, refl, ap, inl, ◌↔◌, List, [], ◌∷◌, none, some, arith, zero, suc,
}
use atomic_blob_storage.Error.{Bytes, FilePath, Outcome}
use atomic_blob_storage.Config.{StoreConfig, u64_limit}
use atomic_blob_storage.Stream.{write_all}
use atomic_blob_storage.Format.Encode.{SaveStreamMessage, chunk, complete}
use atomic_blob_storage.Filesystem.Names.{stem}
use atomic_blob_storage.Filesystem.Unix.{random_identifier}
use atomic_blob_storage.Filesystem.Contents.Envelopes.{IsEnvelope}
use atomic_blob_storage.Filesystem.Windows.{wide_path}
use atomic_blob_storage.Filesystem.Windows.Calls.{
  wide, create_windows_staging, hundred_ns_per_second, windows_epoch_offset_100ns, file_ticks,
  file_time,
}
use atomic_blob_storage.Filesystem.Windows.Operations.{save_blob}
use atomic_blob_storage.Filesystem.Windows.Commit.{Apart, Replaces}
use atomic_blob_storage.Filesystem.Windows.Saves.{save_blob-ReplacesStaged}
use atomic_blob_storage.Filesystem.Windows.Times.{file_ticks-file_time}
use atomic_blob_storage.Tests.Castagnoli.{castagnoli, castagnoli-IsCrc32c, append}
use atomic_blob_storage.Tests.Samples.{identity, abc, fixture, blob_suffix}
use atomic_blob_storage.Tests.Disk.{Disk, disk_system}
use atomic_blob_storage.Error.{QuarantineInfo}
use atomic_blob_storage.Filesystem.Windows.Calls.{move_file, refresh_windows_clear_age}
use atomic_blob_storage.Filesystem.Windows.Operations.{quarantine_blob, clear_blob}
use atomic_blob_storage.Filesystem.Windows.Relocated.{
  NotQuarantined, Relocates, quarantine_blob-Relocates,
}
use atomic_blob_storage.Filesystem.Windows.Cleared.{NotStaged, Clears, clear_blob-Clears}
use atomic_blob_storage.Tests.WindowsDisk.{files, set, windows_disk, windows_disk-IsWindows}

abbrev config : StoreConfig
config = record {
  namespace = (b'n' ∷ []) ∷ [];
  format = identity;
  maximum = 1024;
  max_concurrent_operations = 2;
}

abbrev name : Bytes
name = b'k' ∷ blob_suffix

-- "k.blob" in the namespace "n"
abbrev path : FilePath
path = (b'n' ∷ []) ∷ name ∷ []

-- The unit of a wide path at an index.
abbrev unit_at : ℕ → List ℕ → ℕ
unit_at zero [] = 0
unit_at zero (u ∷ us) = u
unit_at (suc n) [] = 0
unit_at (suc n) (u ∷ us) = unit_at n us

-- Behind the suffix, a staging file goes on with ".tmp-v1".
path-Apart : Apart disk_system windows_disk files windows_disk-IsWindows config (stem name) path
unfolding stem wide_path
path-Apart identifier h = absurd (ground (arith, ap (unit_at 12) h))

abbrev empty_disk : Disk
empty_disk p = none

-- The blob is there already.
abbrev full_disk : Disk
full_disk = set (wide windows_disk path) (some fixture) empty_disk

save_blob-ReplacesStaged_example :
    (out : Outcome (Unit {0}) × Disk) × (save_blob disk_system windows_disk config castagnoli path
        abc 2 full_disk
      ≡ some out)
    × Replaces disk_system windows_disk files windows_disk-IsWindows config
        (stem name)
        path
        (IsEnvelope castagnoli config abc)
        full_disk
        out
unfolding create_windows_staging random_identifier stem wide_path write_all append
save_blob-ReplacesStaged_example =
    save_blob-ReplacesStaged disk_system windows_disk files windows_disk-IsWindows castagnoli
      castagnoli-IsCrc32c config path name abc 2 full_disk refl (omega arith) path-Apart
      (λ a s made. inl refl)

abbrev messages : List SaveStreamMessage
messages = chunk (b'a' ∷ []) ∷ chunk (b'b' ∷ b'c' ∷ []) ∷ complete ∷ []

file_ticks-file_time_example :
    let exact = 1 * hundred_ns_per_second + 250 / 100 + windows_epoch_offset_100ns in
    ((ticks : ℕ) → (file_ticks 1 250 ≡ some ticks) ↔ ((ticks ≡ exact) × ticks < u64_limit))
    × ((ticks : ℕ)
        → file_ticks 1 250 ≡ some ticks
        → ((file_time ticks).0 < 2 ^ 32)
          × ((file_time ticks).1 < 2 ^ 32)
          × ((file_time ticks).1 * 2 ^ 32 + (file_time ticks).0 ≡ ticks))
file_ticks-file_time_example = file_ticks-file_time 1 250

-- So does a quarantined file with ".quarantine-v1".
path-NotQuarantined :
    NotQuarantined disk_system windows_disk files windows_disk-IsWindows config (stem name) path
unfolding stem wide_path
path-NotQuarantined identifier h = absurd (ground (arith, ap (unit_at 12) h))

quarantine_blob-Relocates_example :
    (out : Outcome QuarantineInfo × Disk) × (quarantine_blob disk_system windows_disk config path 2
        full_disk
      ≡ some out)
    × Relocates disk_system windows_disk files windows_disk-IsWindows config
        (stem name)
        path
        full_disk
        out
unfolding random_identifier stem wide_path move_file
quarantine_blob-Relocates_example =
    quarantine_blob-Relocates disk_system windows_disk files windows_disk-IsWindows config
      (stem name) path name 2 full_disk refl refl path-NotQuarantined (inl refl)

path-NotStaged :
    NotStaged disk_system windows_disk files windows_disk-IsWindows config (stem name) name
unfolding stem wide_path
path-NotStaged identifier h = absurd (ground (arith, ap (unit_at 12) h))

clear_blob-Clears_example :
    (out : Outcome (Unit {0}) × Disk) × (clear_blob disk_system windows_disk config path 2 full_disk
      ≡ some out)
    × Clears disk_system windows_disk files windows_disk-IsWindows config
        (stem name)
        name
        full_disk
        out
unfolding random_identifier stem wide_path move_file refresh_windows_clear_age file_ticks
clear_blob-Clears_example =
    clear_blob-Clears disk_system windows_disk files windows_disk-IsWindows config (stem name) name
      2 full_disk refl refl path-NotStaged (inl refl)
