-- ===== src/Filesystem/Windows/Times.antt =====
-- src/filesystem/mod.rs on Windows: the times of files.
use atomic_blob_storage.Base.{ℕ, ◌+◌, ◌*◌, ◌/◌, ◌^◌, ◌<◌, ◌≡◌, ◌↔◌, some, arith}
use atomic_blob_storage.Config.{u64_limit}
use atomic_blob_storage.Filesystem.Windows.Calls.{
  file_ticks, file_time, hundred_ns_per_second, windows_epoch_offset_100ns,
}

-- A time has a number of 100 ns ticks exactly where that number, counted from the epoch of
-- Windows, fits in a u64, and it is exact; its two words have 32 bits each and give it back.
pub file_ticks-file_time :
    (seconds nanos : ℕ)
    → let exact = seconds * hundred_ns_per_second + nanos / 100 + windows_epoch_offset_100ns in
      ((ticks : ℕ)
        → (file_ticks seconds nanos ≡ some ticks) ↔ ((ticks ≡ exact) × ticks < u64_limit))
      × ((ticks : ℕ)
          → file_ticks seconds nanos ≡ some ticks
          → ((file_time ticks).0 < 2 ^ 32)
            × ((file_time ticks).1 < 2 ^ 32)
            × ((file_time ticks).1 * 2 ^ 32 + (file_time ticks).0 ≡ ticks))
unfolding file_ticks file_time
file_ticks-file_time seconds nanos = ((λ ticks. ground arith), (λ ticks h. ground arith))
