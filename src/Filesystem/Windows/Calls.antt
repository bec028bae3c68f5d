-- ===== src/Filesystem/Windows/Calls.antt =====
-- src/filesystem/mod.rs on Windows: the calls of the Windows API.
use atomic_blob_storage.Base.{
  ℕ, ◌+◌, ◌*◌, ◌/◌, ◌%◌, ◌^◌, Bool, List, [], ◌∷◌, Option, none, some, ltb, ◌==◌, if◌then◌else◌,
}
use atomic_blob_storage.Error.{
  Bytes, FilePath, IoError, StoreOperation, io, Result, ok, err, Outcome,
}
use atomic_blob_storage.Config.{StoreConfig, u64_limit}
use atomic_blob_storage.Stream.{Writer}
use atomic_blob_storage.Format.Crc.{Crc32c}
use atomic_blob_storage.Format.Encode.{SaveStreamMessage, write_stream_envelope}
use atomic_blob_storage.Filesystem.Unix.{write_sections}
use atomic_blob_storage.Filesystem.Windows.{WindowsSystem, wide_path, not_regular}

-- The seconds and the nanoseconds since the Unix epoch in units of 100 ns since that of Windows; each
-- step is checked to fit in a u64.
abbrev pub checked : ℕ → Option ℕ
checked n = if ltb n u64_limit then some n else none

abbrev pub and_checked : Option ℕ → (ℕ → ℕ) → Option ℕ
and_checked none f = none
and_checked (some n) f = checked (f n)

abbrev pub windows_epoch_offset_100ns : ℕ
windows_epoch_offset_100ns = 116444736000000000

abbrev pub hundred_ns_per_second : ℕ
hundred_ns_per_second = 10000000

unfoldable pub file_ticks : ℕ → ℕ → Option ℕ
file_ticks seconds nanos =
    and_checked
      (and_checked (checked (seconds * hundred_ns_per_second)) (λ ticks. ticks + nanos / 100))
      (λ ticks. ticks + windows_epoch_offset_100ns)

abbrev pub ticks_of : Option (ℕ × ℕ) → Option ℕ
ticks_of none = none
ticks_of (some (seconds, nanos)) = file_ticks seconds nanos

-- `FILETIME`: the low and the high four bytes.
unfoldable pub file_time : ℕ → ℕ × ℕ
file_time ticks = (ticks % 2 ^ 32, ticks / 2 ^ 32 % 2 ^ 32)

module _ {W : Type 0} (api : WindowsSystem W) where
  abbrev pub wide : FilePath → List ℕ
  wide path = wide_path (api.encode_wide path)

  -- `if unsafe { call } == 0 { Err(io::Error::last_os_error()) } else { Ok(()) }`
  abbrev pub api_result : ℕ × W → Result (Unit {0}) IoError × W
  api_result (code, w) = if code == 0 then (err (api.last_os_error w), w) else (ok tt, w)

  unfoldable pub move_file : FilePath → FilePath → Bool → W → Result (Unit {0}) IoError × W
  move_file source destination replace w =
      api_result (api.move_file_ex_w (wide source) (wide destination) replace w)

  unfoldable pub sync_windows_directory : StoreConfig → W → Result (Unit {0}) IoError × W
  sync_windows_directory config w =
      let (valid, w1) = api.open_directory (wide config.namespace) w in
      if valid
      then api_result (api.flush_file_buffers (wide config.namespace) w1)
      else (err (api.last_os_error w1), w1)

  -- The new file is written by `write`, and flushed where that succeeds.
  abbrev pub create_staging :
      FilePath → (Writer → Outcome (Unit {0}) × Writer) → W → Outcome (Unit {0}) × W
  create_staging path write w =
      let (created, w1) = api.create_new (wide path) w in
      elim created [
        | none ↦ (err (io StoreOperation.open_atomic_writer (api.last_os_error w1)), w1)
        | some writer ↦
            let (res, writer') = write writer in
            let w2 = api.write_back (wide path) writer'.written w1 in
            let (code, w3) = api.flush_file_buffers (wide path) w2 in
            elim res [
              | err e ↦ (err e, w2)
              | ok _ ↦
                  if code == 0
                  then (err (io StoreOperation.write_envelope (api.last_os_error w3)), w3)
                  else (ok tt, w3)
            ]
      ]

  unfoldable pub create_windows_staging :
      Crc32c → FilePath → Bytes → Bytes → Bytes → W → Outcome (Unit {0}) × W
  create_windows_staging c path header payload checksum w =
      create_staging path (write_sections c (header ∷ payload ∷ checksum ∷ [])) w

  unfoldable pub create_windows_streaming_staging :
      Crc32c → StoreConfig → FilePath → ℕ → List SaveStreamMessage → W → Outcome (Unit {0}) × W
  create_windows_streaming_staging c config path declared chunks w =
      create_staging path
        (λ writer. write_stream_envelope c config.format config.maximum writer declared chunks) w

  -- The time is set, and the file flushed where that succeeds.
  abbrev pub set_and_flush : List ℕ → ℕ × ℕ → W → Result (Unit {0}) IoError × W
  set_and_flush path (low, high) w =
      let (res, w1) = api_result (api.set_file_time path low high w) in
      elim res [ err e ↦ (err e, w1) | ok _ ↦ api_result (api.flush_file_buffers path w1) ]

  unfoldable pub refresh_windows_clear_age : FilePath → W → Result (Unit {0}) IoError × W
  refresh_windows_clear_age path w =
      let (time, w1) = api.system_time w in
      let (valid, w2) = api.open_attributes (wide path) w1 in
      elim (ticks_of time) [
        | none ↦ (err not_regular, w1)
        | some ticks ↦
            if valid
            then set_and_flush (wide path) (file_time ticks) w2
            else (err (api.last_os_error w2), w2)
      ]
