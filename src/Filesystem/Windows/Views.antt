-- ===== src/Filesystem/Windows/Views.antt =====
-- src/filesystem/mod.rs on Windows: what changes no file.
use atomic_blob_storage.Base.{
  ℕ, ◌≡◌, ◌≢◌, ap, sym, ◌∙◌, ◌==◌, true, false, inl, inr, List, Option, none, arith, Bool-cases,
  Option-cases,
}
use atomic_blob_storage.Error.{Bytes, FilePath, IoError, err}
use atomic_blob_storage.Config.{StoreConfig}
use atomic_blob_storage.Filesystem.System.{System, is_not_found}
use atomic_blob_storage.Filesystem.Unix.{ensure_namespace_available, random_identifier}
use atomic_blob_storage.Filesystem.Windows.{WindowsSystem, delete_file}
use atomic_blob_storage.Filesystem.Windows.Calls.{
  wide, sync_windows_directory, refresh_windows_clear_age, set_and_flush, ticks_of, file_time,
}
use atomic_blob_storage.Filesystem.Windows.Api.{IsWindows}

module _ {W : Type 0} (std : System W) (api : WindowsSystem W) (view : W → List ℕ → Option Bytes)
    (sys : IsWindows std api view) (config : StoreConfig) where
  pub synced-view : (w : W) → view (sync_windows_directory api config w).1 ≡ view w
  unfolding sync_windows_directory
  synced-view w =
      let w1 = (api.open_directory (wide api config.namespace) w).1 in
      ground (
        arith,
        sys.open_directory-view (wide api config.namespace) w,
        sys.flush-view (wide api config.namespace) w1,
      )

  pub available-view : (w : W) → view (ensure_namespace_available std config w).1 ≡ view w
  unfolding ensure_namespace_available
  available-view w = ground (arith, sys.metadata-view config.namespace w)

  pub drawn-view : (w : W) → view (random_identifier std w).1 ≡ view w
  unfolding random_identifier
  drawn-view w = sys.random-view w

  pub deleted-view :
      (d : FilePath) (u : List ℕ) (w : W)
      → u ≢ wide api d
      → view (delete_file api d w).1 u ≡ view w u
  unfolding delete_file
  deleted-view d u w apart =
      let there = sys.delete-other (wide api d) u w apart in ground (arith, there)

  set_and_flush-view :
      (u : List ℕ) (time : ℕ × ℕ) (w : W) → view (set_and_flush api u time w).1 ≡ view w
  set_and_flush-view u (low, high) w =
      let w1 = (api.set_file_time u low high w).1 in
      ground (arith, sys.set_file_time-view u low high w, sys.flush-view u w1)

  set_and_flush-found :
      (u : List ℕ) (time : ℕ × ℕ) (w : W) (e : IoError)
      → (set_and_flush api u time w).0 ≡ err e
      → is_not_found e.kind ≡ false
  set_and_flush-found u (low, high) w e h =
      let made = api.set_file_time u low high w in
      let flushed = api.flush_file_buffers u made.1 in
      elim (Bool-cases (made.0 == 0)) [
        | inl failed ↦ ground (arith, sys.set_file_time-found u low high w (ground arith))
        | inr done ↦ elim (Bool-cases (flushed.0 == 0)) [
          | inl failed ↦ ground (arith, sys.flush-found u made.1 (ground arith))
          | inr done' ↦ absurd (ground arith)
        ]
      ]

  pub refresh-view :
      (path : FilePath) (w : W) → view (refresh_windows_clear_age api path w).1 ≡ view w
  unfolding refresh_windows_clear_age
  refresh-view path w =
      let (time, w1) = api.system_time w in
      let (valid, w2) = api.open_attributes (wide api path) w1 in
      let same = sys.open_attributes-view (wide api path) w1 ∙ sys.system_time-view w in
      elim (Option-cases (ticks_of time)) [
        | inl none_fits ↦ rw (none_fits, refresh_windows_clear_age) (sys.system_time-view w)
        | inr (ticks, fits) ↦ elim (Bool-cases valid) [
          | inl opened ↦
              rw (fits, opened, refresh_windows_clear_age)
                (set_and_flush-view (wide api path) (file_time ticks) w2 ∙ same)
          | inr failed ↦ rw (fits, failed, refresh_windows_clear_age) same
        ]
      ]

  -- A blob whose age cannot be refreshed since it is not found is not there.
  pub refresh-missing :
      (path : FilePath) (w : W) (e : IoError)
      → (refresh_windows_clear_age api path w).0 ≡ err e
      → is_not_found e.kind ≡ true
      → view w (wide api path) ≡ none
  unfolding refresh_windows_clear_age
  refresh-missing path w e h absent =
      let (time, w1) = api.system_time w in
      let (valid, w2) = api.open_attributes (wide api path) w1 in
      let there = ap (λ v. v (wide api path)) (sys.system_time-view w) in
      elim (Option-cases (ticks_of time)) [
        | inl none_fits ↦ absurd (ground arith)
        | inr (ticks, fits) ↦ elim (Bool-cases valid) [
          | inl opened ↦
              let found =
                set_and_flush-found (wide api path) (file_time ticks) w2 e (ground arith) in
              absurd (ground arith)
          | inr failed ↦
              let missing = sys.open_attributes-missing (wide api path) w1 failed (ground arith) in
              sym there ∙ missing
        ]
      ]
