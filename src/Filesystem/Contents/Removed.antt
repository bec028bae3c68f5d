-- ===== src/Filesystem/Contents/Removed.antt =====
-- src/filesystem/mod.rs: clear_blob removes a blob.
use atomic_blob_storage.Base.{
  ◌≡◌, ◌≢◌, refl, ap, ◌∙◌, ◌⊎◌, inl, inr, Option, none, arith, Bool-cases,
}
use atomic_blob_storage.Error.{Bytes, FilePath, IoError, StoreOperation, Result, ok, err, Outcome}
use atomic_blob_storage.Config.{StoreConfig}
use atomic_blob_storage.Filesystem.System.{System, IsSystem, is_not_found}
use atomic_blob_storage.Filesystem.Unix.{sync_directory, ensure_namespace_available, clear_blob}

-- The file at `path` is gone or as before, and gone where the result is a success; no other file is
-- touched.
abbrev pub Removes :
    {W : Type 0} → (W → FilePath → Option Bytes) → FilePath → W → Outcome (Unit {0}) × W → Type 0
Removes view path w (result, w') =
    ((q : FilePath) → q ≢ path → view w' q ≡ view w q)
    × ((view w' path ≡ view w path) ⊎ (view w' path ≡ none))
    × (result ≡ ok tt → view w' path ≡ none)

module _ {W : Type 0} (os : System W) (view : W → FilePath → Option Bytes) (sys : IsSystem os view)
    (config : StoreConfig) where
  sync_directory-view :
      (p : FilePath) (o1 o2 : StoreOperation) (w : W)
      → view (sync_directory os p o1 o2 w).1 ≡ view w
  unfolding sync_directory
  sync_directory-view p o1 o2 w =
      ground (arith, sys.open_dir-view p w, sys.sync_all-view p (os.open_dir p w).1)

  pub ensure_namespace_available-view :
      (w : W) → view (ensure_namespace_available os config w).1 ≡ view w
  unfolding ensure_namespace_available
  ensure_namespace_available-view w = ground (arith, sys.metadata-view config.namespace w)

  -- On a lawful system, a clear changes no other file; its own blob is as before or gone, and gone
  -- where it succeeds.
  pub clear_blob-Removes :
      (path : FilePath) (w : W) → Removes view path w (clear_blob os config path w)
  unfolding clear_blob
  clear_blob-Removes path w = go (os.remove_file path w).0 refl
    where
      w1 : W
      w1 = (os.remove_file path w).1

      go :
          (r : Result (Unit {0}) IoError)
          → (os.remove_file path w).0 ≡ r
          → Removes view path w (clear_blob os config path w)
      go (ok u) h =
          let synced =
            sync_directory-view config.namespace StoreOperation.open_namespace_directory
              StoreOperation.sync_namespace_directory w1 in
          let gone = ap (λ v. v path) synced ∙ sys.remove-ok path w h in
          rw (h, clear_blob)
            (
              (λ q other. ap (λ v. v q) synced ∙ sys.remove-other path q w other),
              inr gone,
              (λ good. gone),
            )
      go (err e) h = elim (Bool-cases (is_not_found e.kind)) [
        | inl missing ↦
            let same = ensure_namespace_available-view w1 ∙ sys.remove-err path w e h in
            rw (h, missing, clear_blob)
              (
                (λ q other. ap (λ v. v q) same),
                inl (ap (λ v. v path) same),
                (λ good. ap (λ v. v path) same ∙ sys.remove-missing path w e h missing),
              )
        | inr fails ↦
            let same = sys.remove-err path w e h in
            rw (h, fails, clear_blob)
              (
                (λ q other. ap (λ v. v q) same),
                inl (ap (λ v. v path) same),
                (λ good. absurd (ground arith)),
              )
      ]
