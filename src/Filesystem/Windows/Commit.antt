-- ===== src/Filesystem/Windows/Commit.antt =====
-- src/filesystem/mod.rs on Windows: a staging file takes the place of the blob.
use atomic_blob_storage.Base.{
  ℕ, ◌≡◌, ◌≢◌, refl, ap, sym, ◌∙◌, ◌⊎◌, inl, inr, Bool, true, false, List, Option, none, some, ◌==◌,
  arith, Bool-cases,
}
use atomic_blob_storage.Error.{
  Bytes, FilePath, IoError, StoreOperation, StoreError, io, atomic_commit, ok, err, Outcome,
  map_err,
}
use atomic_blob_storage.Config.{StoreConfig}
use atomic_blob_storage.Filesystem.System.{System}
use atomic_blob_storage.Filesystem.Names.{save_kind}
use atomic_blob_storage.Filesystem.Unix.{and_then}
use atomic_blob_storage.Filesystem.Windows.{WindowsSystem}
use atomic_blob_storage.Filesystem.Windows.Calls.{
  wide, api_result, move_file, sync_windows_directory,
}
use atomic_blob_storage.Filesystem.Windows.Operations.{staging_path, exists_already, commit_staging}
use atomic_blob_storage.Filesystem.Windows.Api.{IsWindows}
use atomic_blob_storage.Filesystem.Windows.Views.{synced-view}

api_result-world : {W : Type 0} (api : WindowsSystem W) (r : ℕ × W) → (api_result api r).1 ≡ r.1
api_result-world api r = ground arith

module _ {W : Type 0} (std : System W) (api : WindowsSystem W) (view : W → List ℕ → Option Bytes)
    (sys : IsWindows std api view) (config : StoreConfig) (hash : Bytes) (path : FilePath) where
  abbrev pub staging : Bytes → List ℕ
  staging identifier = wide api (staging_path config hash save_kind identifier)

  -- The blob's file is none of its staging files.
  abbrev pub Apart : Type 0
  Apart = (identifier : Bytes) → staging identifier ≢ wide api path

  -- Only staging files of the key have changed.
  abbrev pub Stages : W → W → Type 0
  Stages w w' = (u : List ℕ) → ((i : Bytes) → u ≢ staging i) → view w' u ≡ view w u

  abbrev pub Replaces : (Bytes → Type 0) → W → Outcome (Unit {0}) × W → Type 0
  Replaces New w (result, w') =
      ((u : List ℕ) → u ≢ wide api path → ((i : Bytes) → u ≢ staging i) → view w' u ≡ view w u)
      × ((view w' (wide api path) ≡ view w (wide api path))
          ⊎ ((bs : Bytes) × (view w' (wide api path) ≡ some bs) × New bs))
      × (result ≡ ok tt → (bs : Bytes) × (view w' (wide api path) ≡ some bs) × New bs)

  abbrev pub ReplacesIfDone : (Bytes → Type 0) → W → Option (Outcome (Unit {0}) × W) → Type 0
  ReplacesIfDone New w none = Unit {0}
  ReplacesIfDone New w (some out) = Replaces New w out

  -- What a move of the staging file does.
  move_cases :
      (s : FilePath) (replace : Bool) (w : W)
      → wide api s ≢ wide api path
      → let out = move_file api s path replace w in
        ((out.0 ≡ ok tt)
          × (view out.1 (wide api path) ≡ view w (wide api s))
          × ((u : List ℕ) → u ≢ wide api s → u ≢ wide api path → view out.1 u ≡ view w u))
        ⊎ ((e : IoError) × (out.0 ≡ err e) × (view out.1 ≡ view w))
  unfolding move_file
  move_cases s replace w apart =
      let made = api.move_file_ex_w (wide api s) (wide api path) replace w in
      elim (Bool-cases (made.0 == 0)) [
        | inl failed ↦ inr (
          api.last_os_error made.1,
          rw failed refl,
          rw failed (sys.move-err (wide api s) (wide api path) replace w (ground arith)),
        )
        | inr moved ↦
            let (there, gone) =
              sys.move-ok (wide api s) (wide api path) replace w apart (ground arith) in
            inl (
              rw moved refl,
              rw moved there,
              (λ u a b. rw moved (sys.move-other (wide api s) (wide api path) u replace w a b)),
            )
      ]

  -- The synchronization of the namespace changes no file.
  synced-Replaces :
      (New : Bytes → Type 0) (f : IoError → StoreError) (w : W) (moved : Outcome (Unit {0}) × W)
      → Replaces New w moved
      → Replaces New w (
          and_then moved (λ _ w2. (
            map_err f (sync_windows_directory api config w2).0,
            (sync_windows_directory api config w2).1,
          )))
  synced-Replaces New f w (err e, w1) h = h
  synced-Replaces New f w (ok u, w1) (others, old_or_new, new) =
      let same = synced-view std api view sys config w1 in
      let P = wide api path in
      (
        (λ x a b. ap (λ v. v x) same ∙ others x a b),
        (elim old_or_new [
          | inl old ↦ inl (ap (λ v. v P) same ∙ old)
          | inr (bs, held, good) ↦ inr (bs, ap (λ v. v P) same ∙ held, good)
        ]),
        (λ done. let (bs, held, good) = new refl in (bs, ap (λ v. v P) same ∙ held, good)),
      )

  pub unmoved :
      (New : Bytes → Type 0) (w w' : W) (e : StoreError)
      → Apart
      → Stages w w'
      → Replaces New w (err e, w')
  unmoved New w w' e apart same = (
    (λ u a b. same u b),
    inl (same (wide api path) (λ i p. apart i (sym p))),
    (λ h. absurd (ground arith)),
  )

  arrived :
      (New : Bytes → Type 0) (i bs : Bytes) (w w1 w2 : W)
      → Stages w w1
      → New bs
      → view w1 (staging i) ≡ some bs
      → view w2 (wide api path) ≡ view w1 (staging i)
      → ((u : List ℕ) → u ≢ staging i → u ≢ wide api path → view w2 u ≡ view w1 u)
      → Replaces New w (ok tt, w2)
  arrived New i bs w w1 w2 same good held there others = (
    (λ u a b. others u (b i) a ∙ same u b),
    inr (bs, there ∙ held, good),
    (λ h. (bs, there ∙ held, good)),
  )

  pub commit_staging-Replaces :
      (New : Bytes → Type 0) (i bs : Bytes) (w w1 : W)
      → Apart
      → Stages w w1
      → New bs
      → view w1 (staging i) ≡ some bs
      → Replaces New w
          (commit_staging std api config (staging_path config hash save_kind i) path w1)
  unfolding commit_staging
  commit_staging-Replaces New i bs w w1 apart same good held =
      let s = staging_path config hash save_kind i in
      elim (move_cases s false w1 (apart i)) [
        | inl (done, there, others) ↦
            rw (done, commit_staging)
              (synced-Replaces New (io StoreOperation.sync_namespace_directory) w (ok tt, _)
                (arrived New i bs w w1 _ same good held there others))
        | inr (e, failed, kept) ↦ elim (Bool-cases (exists_already std api config e)) [
          | inr other ↦
              rw (failed, other, commit_staging)
                (unmoved New w _ (atomic_commit e) apart (λ u b. ap (λ v. v u) kept ∙ same u b))
          | inl taken ↦
              let w2 = (move_file api s path false w1).1 in
              let same2 : Stages w w2 = λ u b. ap (λ v. v u) kept ∙ same u b in
              let held2 : view w2 (staging i) ≡ some bs = ap (λ v. v (staging i)) kept ∙ held in
              elim (move_cases s true w2 (apart i)) [
                | inl (done, there, others) ↦
                    rw (failed, taken, done, commit_staging)
                      (synced-Replaces New (io StoreOperation.sync_namespace_directory) w (ok tt, _)
                        (arrived New i bs w w2 _ same2 good held2 there others))
                | inr (e', failed', kept') ↦
                    rw (failed, taken, failed', commit_staging)
                      (unmoved New w _ (atomic_commit e') apart
                        (λ u b. ap (λ v. v u) kept' ∙ same2 u b))
              ]
        ]
      ]
