-- ===== src/Filesystem/Windows/Cleared.antt =====
-- src/filesystem/mod.rs on Windows: clear_blob removes a blob by way of a staging file.
use atomic_blob_storage.Base.{
  ℕ, zero, suc, ◌≡◌, ◌≢◌, refl, ap, sym, subst, ◌∙◌, ◌⊎◌, inl, inr, true, false, List, [], ◌∷◌,
  ◌++◌, Option, none, some, ◌==◌, arith, Option-cases, Bool-cases,
}
use atomic_blob_storage.Error.{
  Bytes, FilePath, IoError, StoreOperation, StoreError, io, Result, ok, err, Outcome, map_err,
}
use atomic_blob_storage.Config.{StoreConfig}
use atomic_blob_storage.Filesystem.System.{System, is_not_found, is_already_exists}
use atomic_blob_storage.Filesystem.Names.{clear_kind, staging_name, stem, file_name}
use atomic_blob_storage.Filesystem.Unix.{and_then, random_identifier}
use atomic_blob_storage.Filesystem.Windows.{WindowsSystem, delete_file}
use atomic_blob_storage.Filesystem.Windows.Calls.{
  wide, move_file, sync_windows_directory, refresh_windows_clear_age,
}
use atomic_blob_storage.Filesystem.Windows.Operations.{
  staging_path, clear_as, clear_blob, nothing_there,
}
use atomic_blob_storage.Filesystem.Windows.Api.{IsWindows}
use atomic_blob_storage.Filesystem.Windows.Attempts.{collides, FreeWithin}
use atomic_blob_storage.Filesystem.Windows.Views.{
  synced-view, available-view, drawn-view, deleted-view, refresh-view, refresh-missing,
}

module _ {W : Type 0} (std : System W) (api : WindowsSystem W) (view : W → List ℕ → Option Bytes)
    (sys : IsWindows std api view) (config : StoreConfig) (hash name : Bytes) where
  -- The blob, in the namespace.
  abbrev pub blob : FilePath
  blob = config.namespace ++ (name ∷ [])

  abbrev pub cleared_path : Bytes → FilePath
  cleared_path i = staging_path config hash clear_kind i

  -- The blob's file is none of those that a clear makes.
  abbrev pub NotStaged : Type 0
  NotStaged = (i : Bytes) → wide api blob ≢ wide api (cleared_path i)

  -- No other file has changed but staging files of the clear.
  abbrev pub Spares : W → W → Type 0
  Spares w w' =
      (u : List ℕ)
      → u ≢ wide api blob
      → ((i : Bytes) → u ≢ wide api (cleared_path i))
      → view w' u ≡ view w u

  -- The blob is as before or gone, and gone where the clear succeeds.
  abbrev pub Clears : W → Outcome (Unit {0}) × W → Type 0
  Clears w (result, w') =
      Spares w w'
      × ((view w' (wide api blob) ≡ view w (wide api blob)) ⊎ (view w' (wide api blob) ≡ none))
      × (result ≡ ok tt → view w' (wide api blob) ≡ none)

  abbrev pub ClearsIfDone : W → Option (Outcome (Unit {0}) × W) → Type 0
  ClearsIfDone w none = Unit {0}
  ClearsIfDone w (some out) = Clears w out

  kept_with : (w w' : W) (e : StoreError) → view w' ≡ view w → Clears w (err e, w')
  kept_with w w' e same = (
    (λ u a b. ap (λ v. v u) same),
    inl (ap (λ v. v (wide api blob)) same),
    (λ h. absurd (ground arith)),
  )

  -- Where there was no blob, nothing changes, and a success is right.
  absent-Clears :
      (w w2 : W)
      → view w2 ≡ view w
      → view w (wide api blob) ≡ none
      → Clears w (nothing_there std api config w2)
  absent-Clears w w2 same gone =
      let e = available-view std api view sys config w2 ∙ same in
      (
        (λ u a b. ap (λ v. v u) e),
        inl (ap (λ v. v (wide api blob)) e),
        (λ h. ap (λ v. v (wide api blob)) e ∙ gone),
      )

  -- Behind the move, whatever the result.
  gone-Clears :
      (w w' : W) (r : Outcome (Unit {0}))
      → Spares w w'
      → view w' (wide api blob) ≡ none
      → Clears w (r, w')
  gone-Clears w w' r spares gone = (spares, inr gone, (λ h. gone))

  -- The namespace is synchronized and the staging file deleted.
  staged-Clears :
      (i : Bytes) (w w2 : W)
      → NotStaged
      → Spares w w2
      → view w2 (wide api blob) ≡ none
      → Clears w (
          and_then
            (
              map_err
                  (io StoreOperation.sync_namespace_directory)
                  (sync_windows_directory api config w2).0,
              (sync_windows_directory api config w2).1,
            )
            λ _ w3. (
              map_err
                  (io StoreOperation.remove_temporary_file)
                  (delete_file api (cleared_path i) w3).0,
              (delete_file api (cleared_path i) w3).1,
            ))
  staged-Clears i w w2 apart spares gone =
      ending
        (map_err (io StoreOperation.sync_namespace_directory)
          (sync_windows_directory api config w2).0)
        (sync_windows_directory api config w2).1 (synced-view std api view sys config w2)
    where
      ending :
          (r : Outcome (Unit {0})) (w3 : W)
          → view w3 ≡ view w2
          → Clears w (
              and_then {W = W}
                (r, w3)
                λ _ w4. (
                  map_err
                      (io StoreOperation.remove_temporary_file)
                      (delete_file api (cleared_path i) w4).0,
                  (delete_file api (cleared_path i) w4).1,
                ))
      ending (err e) w3 same =
          gone-Clears w w3 (err e) (λ u a b. ap (λ v. v u) same ∙ spares u a b)
            (ap (λ v. v (wide api blob)) same ∙ gone)
      ending (ok x) w3 same =
          let deleted = deleted-view std api view sys config (cleared_path i) in
          gone-Clears w _ _ (λ u a b. deleted u w3 (b i) ∙ (ap (λ v. v u) same ∙ spares u a b))
            (deleted (wide api blob) w3 (apart i) ∙ (ap (λ v. v (wide api blob)) same ∙ gone))

  -- What moving the blob aside does.
  aside_cases :
      (i : Bytes) (w : W)
      → NotStaged
      → let out = move_file api blob (cleared_path i) false w in
        ((out.0 ≡ ok tt) × Spares w out.1 × (view out.1 (wide api blob) ≡ none))
        ⊎ ((e : IoError) × (out.0 ≡ err e)
            × (view out.1 ≡ view w)
            × (is_not_found e.kind ≡ true → view w (wide api blob) ≡ none))
  unfolding move_file
  aside_cases i w apart =
      let P = wide api blob in
      let D = wide api (cleared_path i) in
      let made = api.move_file_ex_w P D false w in
      elim (Bool-cases (made.0 == 0)) [
        | inl failed ↦ inr (
          api.last_os_error made.1,
          rw failed refl,
          rw failed (sys.move-err P D false w (ground arith)),
          (λ absent.
              sys.move-missing config.namespace name
                (staging_name hash config.format.filename_suffix clear_kind i) w (ground arith)
                absent),
        )
        | inr moved ↦
            let (there, gone) = sys.move-ok P D false w (apart i) (ground arith) in
            inl (
              rw moved refl,
              (λ u a b. rw moved (sys.move-other P D u false w a (b i))),
              rw moved gone,
            )
      ]

  -- One attempt, where the others are known.
  clear_step :
      (w0 : W) (attempts : ℕ) (w : W)
      → NotStaged
      → view w ≡ view w0
      → ((w' : W)
          → view w' ≡ view w0
          → ClearsIfDone w0 (clear_as std api config hash blob attempts w'))
      → ClearsIfDone w0 (clear_as std api config hash blob (suc attempts) w)
  unfolding clear_as
  clear_step w0 attempts w apart same next = drawing (random_identifier std w).0 refl
    where
      w1 : W
      w1 = (random_identifier std w).1

      same1 : view w1 ≡ view w0
      same1 = drawn-view std api view sys config w ∙ same

      Goal : Type 0
      Goal = ClearsIfDone w0 (clear_as std api config hash blob (suc attempts) w)

      refused :
          (i : Bytes) (e : IoError)
          → (random_identifier std w).0 ≡ ok i
          → (move_file api blob (cleared_path i) false w1).0 ≡ err e
          → view (move_file api blob (cleared_path i) false w1).1 ≡ view w1
          → (is_not_found e.kind ≡ true → view w1 (wide api blob) ≡ none)
          → Goal
      refused i e g h kept missing = elim (Bool-cases (is_not_found e.kind)) [
        | inl absent ↦
            rw (g, h, absent, clear_as)
              (absent-Clears w0 _ (kept ∙ same1)
                (sym (ap (λ v. v (wide api blob)) same1) ∙ missing absent))
        | inr there ↦ elim (Bool-cases (is_already_exists e.kind)) [
          | inl taken ↦ rw (g, h, there, taken, clear_as) (next _ (kept ∙ same1))
          | inr other ↦ rw (g, h, there, other, clear_as) (kept_with w0 _ _ (kept ∙ same1))
        ]
      ]

      drawing : (r : Outcome Bytes) → (random_identifier std w).0 ≡ r → Goal
      drawing (err e) g = rw (g, clear_as) (kept_with w0 w1 e same1)
      drawing (ok i) g = elim (aside_cases i w1 apart) [
        | inl (h, spares, gone) ↦
            rw (g, h, clear_as)
              (staged-Clears i w0 _ apart (λ u a b. spares u a b ∙ ap (λ v. v u) same1) gone)
        | inr (e, h, kept, missing) ↦ refused i e g h kept missing
      ]

  clear_as-Clears :
      (w0 : W) (attempts : ℕ) (w : W)
      → NotStaged
      → view w ≡ view w0
      → ClearsIfDone w0 (clear_as std api config hash blob attempts w)
  unfolding clear_as
  clear_as-Clears w0 zero w apart same = tt
  clear_as-Clears w0 (suc attempts) w apart same =
      clear_step w0 attempts w apart same (λ w' same'. clear_as-Clears w0 attempts w' apart same')

  clear_as-ends :
      (attempts : ℕ) (w : W)
      → FreeWithin std api blob cleared_path attempts w
      → clear_as std api config hash blob attempts w ≢ none
  unfolding clear_as
  clear_as-ends zero w h = absurd h
  clear_as-ends (suc n) w h =
      let ih = clear_as-ends n (collides std api blob cleared_path w).1 in ground arith

  -- On a lawful Windows, where the blob's path is none of its staging paths, a clear of a blob in
  -- the namespace that meets a free staging name within its attempts ends, and changes no other
  -- file but staging files of the key; the blob is as before or gone, and gone where it succeeds.
  pub clear_blob-Clears :
      (attempts : ℕ) (w : W)
      → file_name blob ≡ some name
      → hash ≡ stem name
      → NotStaged
      → FreeWithin std api blob cleared_path attempts (refresh_windows_clear_age api blob w).1
      → (out : Outcome (Unit {0}) × W) × (clear_blob std api config blob attempts w ≡ some out)
        × Clears w out
  unfolding clear_blob
  clear_blob-Clears attempts w named hashed apart fresh =
      refreshing (refresh_windows_clear_age api blob w).0 refl
    where
      w1 : W
      w1 = (refresh_windows_clear_age api blob w).1

      same : view w1 ≡ view w
      same = refresh-view std api view sys config blob w

      Goal : Type 0
      Goal =
          (out : Outcome (Unit {0}) × W) × (clear_blob std api config blob attempts w ≡ some out)
          × Clears w out

      refreshing :
          (r : Result (Unit {0}) IoError) → (refresh_windows_clear_age api blob w).0 ≡ r → Goal
      refreshing (ok u) h = elim (Option-cases (clear_as std api config hash blob attempts w1)) [
        | inl e ↦ absurd (clear_as-ends attempts w1 fresh e)
        | inr (out, e) ↦ (
          out,
          rw (named, h, clear_blob) (rw⁻¹ hashed e),
          subst (ClearsIfDone w) e (clear_as-Clears w attempts w1 apart same),
        )
      ]
      refreshing (err e) h = elim (Bool-cases (is_not_found e.kind)) [
        | inl absent ↦ (
          nothing_there std api config w1,
          rw (named, h, absent, clear_blob) refl,
          absent-Clears w w1 same (refresh-missing std api view sys config blob w e h absent),
        )
        | inr other ↦ (
          (err (io StoreOperation.refresh_clear_staging_age e), w1),
          rw (named, h, other, clear_blob) refl,
          kept_with w w1 _ same,
        )
      ]
