-- ===== src/Filesystem/Windows/Relocated.antt =====
-- src/filesystem/mod.rs on Windows: quarantine_blob moves a blob to a name that was free.
use atomic_blob_storage.Base.{
  ℕ, zero, suc, ◌≡◌, ◌≢◌, refl, ap, sym, subst, ◌∙◌, ◌⊎◌, inl, inr, false, List, [], ◌∷◌, ◌++◌,
  Option, none, some, ◌==◌, arith, Option-cases, Bool-cases,
}
use atomic_blob_storage.Error.{
  Bytes, FilePath, IoError, StoreError, QuarantineInfo, quarantine_source_missing,
  quarantine_namespace_sync, ok, err, Outcome, map_err,
}
use atomic_blob_storage.Config.{StoreConfig}
use atomic_blob_storage.Filesystem.System.{System, is_not_found, is_already_exists}
use atomic_blob_storage.Filesystem.Names.{quarantine_name, stem, file_name}
use atomic_blob_storage.Filesystem.Unix.{and_then, ensure_namespace_available, random_identifier}
use atomic_blob_storage.Filesystem.Windows.{WindowsSystem}
use atomic_blob_storage.Filesystem.Windows.Calls.{wide, move_file, sync_windows_directory}
use atomic_blob_storage.Filesystem.Windows.Operations.{quarantine_as, quarantine_blob}
use atomic_blob_storage.Filesystem.Windows.Api.{IsWindows}
use atomic_blob_storage.Filesystem.Windows.Attempts.{collides, FreeWithin}
use atomic_blob_storage.Filesystem.Windows.Views.{synced-view, available-view, drawn-view}

module _ {W : Type 0} (std : System W) (api : WindowsSystem W) (view : W → List ℕ → Option Bytes)
    (sys : IsWindows std api view) (config : StoreConfig) (hash : Bytes) (path : FilePath) where
  abbrev pub quarantine_path : Bytes → FilePath
  quarantine_path identifier =
      config.namespace ++ (quarantine_name hash config.format.filename_suffix identifier ∷ [])

  -- The blob's file is none of those that a quarantine makes.
  abbrev pub NotQuarantined : Type 0
  NotQuarantined = (i : Bytes) → wide api path ≢ wide api (quarantine_path i)

  -- The blob stands under a name that was free, and no longer under its own; no other file is touched.
  abbrev pub RelocatedTo : W → W → FilePath → Type 0
  RelocatedTo w w' destination =
      (view w (wide api destination) ≡ none)
      × (view w' (wide api destination) ≡ view w (wide api path))
      × (view w' (wide api path) ≡ none)
      × ((u : List ℕ) → u ≢ wide api path → u ≢ wide api destination → view w' u ≡ view w u)

  -- Nothing has changed and there is an error, or the blob was moved, to where a success says.
  abbrev pub Relocates : W → Outcome QuarantineInfo × W → Type 0
  Relocates w (result, w') =
      ((view w' ≡ view w) × ((i : QuarantineInfo) → result ≢ ok i))
      ⊎ ((destination : FilePath) × RelocatedTo w w' destination
          × ((i : QuarantineInfo) → result ≡ ok i → i.diagnostic_path ≡ destination))

  abbrev pub RelocatesIfDone : W → Option (Outcome QuarantineInfo × W) → Type 0
  RelocatesIfDone w none = Unit {0}
  RelocatesIfDone w (some out) = Relocates w out

  kept_with : (w w' : W) (e : StoreError) → view w' ≡ view w → Relocates w (err e, w')
  kept_with w w' e same = inl (same, (λ i h. absurd (ground arith)))

  -- The blob was moved, and the namespace is synchronized.
  moved-Relocates :
      (i : QuarantineInfo) (w w1 w2 : W)
      → view w1 ≡ view w
      → RelocatedTo w1 w2 i.diagnostic_path
      → Relocates w (
          and_then
            (
              map_err (quarantine_namespace_sync i) (sync_windows_directory api config w2).0,
              (sync_windows_directory api config w2).1,
            )
            (λ _ w3. (ok i, w3)))
  moved-Relocates i w w1 w2 same (free, there, gone, others) =
      ending (map_err (quarantine_namespace_sync i) (sync_windows_directory api config w2).0)
        (sync_windows_directory api config w2).1 (synced-view std api view sys config w2)
    where
      d : List ℕ
      d = wide api i.diagnostic_path

      arrived : (w3 : W) → view w3 ≡ view w2 → RelocatedTo w w3 i.diagnostic_path
      arrived w3 e = (
        sym (ap (λ v. v d) same) ∙ free,
        ap (λ v. v d) e ∙ there ∙ ap (λ v. v (wide api path)) same,
        ap (λ v. v (wide api path)) e ∙ gone,
        (λ u a b. ap (λ v. v u) e ∙ others u a b ∙ ap (λ v. v u) same),
      )

      ending :
          (r : Outcome (Unit {0})) (w3 : W)
          → view w3 ≡ view w2
          → Relocates w (and_then {W = W} (r, w3) (λ _ w4. (ok i, w4)))
      ending (ok u) w3 e = inr (i.diagnostic_path, arrived w3 e, (λ j h. ground arith))
      ending (err x) w3 e = inr (i.diagnostic_path, arrived w3 e, (λ j h. absurd (ground arith)))

  missing-Relocates :
      (w w2 : W)
      → view w2 ≡ view w
      → Relocates w (
          and_then
            (ensure_namespace_available std config w2)
            (λ _ w3. (err quarantine_source_missing, w3)))
  missing-Relocates w w2 same =
      ending (ensure_namespace_available std config w2).0
        (ensure_namespace_available std config w2).1 (available-view std api view sys config w2)
    where
      ending :
          (r : Outcome (Unit {0})) (w3 : W)
          → view w3 ≡ view w2
          → Relocates w (and_then {W = W} (r, w3) (λ _ w4. (err quarantine_source_missing, w4)))
      ending (ok u) w3 e = kept_with w w3 _ (e ∙ same)
      ending (err x) w3 e = kept_with w w3 x (e ∙ same)

  -- What a move to a free name does.
  relocation_cases :
      (d : FilePath) (w : W)
      → wide api path ≢ wide api d
      → let out = move_file api path d false w in
        ((out.0 ≡ ok tt) × RelocatedTo w out.1 d)
        ⊎ ((e : IoError) × (out.0 ≡ err e) × (view out.1 ≡ view w))
  unfolding move_file
  relocation_cases d w apart =
      let P = wide api path in
      let D = wide api d in
      let made = api.move_file_ex_w P D false w in
      elim (Bool-cases (made.0 == 0)) [
        | inl failed ↦ inr (
          api.last_os_error made.1,
          rw failed refl,
          rw failed (sys.move-err P D false w (ground arith)),
        )
        | inr moved ↦
            let (there, gone) = sys.move-ok P D false w apart (ground arith) in
            inl (
              rw moved refl,
              (
                sys.move-free P D w apart (ground arith),
                rw moved there,
                rw moved gone,
                (λ u a b. rw moved (sys.move-other P D u false w a b)),
              ),
            )
      ]

  -- One attempt, where the others are known.
  relocate_step :
      (w0 : W) (attempts : ℕ) (w : W)
      → NotQuarantined
      → view w ≡ view w0
      → ((w' : W)
          → view w' ≡ view w0
          → RelocatesIfDone w0 (quarantine_as std api config hash path attempts w'))
      → RelocatesIfDone w0 (quarantine_as std api config hash path (suc attempts) w)
  unfolding quarantine_as
  relocate_step w0 attempts w apart same next = drawing (random_identifier std w).0 refl
    where
      w1 : W
      w1 = (random_identifier std w).1

      same1 : view w1 ≡ view w0
      same1 = drawn-view std api view sys config w ∙ same

      Goal : Type 0
      Goal = RelocatesIfDone w0 (quarantine_as std api config hash path (suc attempts) w)

      refused :
          (i : Bytes) (e : IoError)
          → (random_identifier std w).0 ≡ ok i
          → (move_file api path (quarantine_path i) false w1).0 ≡ err e
          → view (move_file api path (quarantine_path i) false w1).1 ≡ view w1
          → Goal
      refused i e g h kept = elim (Bool-cases (is_not_found e.kind)) [
        | inl absent ↦ rw (g, h, absent, quarantine_as) (missing-Relocates w0 _ (kept ∙ same1))
        | inr there ↦ elim (Bool-cases (is_already_exists e.kind)) [
          | inl taken ↦ rw (g, h, there, taken, quarantine_as) (next _ (kept ∙ same1))
          | inr other ↦ rw (g, h, there, other, quarantine_as) (kept_with w0 _ _ (kept ∙ same1))
        ]
      ]

      drawing : (r : Outcome Bytes) → (random_identifier std w).0 ≡ r → Goal
      drawing (err e) g = rw (g, quarantine_as) (kept_with w0 w1 e same1)
      drawing (ok i) g = elim (relocation_cases (quarantine_path i) w1 (apart i)) [
        | inl (h, relocated) ↦
            rw (g, h, quarantine_as)
              (moved-Relocates (record { identifier = i; diagnostic_path = quarantine_path i }) w0
                w1 _ same1 relocated)
        | inr (e, h, kept) ↦ refused i e g h kept
      ]

  quarantine_as-Relocates :
      (w0 : W) (attempts : ℕ) (w : W)
      → NotQuarantined
      → view w ≡ view w0
      → RelocatesIfDone w0 (quarantine_as std api config hash path attempts w)
  unfolding quarantine_as
  quarantine_as-Relocates w0 zero w apart same = tt
  quarantine_as-Relocates w0 (suc attempts) w apart same =
      relocate_step w0 attempts w apart same
        (λ w' same'. quarantine_as-Relocates w0 attempts w' apart same')

  relocation-ends :
      (attempts : ℕ) (w : W)
      → FreeWithin std api path quarantine_path attempts w
      → quarantine_as std api config hash path attempts w ≢ none
  unfolding quarantine_as
  relocation-ends zero w h = absurd h
  relocation-ends (suc n) w h =
      let ih = relocation-ends n (collides std api path quarantine_path w).1 in ground arith

  -- On a lawful Windows, where the blob's path is none of those of its quarantine, a quarantine
  -- that meets a free name within its attempts ends, and nothing is lost and nothing overwritten:
  -- either all files are as before and there is an error, or the blob, unchanged, stands under a
  -- name that was free, and no longer under its own, and a success reports that name.
  pub quarantine_blob-Relocates :
      (name : Bytes) (attempts : ℕ) (w : W)
      → file_name path ≡ some name
      → hash ≡ stem name
      → NotQuarantined
      → FreeWithin std api path quarantine_path attempts w
      → (out : Outcome QuarantineInfo × W) × (quarantine_blob std api config path attempts w
          ≡ some out)
        × Relocates w out
  unfolding quarantine_blob
  quarantine_blob-Relocates name attempts w named hashed apart fresh =
      elim (Option-cases (quarantine_as std api config hash path attempts w)) [
        | inl e ↦ absurd (relocation-ends attempts w fresh e)
        | inr (out, e) ↦ (
          out,
          rw (named, quarantine_blob) (rw⁻¹ hashed e),
          subst (RelocatesIfDone w) e (quarantine_as-Relocates w attempts w apart refl),
        )
      ]
