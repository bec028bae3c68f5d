-- ===== src/Filesystem/Contents/Quarantined.antt =====
-- src/filesystem/mod.rs: quarantine_blob moves a blob to a name that was free.
use atomic_blob_storage.Base.{
  ℕ, zero, suc, ◌≡◌, ◌≢◌, refl, ap, sym, subst, ◌∙◌, ◌⊎◌, inl, inr, Bool, true, false, [], ◌∷◌,
  ◌++◌, Option, none, some, arith, Option-cases,
}
use atomic_blob_storage.Error.{
  Bytes, FilePath, StoreError, QuarantineInfo, Result, ok, err, Outcome,
}
use atomic_blob_storage.Config.{StoreConfig}
use atomic_blob_storage.Filesystem.System.{System, IsSystem, RenameError, noent, exist, errno}
use atomic_blob_storage.Filesystem.Names.{quarantine_name, stem, file_name}
use atomic_blob_storage.Filesystem.Unix.{
  and_then, ensure_namespace_available, random_identifier, sync_quarantine_namespace, quarantine_as,
  quarantine_blob,
}
use atomic_blob_storage.Filesystem.Contents.Removed.{ensure_namespace_available-view}

-- The blob stands under a name that was free, and no longer under its own; no other file is touched.
abbrev pub MovedTo :
    {W : Type 0} → (W → FilePath → Option Bytes) → FilePath → W → W → FilePath → Type 0
MovedTo view path w w' destination =
    (view w destination ≡ none)
    × (view w' destination ≡ view w path)
    × (view w' path ≡ none)
    × ((q : FilePath) → q ≢ path → q ≢ destination → view w' q ≡ view w q)

-- The outcome of a quarantine: nothing has changed and there is an error, or the blob was moved, to
-- where a success says.
abbrev pub Quarantines :
    {W : Type 0}
    → (W → FilePath → Option Bytes)
    → FilePath
    → W
    → Outcome QuarantineInfo × W
    → Type 0
Quarantines view path w (result, w') =
    ((view w' ≡ view w) × ((i : QuarantineInfo) → result ≢ ok i))
    ⊎ ((destination : FilePath) × MovedTo view path w w' destination
        × ((i : QuarantineInfo) → result ≡ ok i → i.diagnostic_path ≡ destination))

abbrev pub QuarantinesIfDone :
    {W : Type 0}
    → (W → FilePath → Option Bytes)
    → FilePath
    → W
    → Option (Outcome QuarantineInfo × W)
    → Type 0
QuarantinesIfDone view path w none = Unit {0}
QuarantinesIfDone view path w (some out) = Quarantines view path w out

module _ {W : Type 0} (os : System W) (view : W → FilePath → Option Bytes) (sys : IsSystem os view)
    (config : StoreConfig) where
  sync_quarantine_namespace-view :
      (i : QuarantineInfo) (w : W) → view (sync_quarantine_namespace os config i w).1 ≡ view w
  unfolding sync_quarantine_namespace
  sync_quarantine_namespace-view i w = ground (
    arith,
    sys.open_dir-view config.namespace w,
    sys.sync_all-view config.namespace (os.open_dir config.namespace w).1,
  )

  random_identifier-view : (w : W) → view (random_identifier os w).1 ≡ view w
  unfolding random_identifier
  random_identifier-view w = sys.random-view w

  failed :
      (path : FilePath) (w w' : W) (e : StoreError)
      → view w' ≡ view w
      → Quarantines view path w (err e, w')
  failed path w w' e same = inl (same, (λ i h. absurd (ground arith)))

  moved :
      (path : FilePath) (i : QuarantineInfo) (w w1 w2 : W)
      → view w1 ≡ view w
      → MovedTo view path w1 w2 i.diagnostic_path
      → Quarantines view path w
          (and_then (sync_quarantine_namespace os config i w2) (λ _ w3. (ok i, w3)))
  moved path i w w1 w2 same (free, there, gone, others) =
      go (sync_quarantine_namespace os config i w2).0 (sync_quarantine_namespace os config i w2).1
        (sync_quarantine_namespace-view i w2)
    where
      arrived : (w3 : W) → view w3 ≡ view w2 → MovedTo view path w w3 i.diagnostic_path
      arrived w3 e = (
        sym (ap (λ v. v i.diagnostic_path) same) ∙ free,
        ap (λ v. v i.diagnostic_path) e ∙ there ∙ ap (λ v. v path) same,
        ap (λ v. v path) e ∙ gone,
        (λ q a b. ap (λ v. v q) e ∙ others q a b ∙ ap (λ v. v q) same),
      )

      go :
          (r : Outcome (Unit {0})) (w3 : W)
          → view w3 ≡ view w2
          → Quarantines view path w (and_then {W = W} (r, w3) (λ _ w4. (ok i, w4)))
      go (ok u) w3 e = inr (i.diagnostic_path, arrived w3 e, (λ j h. ground arith))
      go (err x) w3 e = inr (i.diagnostic_path, arrived w3 e, (λ j h. absurd (ground arith)))

  missing :
      (path : FilePath) (w w2 : W)
      → view w2 ≡ view w
      → Quarantines view path w (
          and_then
            (ensure_namespace_available os config w2)
            (λ _ w3. (err StoreError.quarantine_source_missing, w3)))
  missing path w w2 same =
      go (ensure_namespace_available os config w2).0 (ensure_namespace_available os config w2).1
        (ensure_namespace_available-view os view sys config w2)
    where
      go :
          (r : Outcome (Unit {0})) (w3 : W)
          → view w3 ≡ view w2
          → Quarantines view path w
              (and_then {W = W} (r, w3) (λ _ w4. (err StoreError.quarantine_source_missing, w4)))
      go (ok u) w3 e = failed path w w3 _ (e ∙ same)
      go (err x) w3 e = failed path w w3 x (e ∙ same)

  renamed :
      (path : FilePath) (i : QuarantineInfo) (w w1 : W)
      → view w1 ≡ view w
      → (os.rename_noreplace path i.diagnostic_path w1).0 ≡ ok tt
      → Quarantines view path w (
          and_then
            (sync_quarantine_namespace os config i
              (os.rename_noreplace path i.diagnostic_path w1).1)
            (λ _ w3. (ok i, w3)))
  renamed path i w w1 same h =
      let d = i.diagnostic_path in
      let (free, there, gone) = sys.rename-ok path d w1 h in
      moved path i w w1 (os.rename_noreplace path d w1).1 same
        (free, there, gone, (λ q a b. sys.rename-other path d q w1 a b))

  -- One attempt, where the others are known.
  quarantine_step :
      (hash : Bytes) (path : FilePath) (w0 : W) (attempts : ℕ) (w : W)
      → view w ≡ view w0
      → ((w' : W)
          → view w' ≡ view w0
          → QuarantinesIfDone view path w0 (quarantine_as os config hash path attempts w'))
      → QuarantinesIfDone view path w0 (quarantine_as os config hash path (suc attempts) w)
  unfolding quarantine_as
  quarantine_step hash path w0 attempts w same next = go (random_identifier os w).0 refl
    where
      w1 : W
      w1 = (random_identifier os w).1

      same1 : view w1 ≡ view w0
      same1 = random_identifier-view w ∙ same

      renaming :
          (identifier : Bytes) (r : Result (Unit {0}) RenameError)
          → (random_identifier os w).0 ≡ ok identifier
          → (os.rename_noreplace path
              (config.namespace
                ++ (quarantine_name hash config.format.filename_suffix identifier ∷ []))
              w1).0
            ≡ r
          → QuarantinesIfDone view path w0 (quarantine_as os config hash path (suc attempts) w)
      renaming identifier (ok u) g h =
          rw (g, h, quarantine_as)
            (renamed path
              (record {
                identifier = identifier;
                diagnostic_path =
                    config.namespace
                    ++ (quarantine_name hash config.format.filename_suffix identifier ∷ []);
              })
              w0 w1 same1 h)
      renaming identifier (err noent) g h =
          rw (g, h, quarantine_as) (missing path w0 _ (sys.rename-err path _ w1 noent h ∙ same1))
      renaming identifier (err exist) g h =
          rw (g, h, quarantine_as) (next _ (sys.rename-err path _ w1 exist h ∙ same1))
      renaming identifier (err (errno n)) g h =
          rw (g, h, quarantine_as)
            (failed path w0 _ _ (sys.rename-err path _ w1 (errno n) h ∙ same1))

      go :
          (r : Outcome Bytes)
          → (random_identifier os w).0 ≡ r
          → QuarantinesIfDone view path w0 (quarantine_as os config hash path (suc attempts) w)
      go (err e) g = rw (g, quarantine_as) (failed path w0 w1 e same1)
      go (ok identifier) g = renaming identifier _ g refl

  quarantine_as-Quarantines :
      (hash : Bytes) (path : FilePath) (w0 : W) (attempts : ℕ) (w : W)
      → view w ≡ view w0
      → QuarantinesIfDone view path w0 (quarantine_as os config hash path attempts w)
  unfolding quarantine_as
  quarantine_as-Quarantines hash path w0 zero w same = tt
  quarantine_as-Quarantines hash path w0 (suc attempts) w same =
      quarantine_step hash path w0 attempts w same (quarantine_as-Quarantines hash path w0 attempts)

  abbrev is_exist : Result (Unit {0}) RenameError → Bool
  is_exist (err exist) = true
  is_exist r = false

  -- Whether an attempt meets a name that is in use, and the state behind it.
  abbrev collides : Bytes → FilePath → W → Bool × W
  collides hash path w =
      let (generated, w1) = random_identifier os w in
      elim generated [
        | err e ↦ (false, w1)
        | ok identifier ↦
            let (r, w2) =
              os.rename_noreplace path
                (config.namespace
                  ++ (quarantine_name hash config.format.filename_suffix identifier ∷ []))
                w1 in
            (is_exist r, w2)
      ]

  -- Not all of so many attempts meet a name that is in use.
  abbrev pub FreshWithin : Bytes → FilePath → ℕ → W → Type 0
  FreshWithin hash path zero w = ⊥
  FreshWithin hash path (suc n) w =
      ((collides hash path w).0 ≡ false) ⊎ FreshWithin hash path n (collides hash path w).1

  quarantine_as-ends :
      (hash : Bytes) (path : FilePath) (attempts : ℕ) (w : W)
      → FreshWithin hash path attempts w
      → quarantine_as os config hash path attempts w ≢ none
  unfolding quarantine_as
  quarantine_as-ends hash path zero w h = absurd h
  quarantine_as-ends hash path (suc n) w h =
      let ih = quarantine_as-ends hash path n (collides hash path w).1 in ground arith

  -- On a lawful system, a quarantine that meets a free name within its attempts ends, and nothing
  -- is lost and nothing overwritten: either all files are as before and there is an error, or the
  -- blob, unchanged, stands under a name that was free, and under no other, and a success reports
  -- that name.
  pub quarantine_blob-Quarantines :
      (path : FilePath) (name : Bytes) (attempts : ℕ) (w : W)
      → file_name path ≡ some name
      → FreshWithin (stem name) path attempts w
      → (out : Outcome QuarantineInfo × W) × (quarantine_blob os config path attempts w ≡ some out)
        × Quarantines view path w out
  unfolding quarantine_blob
  quarantine_blob-Quarantines path name attempts w named fresh =
      elim (Option-cases (quarantine_as os config (stem name) path attempts w)) [
        | inl e ↦ absurd (quarantine_as-ends (stem name) path attempts w fresh e)
        | inr (out, e) ↦ (
          out,
          rw (named, quarantine_blob) e,
          subst (QuarantinesIfDone view path w) e
              (quarantine_as-Quarantines (stem name) path w attempts w refl),
        )
      ]
