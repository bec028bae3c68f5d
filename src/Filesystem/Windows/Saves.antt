-- ===== src/Filesystem/Windows/Saves.antt =====
-- src/filesystem/mod.rs on Windows: save_blob and save_blob_from_receiver.
use atomic_blob_storage.Base.{
  ℕ, zero, suc, ◌<◌, ◌≡◌, ◌≢◌, refl, sym, subst, ◌⊎◌, Bool, false, List, [], ◌∷◌, length, Option,
  none, some, arith,
}
use atomic_blob_storage.Error.{Bytes, FilePath, ok, err, Outcome}
use atomic_blob_storage.Config.{StoreConfig, u64_limit}
use atomic_blob_storage.Format.Crc.{Crc32c, IsCrc32c}
use atomic_blob_storage.Format.Encode.{envelope_parts}
use atomic_blob_storage.Filesystem.System.{System}
use atomic_blob_storage.Filesystem.Names.{save_kind, stem, file_name}
use atomic_blob_storage.Filesystem.Unix.{write_sections, random_identifier}
use atomic_blob_storage.Filesystem.Contents.Envelopes.{IsEnvelope, three_sections, parts-layout}
use atomic_blob_storage.Filesystem.Windows.{WindowsSystem}
use atomic_blob_storage.Filesystem.Windows.Calls.{create_windows_staging}
use atomic_blob_storage.Filesystem.Windows.Operations.{staging_path, is_taken, save_as, save_blob}
use atomic_blob_storage.Filesystem.Windows.Api.{IsWindows}
use atomic_blob_storage.Filesystem.Windows.Commit.{
  staging, Apart, Replaces, ReplacesIfDone, unmoved,
}
use atomic_blob_storage.Filesystem.Windows.Saved.{create_staging-Staged, save_as-Replaces}

module _ {W : Type 0} (std : System W) (create : FilePath → W → Outcome (Unit {0}) × W)
    (config : StoreConfig) (hash : Bytes) where
  abbrev taken_by : Outcome (Unit {0}) → Bool
  taken_by (ok u) = false
  taken_by (err e) = is_taken e

  -- Whether an attempt meets a staging name that is in use, and the state behind it.
  abbrev collides : W → Bool × W
  collides w =
      let (generated, w1) = random_identifier std w in
      elim generated [
        | err e ↦ (false, w1)
        | ok identifier ↦
            let (created, w2) = create (staging_path config hash save_kind identifier) w1 in
            (taken_by created, w2)
      ]

  -- Not all of so many attempts meet a name that is in use.
  abbrev pub FreshWithin : ℕ → W → Type 0
  FreshWithin zero w = ⊥
  FreshWithin (suc n) w = ((collides w).0 ≡ false) ⊎ FreshWithin n (collides w).1

  save_as-ends :
      (api : WindowsSystem W) (give_up : FilePath → W → W) (path : FilePath) (attempts : ℕ) (w : W)
      → FreshWithin attempts w
      → save_as std api config create give_up hash path attempts w ≢ none
  unfolding save_as
  save_as-ends api give_up path zero w h = absurd h
  save_as-ends api give_up path (suc n) w h =
      let ih = save_as-ends api give_up path n (collides w).1 in ground arith

module _ {W : Type 0} (std : System W) (api : WindowsSystem W) (view : W → List ℕ → Option Bytes)
    (sys : IsWindows std api view) (c : Crc32c) (laws : IsCrc32c c) (config : StoreConfig) where
  -- The loop ends, and what it leaves is a replacement.
  ended :
      (New : Bytes → Type 0) (hash : Bytes) (path : FilePath) (w : W)
      (out : Option (Outcome (Unit {0}) × W))
      → out ≢ none
      → ReplacesIfDone std api view sys config hash path New w out
      → (res : Outcome (Unit {0}) × W) × (out ≡ some res)
        × Replaces std api view sys config hash path New w res
  ended New hash path w none some_out replaces = absurd (some_out refl)
  ended New hash path w (some res) some_out replaces = (res, refl, replaces)

  -- On a lawful Windows, where the blob's path is none of its staging paths, a save of a payload
  -- shorter than 2^64 that meets a free staging name within its attempts ends, and leaves the old
  -- blob, or the envelope of exactly that payload, which is then within the maximum; the latter
  -- where it succeeds; and it changes no other file but staging files of the key.
  pub save_blob-ReplacesStaged :
      (path : FilePath) (name payload : Bytes) (attempts : ℕ) (w : W)
      → file_name path ≡ some name
      → length payload < u64_limit
      → Apart std api view sys config (stem name) path
      → ((a s : Bytes)
          → envelope_parts c config.format payload config.maximum ≡ ok (a, s)
          → FreshWithin std
              (λ staging. create_windows_staging api c staging a payload s)
              config
              (stem name)
              attempts
              w)
      → (out : Outcome (Unit {0}) × W) × (save_blob std api config c path payload attempts w
          ≡ some out)
        × Replaces std api view sys config (stem name) path (IsEnvelope c config payload) w out
  unfolding save_blob create_windows_staging
  save_blob-ReplacesStaged path name payload attempts w named small apart fresh =
      go (envelope_parts c config.format payload config.maximum) refl
    where
      New : Bytes → Type 0
      New = IsEnvelope c config payload

      go :
          (r : Outcome (Bytes × Bytes))
          → envelope_parts c config.format payload config.maximum ≡ r
          → (out : Outcome (Unit {0}) × W) × (save_blob std api config c path payload attempts w
              ≡ some out)
            × Replaces std api view sys config (stem name) path New w out
      go (err e) h = (
        (err e, w),
        rw (h, save_blob) refl,
        unmoved std api view sys config (stem name) path New w w e apart (λ u b. refl),
      )
      go (ok (a, s)) h =
          rw (h, named, save_blob)
            (ended New (stem name) path w _
              (save_as-ends std (λ staging. create_windows_staging api c staging a payload s) config
                (stem name) api (λ staging w'. w') path attempts w (fresh a s h))
              (save_as-Replaces std api view sys config (stem name) path New _ _ apart
                (λ i w0 w1 same.
                  create_staging-Staged std api view sys config (stem name) path New i
                    (write_sections c (a ∷ payload ∷ s ∷ [])) w0 w1
                    (λ x empty good.
                      subst New (sym (three_sections c laws config a payload s x empty good))
                        (parts-layout c laws config payload a s small h))
                    same)
                (λ i w0 w1 same. same) w attempts w (λ u b. refl)))
