-- ===== src/Engine/Open/Roots.antt =====
-- src/filesystem/mod.rs: what initialize_platform has found where it succeeds, on each platform.
use atomic_blob_storage.Base.{ℕ, ◌≡◌, refl, ◌⊎◌, inl, inr, Bool, true, false, ◌++◌, arith}
use atomic_blob_storage.Error.{
  FilePath, IoError, Result, ok, err, Outcome, StoreOperation, io, map_ok, map_err,
}
use atomic_blob_storage.Config.{BlobFormatIdentity, StoreConfig}
use atomic_blob_storage.Filesystem.System.{System, Metadata}
use atomic_blob_storage.Filesystem.Unix
use atomic_blob_storage.Filesystem.Unix.{and_then, absolute, check_root}
use atomic_blob_storage.Filesystem.Windows.{WindowsSystem}
use atomic_blob_storage.Filesystem.Windows.Initialize
use atomic_blob_storage.Filesystem.Windows.Initialize.{normalized}
use atomic_blob_storage.Filesystem.Platform.{Platform, unix, windows, std_of, initialize_on}

pub and_then-ok :
    {A B W : Type 0} (r : Outcome A × W) (next : A → W → Outcome B × W) (b : B)
    → (and_then r next).0 ≡ ok b
    → (a : A) × (r.0 ≡ ok a) × ((next a r.1).0 ≡ ok b)
and_then-ok (ok a, w) next b h = (a, refl, h)
and_then-ok (err e, w) next b h = absurd (ground arith)

Result-cases : {A E : Type 0} (r : Result A E) → ((a : A) × (r ≡ ok a)) ⊎ ((e : E) × (r ≡ err e))
Result-cases (ok a) = inl (a, refl)
Result-cases (err e) = inr (e, refl)

abbrev pub configure : FilePath → FilePath → BlobFormatIdentity → ℕ → ℕ → StoreConfig
configure base component format maximum slots = record {
  namespace = base ++ component;
  format = format;
  maximum = maximum;
  max_concurrent_operations = slots;
}

module _ {W : Type 0} (os : System W) where
  -- The root that is used on Unix, and the state in which it is looked at: the given one, or below the
  -- current directory.
  abbrev pub ResolvesOnUnix : FilePath → Bool → FilePath → W → W → Type 0
  ResolvesOnUnix root relative base w w1 =
      ((relative ≡ false) × (base ≡ root) × (w1 ≡ w))
      ⊎ ((relative ≡ true)
          × ((current : FilePath) × ((os.current_dir w).0 ≡ ok current)
              × (base ≡ current ++ root)
              × (w1 ≡ (os.current_dir w).1)))

  absolute-ResolvesOnUnix :
      (root : FilePath) (relative : Bool) (base : FilePath) (w : W)
      → (absolute os root relative w).0 ≡ ok base
      → ResolvesOnUnix root relative base w (absolute os root relative w).1
  absolute-ResolvesOnUnix root false base w h = inl (refl, ground arith, refl)
  absolute-ResolvesOnUnix root true base w h = go (os.current_dir w).0 refl h
    where
      go :
          (r : Result FilePath IoError)
          → (os.current_dir w).0 ≡ r
          → map_ok
              (λ current. current ++ root)
              (map_err (io StoreOperation.resolve_current_directory) r)
            ≡ ok base
          → ResolvesOnUnix root true base w (os.current_dir w).1
      go (ok current) e h = inr (refl, (current, e, ground arith, refl))
      go (err e') e h = absurd (ground arith)

  check_root-ok :
      (base : FilePath) (u : Unit {0}) (w : W)
      → (check_root os base w).0 ≡ ok u
      → (m : Metadata) × ((os.metadata base w).0 ≡ ok m) × (m.is_dir ≡ true)
  check_root-ok base u w h = elim (Result-cases (os.metadata base w).0) [
    | inl (m, e) ↦ (m, e, ground arith)
    | inr (e', e) ↦ absurd (ground arith)
  ]

  -- Where Unix is initialized, the root is a directory.
  unix-ok :
      (root : FilePath) (relative : Bool) (component : FilePath) (format : BlobFormatIdentity)
      (maximum slots : ℕ) (w : W) (config : StoreConfig)
      → (Unix.initialize_platform os root relative component format maximum slots w).0 ≡ ok config
      → (base : FilePath) × (m : Metadata) × (w1 : W) × ResolvesOnUnix root relative base w w1
        × ((os.metadata base w1).0 ≡ ok m)
        × (m.is_dir ≡ true)
        × (config ≡ configure base component format maximum slots)
  unfolding Unix.initialize_platform
  unix-ok root relative component format maximum slots w config h =
      let made : FilePath → Unit {0} → W → Outcome StoreConfig × W = λ base u w2.
        and_then (Unix.create_namespace os base (base ++ component) w2)
          (λ v w3. (ok (configure base component format maximum slots), w3)) in
      let checked : FilePath → W → Outcome StoreConfig × W =
        λ base w1. and_then (check_root os base w1) (made base) in
      let start = absolute os root relative w in
      let (base, found, h1) = and_then-ok start checked config h in
      let (u, is_root, h2) = and_then-ok (check_root os base start.1) (made base) config h1 in
      let w2 = (check_root os base start.1).1 in
      let (v, created, h3) =
        and_then-ok (Unix.create_namespace os base (base ++ component) w2)
          (λ v w3. (ok (configure base component format maximum slots), w3)) config h2 in
      let (m, seen, is_dir) = check_root-ok base u start.1 is_root in
      (
        base,
        m,
        start.1,
        absolute-ResolvesOnUnix root relative base w found,
        seen,
        is_dir,
        ground arith,
      )

module _ {W : Type 0} (std : System W) (api : WindowsSystem W) where
  normalized-ok :
      (root base : FilePath) (w : W)
      → (normalized std api root w).0 ≡ ok base
      → api.absolute root w ≡ (ok base, (normalized std api root w).1)
  normalized-ok root base w h = elim (Result-cases (api.absolute root w).0) [
    | inl (found, e) ↦ ground arith
    | inr (e', e) ↦ absurd (ground arith)
  ]

  -- Where Windows is initialized, the normalized root is a directory.
  windows-ok :
      (root component : FilePath) (format : BlobFormatIdentity) (maximum slots : ℕ) (w : W)
      (config : StoreConfig)
      → (Initialize.initialize_platform std api root component format maximum slots w).0 ≡ ok config
      → (base : FilePath) × (m : Metadata) × (w1 : W) × (api.absolute root w ≡ (ok base, w1))
        × ((std.metadata base w1).0 ≡ ok m)
        × (m.is_dir ≡ true)
        × (config ≡ configure base component format maximum slots)
  unfolding Initialize.initialize_platform
  windows-ok root component format maximum slots w config h =
      let made : FilePath → Unit {0} → W → Outcome StoreConfig × W = λ base u w2.
        and_then (Initialize.create_namespace std api (base ++ component) w2)
          (λ v w3. (ok (configure base component format maximum slots), w3)) in
      let checked : FilePath → W → Outcome StoreConfig × W =
        λ base w1. and_then (check_root std base w1) (made base) in
      let start = normalized std api root w in
      let (base, found, h1) = and_then-ok start checked config h in
      let (u, is_root, h2) = and_then-ok (check_root std base start.1) (made base) config h1 in
      let w2 = (check_root std base start.1).1 in
      let (v, created, h3) =
        and_then-ok (Initialize.create_namespace std api (base ++ component) w2)
          (λ v w3. (ok (configure base component format maximum slots), w3)) config h2 in
      let (m, seen, is_dir) = check_root-ok std base u start.1 is_root in
      (base, m, start.1, normalized-ok root base w found, seen, is_dir, ground arith)

-- The root that is used: on Windows it is the one that std::path::absolute gives.
abbrev pub Resolves : {W : Type 0} → Platform W → FilePath → Bool → FilePath → W → W → Type 0
Resolves (unix os) root relative base w w1 = ResolvesOnUnix os root relative base w w1
Resolves (windows std api) root relative base w w1 = api.absolute root w ≡ (ok base, w1)

pub initialize_on-ok :
    {W : Type 0} (platform : Platform W) (root : FilePath) (relative : Bool) (component : FilePath)
    (format : BlobFormatIdentity) (maximum slots : ℕ) (w : W) (config : StoreConfig)
    → (initialize_on platform root relative component format maximum slots w).0 ≡ ok config
    → (base : FilePath) × (m : Metadata) × (w1 : W) × Resolves platform root relative base w w1
      × (((std_of platform).metadata base w1).0 ≡ ok m)
      × (m.is_dir ≡ true)
      × (config ≡ configure base component format maximum slots)
initialize_on-ok (unix os) root relative component format maximum slots w config h =
    unix-ok os root relative component format maximum slots w config h
initialize_on-ok (windows std api) root relative component format maximum slots w config h =
    windows-ok std api root component format maximum slots w config h
