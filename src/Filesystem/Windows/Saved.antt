-- ===== src/Filesystem/Windows/Saved.antt =====
-- src/filesystem/mod.rs on Windows: a save replaces a blob as a whole.
use atomic_blob_storage.Base.{
  ℕ, zero, suc, ◌≡◌, refl, ap, ◌∙◌, inl, inr, List, [], Option, none, some, ◌==◌, arith, Bool-cases,
  if_cases, if◌then◌else◌,
}
use atomic_blob_storage.Error.{Bytes, FilePath, StoreOperation, io, ok, err, Outcome}
use atomic_blob_storage.Config.{StoreConfig}
use atomic_blob_storage.Stream.{Writer}
use atomic_blob_storage.Filesystem.System.{System}
use atomic_blob_storage.Filesystem.Names.{save_kind}
use atomic_blob_storage.Filesystem.Unix.{random_identifier}
use atomic_blob_storage.Filesystem.Windows.{WindowsSystem}
use atomic_blob_storage.Filesystem.Windows.Calls.{wide, create_staging}
use atomic_blob_storage.Filesystem.Windows.Operations.{staging_path, is_taken, save_as}
use atomic_blob_storage.Filesystem.Windows.Api.{IsWindows}
use atomic_blob_storage.Filesystem.Windows.Views.{drawn-view}
use atomic_blob_storage.Filesystem.Windows.Commit.{
  staging, Apart, Stages, ReplacesIfDone, unmoved, commit_staging-Replaces,
}

module _ {W : Type 0} (std : System W) (api : WindowsSystem W) (view : W → List ℕ → Option Bytes)
    (sys : IsWindows std api view) (config : StoreConfig) (hash : Bytes) (path : FilePath) where
  -- Only staging files have changed, and where the result is a success, this one is new.
  abbrev pub Staged : (Bytes → Type 0) → W → Bytes → Outcome (Unit {0}) × W → Type 0
  Staged New w0 i out =
      Stages std api view sys config hash path w0 out.1
      × (out.0 ≡ ok tt
          → (bs : Bytes) × New bs
            × (view out.1 (staging std api view sys config hash path i) ≡ some bs))

  pub create_staging-Staged :
      (New : Bytes → Type 0) (i : Bytes) (write : Writer → Outcome (Unit {0}) × Writer) (w0 w : W)
      → ((x : Writer) → x.written ≡ [] → (write x).0 ≡ ok tt → New (write x).1.written)
      → Stages std api view sys config hash path w0 w
      → Staged New w0 i (create_staging api (staging_path config hash save_kind i) write w)
  create_staging-Staged New i write w0 w writes same = go (api.create_new s w).0 refl
    where
      s : List ℕ
      s = wide api (staging_path config hash save_kind i)

      w1 : W
      w1 = (api.create_new s w).1

      same1 : Stages std api view sys config hash path w0 w1
      same1 u b = sys.create_new-other s u w (b i) ∙ same u b

      written :
          (x : Writer) (r : Outcome (Unit {0}))
          → (write x).0 ≡ r
          → x.written ≡ []
          → let w2 = api.write_back s (write x).1.written w1 in
            let (code, w3) = api.flush_file_buffers s w2 in
            Staged New w0 i (elim r [
              | err e ↦ (err e, w2)
              | ok _ ↦
                  if code == 0
                  then (err (io StoreOperation.write_envelope (api.last_os_error w3)), w3)
                  else (ok tt, w3)
            ])
      written x (err e) h empty = (
        (λ u b. sys.write_back-other s u (write x).1.written w1 (b i) ∙ same1 u b),
        (λ good. absurd (ground arith)),
      )
      written x (ok u) h empty =
          let bs = (write x).1.written in
          let w2 = api.write_back s bs w1 in
          let (code, w3) = api.flush_file_buffers s w2 in
          let flushed : view w3 ≡ view w2 = sys.flush-view s w2 in
          let same3 : Stages std api view sys config hash path w0 w3 =
            λ u b. ap (λ v. v u) flushed ∙ (sys.write_back-other s u bs w1 (b i) ∙ same1 u b) in
          if_cases (Staged New w0 i) (code == 0) _ _
            (λ failed. (same3, (λ good. absurd (ground arith))))
            (λ done. (
              same3,
              (λ good. (bs, writes x empty h, ap (λ v. v s) flushed ∙ sys.write_back-same s bs w1)),
            ))

      go :
          (r : Option Writer)
          → (api.create_new s w).0 ≡ r
          → Staged New w0 i (create_staging api (staging_path config hash save_kind i) write w)
      go none h = rw (h, create_staging) (same1, (λ good. absurd (ground arith)))
      go (some x) h =
          rw (h, create_staging) (written x (write x).0 refl (sys.create_new-ok s w x h).1)

  -- A loop of a save over the ways to make a staging file and to give it up.
  module _ (New : Bytes → Type 0) (create : FilePath → W → Outcome (Unit {0}) × W)
      (give_up : FilePath → W → W) (apart : Apart std api view sys config hash path)
      (creates : (i : Bytes) (w0 w : W)
        → Stages std api view sys config hash path w0 w
        → Staged New w0 i (create (staging_path config hash save_kind i) w))
      (gives_up : (i : Bytes) (w0 w : W)
        → Stages std api view sys config hash path w0 w
        → Stages std api view sys config hash path w0
            (give_up (staging_path config hash save_kind i) w)) where
    -- One attempt, where the others are known.
    save_step :
        (w0 : W) (attempts : ℕ) (w : W)
        → Stages std api view sys config hash path w0 w
        → ((w' : W)
            → Stages std api view sys config hash path w0 w'
            → ReplacesIfDone std api view sys config hash path New w0
                (save_as std api config create give_up hash path attempts w'))
        → ReplacesIfDone std api view sys config hash path New w0
            (save_as std api config create give_up hash path (suc attempts) w)
    unfolding save_as
    save_step w0 attempts w same next = go (random_identifier std w).0 refl
      where
        w1 : W
        w1 = (random_identifier std w).1

        same1 : Stages std api view sys config hash path w0 w1
        same1 u b = ap (λ v. v u) (drawn-view std api view sys config w) ∙ same u b

        Goal : Type 0
        Goal =
            ReplacesIfDone std api view sys config hash path New w0
              (save_as std api config create give_up hash path (suc attempts) w)

        creating :
            (i : Bytes) (r : Outcome (Unit {0}))
            → (random_identifier std w).0 ≡ ok i
            → (create (staging_path config hash save_kind i) w1).0 ≡ r
            → Goal
        creating i (ok u) g h =
            let (same2, new) = creates i w0 w1 same1 in
            let (bs, good, held) = new h in
            rw (g, h, save_as)
              (commit_staging-Replaces std api view sys config hash path New i bs w0 _ apart same2
                good held)
        creating i (err e) g h = elim (Bool-cases (is_taken e)) [
          | inl taken ↦ rw (g, h, taken, save_as) (next _ (creates i w0 w1 same1).0)
          | inr other ↦
              rw (g, h, other, save_as)
                (unmoved std api view sys config hash path New w0 _ e apart
                  (gives_up i w0 _ (creates i w0 w1 same1).0))
        ]

        go : (r : Outcome Bytes) → (random_identifier std w).0 ≡ r → Goal
        go (err e) g =
            rw (g, save_as) (unmoved std api view sys config hash path New w0 w1 e apart same1)
        go (ok i) g = creating i _ g refl

    pub save_as-Replaces :
        (w0 : W) (attempts : ℕ) (w : W)
        → Stages std api view sys config hash path w0 w
        → ReplacesIfDone std api view sys config hash path New w0
            (save_as std api config create give_up hash path attempts w)
    unfolding save_as
    save_as-Replaces w0 zero w same = tt
    save_as-Replaces w0 (suc attempts) w same =
        save_step w0 attempts w same (save_as-Replaces w0 attempts)
