-- ===== src/Filesystem/Contents/Saved.antt =====
-- src/filesystem/mod.rs: save_blob and save_blob_from_receiver replace a blob as a whole; and
-- src/format.rs: load_blob afterwards.
use atomic_blob_storage.Base.{
  ℕ, ◌+◌, ◌-◌, ◌<◌, ◌≡◌, ◌≢◌, refl, ap, sym, subst, ◌∙◌, ◌⊎◌, inl, inr, List, [], ◌∷◌, length,
  Option, some, arith,
}
use atomic_blob_storage.Error.{
  Bytes, FilePath, IoError, StoreError, Result, ok, err, Outcome, map_err, map_ok,
}
use atomic_blob_storage.Config.{StoreConfig, u64_limit}
use atomic_blob_storage.Config.Laws.{IsValid}
use atomic_blob_storage.Stream.{Reader, Writer}
use atomic_blob_storage.Stream.Laws.{content, IsClean}
use atomic_blob_storage.Format.Crc.{Crc32c, IsCrc32c}
use atomic_blob_storage.Format.Encode.{
  SaveStreamMessage, envelope_header, envelope_parts, write_stream_envelope,
}
use atomic_blob_storage.Format.Decode.{decode_reader}
use atomic_blob_storage.Format.Layout.{layout}
use atomic_blob_storage.Format.Accepts.{decode-layout}
use atomic_blob_storage.Format.Streamed.{write_stream_envelope-ok}
use atomic_blob_storage.Filesystem.System.{System, IsSystem}
use atomic_blob_storage.Filesystem.Unix.{
  write_sections, write_atomically, save_blob, save_blob_from_receiver,
}
use atomic_blob_storage.Filesystem.Contents.Envelopes.{
  IsEnvelope, IsStreamed, three_sections, parts-layout,
}
use atomic_blob_storage.Filesystem.Load.{open_blob, load_blob}

-- Between two states the file at `path` is replaced by new contents, or nothing has changed: all other
-- files are as before, the file itself is old or new, and it is new where the result is a success.
abbrev pub Replaces :
    {W : Type 0}
    → (W → FilePath → Option Bytes)
    → FilePath
    → (Bytes → Type 0)
    → W
    → Outcome (Unit {0}) × W
    → Type 0
Replaces view path New w (result, w') =
    ((q : FilePath) → q ≢ path → view w' q ≡ view w q)
    × ((view w' path ≡ view w path) ⊎ ((bs : Bytes) × (view w' path ≡ some bs) × New bs))
    × (result ≡ ok tt → (bs : Bytes) × (view w' path ≡ some bs) × New bs)

module _ {W : Type 0} (os : System W) (view : W → FilePath → Option Bytes)
    (sys : IsSystem os view) where
  unchanged :
      (path : FilePath) (New : Bytes → Type 0) (w w' : W) (e : StoreError)
      → view w' ≡ view w
      → Replaces view path New w (err e, w')
  unchanged path New w w' e same =
      ((λ q other. ap (λ v. v q) same), inl (ap (λ v. v path) same), (λ h. absurd (ground arith)))

  committed :
      (path : FilePath) (New : Bytes → Type 0) (bs : Bytes) (w w1 : W)
      → view w1 ≡ view w
      → New bs
      → Replaces view path New w
          (map_err StoreError.atomic_commit (os.commit path bs w1).0, (os.commit path bs w1).1)
  committed path New bs w w1 same new = (
    (λ q other. sys.commit-other path q bs w1 other ∙ ap (λ v. v q) same),
    (elim (sys.commit-old_or_new path bs w1) [
      | inl old ↦ inl (old ∙ ap (λ v. v path) same)
      | inr now ↦ inr (bs, now, new)
    ]),
    (λ h. (bs, sys.commit-ok path bs w1 (map_err-ok _ h), new)),
  )
    where
      map_err-ok :
          (r : Result (Unit {0}) IoError)
          → ◌≡◌ {A = Outcome (Unit {0})} (map_err StoreError.atomic_commit r) (ok tt)
          → r ≡ ok tt
      map_err-ok (ok u) h = refl
      map_err-ok (err e) h = absurd (ground arith)

  write_atomically-Replaces :
      (path : FilePath) (New : Bytes → Type 0) (write : Writer → Outcome (Unit {0}) × Writer)
      (w : W)
      → ((x : Writer) → x.written ≡ [] → (write x).0 ≡ ok tt → New (write x).1.written)
      → Replaces view path New w (write_atomically os path write w)
  write_atomically-Replaces path New write w writes = go (os.atomic_open path w).0 refl
    where
      finish :
          (x : Writer) (r : Outcome (Unit {0}))
          → x.written ≡ []
          → (write x).0 ≡ r
          → Replaces view path New w (elim r [
            | err e ↦ (err e, (os.atomic_open path w).1)
            | ok _ ↦ (
              map_err StoreError.atomic_commit
                  (os.commit path (write x).1.written (os.atomic_open path w).1).0,
              (os.commit path (write x).1.written (os.atomic_open path w).1).1,
            )
          ])
      finish x (err e) empty h = unchanged path New w _ e (sys.atomic_open-view path w)
      finish x (ok u) empty h =
          committed path New (write x).1.written w _ (sys.atomic_open-view path w)
            (writes x empty h)

      go :
          (r : Result Writer IoError)
          → (os.atomic_open path w).0 ≡ r
          → Replaces view path New w (write_atomically os path write w)
      go (err e) h =
          rw (h, write_atomically) (unchanged path New w _ _ (sys.atomic_open-view path w))
      go (ok x) h =
          rw (h, write_atomically) (finish x (write x).0 (sys.atomic_open-empty path w x h) refl)

  module _ (c : Crc32c) (laws : IsCrc32c c) (config : StoreConfig) where
    -- On a lawful system, a save of a payload shorter than 2^64 leaves the old blob, or the
    -- envelope of exactly that payload, which is then within the maximum; the latter where it
    -- succeeds; and it changes no other file.
    pub save_blob-Replaces :
        (path : FilePath) (p : Bytes) (w : W)
        → length p < u64_limit
        → Replaces view path (IsEnvelope c config p) w (save_blob os c config path p w)
    unfolding save_blob
    save_blob-Replaces path p w small = go (envelope_parts c config.format p config.maximum) refl
      where
        go :
            (r : Outcome (Bytes × Bytes))
            → envelope_parts c config.format p config.maximum ≡ r
            → Replaces view path (IsEnvelope c config p) w (save_blob os c config path p w)
        go (err e) h = rw (h, save_blob) (unchanged path (IsEnvelope c config p) w w e refl)
        go (ok (a, s)) h =
            rw (h, save_blob)
              (write_atomically-Replaces path (IsEnvelope c config p)
                (write_sections c (a ∷ p ∷ s ∷ [])) w
                (λ x empty good.
                  subst (IsEnvelope c config p)
                    (sym (three_sections c laws config a p s x empty good))
                    (parts-layout c laws config p a s small h)))

    -- On a lawful system, a streamed save leaves the old blob, or the envelope of exactly what was
    -- streamed before the end marker, which has the declared length and is within the maximum; the
    -- latter where it succeeds; and it changes no other file.
    pub save_blob_from_receiver-Replaces :
        (path : FilePath) (declared : ℕ) (chunks : List SaveStreamMessage) (w : W)
        → Replaces view path
            (IsStreamed c config chunks declared)
            w
            (save_blob_from_receiver os c config path declared chunks w)
    unfolding save_blob_from_receiver
    save_blob_from_receiver-Replaces path declared chunks w =
        go (envelope_header config.format declared config.maximum) refl
      where
        go :
            (r : Outcome Bytes)
            → envelope_header config.format declared config.maximum ≡ r
            → Replaces view path
                (IsStreamed c config chunks declared)
                w
                (save_blob_from_receiver os c config path declared chunks w)
        go (err e) h =
            rw (h, save_blob_from_receiver)
              (unchanged path (IsStreamed c config chunks declared) w w e refl)
        go (ok header) h =
            rw (h, save_blob_from_receiver)
              (write_atomically-Replaces path (IsStreamed c config chunks declared)
                (λ x. write_stream_envelope c config.format config.maximum x declared chunks) w
                (λ x empty good.
                  let (p, t, len, fits, out) =
                    write_stream_envelope-ok c config.format config.maximum declared chunks x laws
                      good in
                  (p, t, len, (omega arith, ground arith))))

    load_blob-saved :
        (path : FilePath) (p bs : Bytes) (r : Reader) (w : W)
        → IsValid config.format
        → config.maximum + 22 < u64_limit
        → view w path ≡ some bs
        → IsEnvelope c config p bs
        → (os.open_file path w).0 ≡ ok r
        → IsClean r
        → (load_blob os c config path w).0 ≡ ok (some p)
    unfolding load_blob decode_reader
    load_blob-saved path p bs r w valid wide held (fits, e) opened clean =
        let read : some (content r) ≡ some bs =
          sym (sys.open_file-ok path w r opened clean) ∙ held in
        let same : content r ≡ layout c config.format p = ground arith in
        rw (opened, load_blob, open_blob)
          (ap (map_ok some) (
            decode-layout c config.format p config.maximum (u64_limit - 1) r laws valid
              (clean, same) fits (omega arith) (omega arith)))

    -- On a lawful system, with a valid identity, a maximum whose envelope fits in a u64 and a
    -- payload shorter than 2^64: after a successful save, a load returns the payload, where it can
    -- open the file and read it to its end.
    pub load_blob-save_blob :
        (path : FilePath) (p : Bytes) (r : Reader) (w : W)
        → IsValid config.format
        → config.maximum + 22 < u64_limit
        → length p < u64_limit
        → (save_blob os c config path p w).0 ≡ ok tt
        → (os.open_file path (save_blob os c config path p w).1).0 ≡ ok r
        → IsClean r
        → (load_blob os c config path (save_blob os c config path p w).1).0 ≡ ok (some p)
    load_blob-save_blob path p r w valid wide small saved opened clean =
        let (others, old_or_new, new) = save_blob-Replaces path p w small in
        let (bs, held, envelope) = new saved in
        load_blob-saved path p bs r (save_blob os c config path p w).1 valid wide held envelope
          opened clean
