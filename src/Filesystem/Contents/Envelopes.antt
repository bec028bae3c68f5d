-- ===== src/Filesystem/Contents/Envelopes.antt =====
-- src/format.rs: the envelopes that a save writes.
use atomic_blob_storage.Base.{
  ℕ, ◌≤◌, ◌<◌, ◌≡◌, List, [], ◌∷◌, ◌++◌, length, some, arith, append_assoc,
}
use atomic_blob_storage.Error.{Bytes, ok}
use atomic_blob_storage.Config.{StoreConfig, u64_limit}
use atomic_blob_storage.Stream.{Writer, write_all}
use atomic_blob_storage.Format.Crc.{Crc32c, IsCrc32c}
use atomic_blob_storage.Format.Encode.{SaveStreamMessage, envelope_parts, encode_envelope}
use atomic_blob_storage.Format.Layout.{layout, encode_envelope-layout}
use atomic_blob_storage.Format.Streamed.{transfer, write_all-written}
use atomic_blob_storage.Filesystem.Unix.{write_sections}

-- The bytes of an envelope, of one payload that is within the limit.
abbrev pub IsEnvelope : Crc32c → StoreConfig → Bytes → Bytes → Type 0
IsEnvelope c config p bs = (length p ≤ config.maximum) × (bs ≡ layout c config.format p)

-- The envelope of what was streamed before the end marker, of the declared length.
abbrev pub IsStreamed : Crc32c → StoreConfig → List SaveStreamMessage → ℕ → Bytes → Type 0
IsStreamed c config chunks declared bs =
    (p : Bytes) × (transfer chunks ≡ some p) × (length p ≡ declared) × IsEnvelope c config p bs

module _ (c : Crc32c) (laws : IsCrc32c c) (config : StoreConfig) where
  pub three_sections :
      (a p s : Bytes) (x : Writer)
      → x.written ≡ []
      → (write_sections c (a ∷ p ∷ s ∷ []) x).0 ≡ ok tt
      → (write_sections c (a ∷ p ∷ s ∷ []) x).1.written ≡ a ++ (p ++ s)
  three_sections a p s x empty h =
      let w1 = (write_all a x).1 in
      let w2 = (write_all p w1).1 in
      ground (
        arith,
        write_all-written a x,
        write_all-written p w1,
        write_all-written s w2,
        append_assoc a p s,
      )

  pub parts-layout :
      (p a s : Bytes)
      → length p < u64_limit
      → envelope_parts c config.format p config.maximum ≡ ok (a, s)
      → IsEnvelope c config p (a ++ (p ++ s))
  unfolding encode_envelope
  parts-layout p a s small h =
      ground (arith, encode_envelope-layout c config.format p config.maximum laws small)
