-- ===== src/Format/Encode.antt =====
-- src/format.rs: encode_envelope, envelope_parts, envelope_header and write_stream_envelope.
use atomic_blob_storage.Base.{
  ℕ, ◌+◌, ◌-◌, not, ◌||◌, List, [], ◌∷◌, ◌++◌, length, ltb, leb, ◌==◌, if◌then◌else◌, to_be,
}
use atomic_blob_storage.Error.{
  Bytes, IoError, StoreOperation, StoreError, io, blob_too_large, invalid_payload_length,
  input_ended_early, input_has_trailing_data, stream_cancelled, ok, err, ◌>>=◌, ◌>>◌, guard,
  Outcome,
}
use atomic_blob_storage.Config.{BlobFormatIdentity, u64_limit}
use atomic_blob_storage.Stream.{Writer, write_all}
use atomic_blob_storage.Format.Crc.{Crc32c}

-- The domain tag, the version as a `u16`, the size as a `u64`.
unfoldable pub envelope_header : BlobFormatIdentity → ℕ → ℕ → Outcome Bytes
envelope_header format size maximum = do
  guard (leb size maximum) (blob_too_large size maximum)
  ok (format.domain_tag ++ (to_be 2 format.envelope_version ++ to_be 8 size))

-- `SaveStreamMessage`
pub data SaveStreamMessage : Type 0 where
  chunk : Bytes → SaveStreamMessage
  complete : SaveStreamMessage

abbrev pub write_failed : IoError → StoreError
write_failed = io StoreOperation.write_envelope

module _ (c : Crc32c) where
  unfoldable pub envelope_parts : BlobFormatIdentity → Bytes → ℕ → Outcome (Bytes × Bytes)
  envelope_parts format payload maximum = do
    guard (ltb (length payload) u64_limit) (invalid_payload_length (u64_limit - 1))
    header ← envelope_header format (length payload) maximum
    ok (header, to_be 4 (c.crc32c_append (c.crc32c header) payload))

  unfoldable pub encode_envelope : BlobFormatIdentity → Bytes → ℕ → Outcome Bytes
  unfolding envelope_parts
  encode_envelope format payload maximum = do
    parts ← envelope_parts format payload maximum
    ok (parts.0 ++ (payload ++ parts.1))

  abbrev pub write_or_fail :
      Bytes → Writer → (Writer → Outcome (Unit {0}) × Writer) → Outcome (Unit {0}) × Writer
  write_or_fail bs w next =
      let (res, w') = write_all bs w in
      elim res [ ok _ ↦ next w' | err e ↦ (err (write_failed e), w') ]

  -- The loop over the messages; a list that ends without `complete` is a sender that was dropped.
  unfoldable pub write_chunks :
      ℕ → List SaveStreamMessage → ℕ → ℕ → Writer → Outcome (Unit {0}) × Writer
  write_chunks declared [] sum written w = (err stream_cancelled, w)
  write_chunks declared (chunk bs ∷ messages) sum written w =
      if not (ltb (written + length bs) u64_limit) || ltb declared (written + length bs)
      then (err (input_has_trailing_data declared), w)
      else write_or_fail bs w
          λ w'. write_chunks declared messages (c.crc32c_append sum bs) (written + length bs) w'
  write_chunks declared (complete ∷ messages) sum written w =
      if not (written == declared)
      then (err (input_ended_early declared written), w)
      else write_or_fail (to_be 4 sum) w λ w'. (ok tt, w')

  unfoldable pub write_stream_envelope :
      BlobFormatIdentity → ℕ → Writer → ℕ → List SaveStreamMessage → Outcome (Unit {0}) × Writer
  write_stream_envelope format maximum w declared messages =
      elim (envelope_header format declared maximum) [
        | err e ↦ (err e, w)
        | ok header ↦
            write_or_fail header w λ w'. write_chunks declared messages (c.crc32c header) 0 w'
      ]
