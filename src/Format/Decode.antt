-- ===== src/Format/Decode.antt =====
-- src/format.rs: validate_envelope_reader, decode_reader, decode_reader_with_usize_limit and
-- read_section.
use atomic_blob_storage.Base.{
  ℕ, zero, suc, ◌+◌, ◌-◌, min, Bool, true, false, [], ◌∷◌, ◌++◌, ltb, leb, ◌==◌, if◌then◌else◌,
  bytes_eq, to_be, from_be,
}
use atomic_blob_storage.Error.{
  Bytes, IoError, ErrorKind, StoreOperation, EnvelopeSection, StoreError, BlobMetadata, io,
  blob_too_large, invalid_payload_length, invalid_envelope_domain, unsupported_envelope_version,
  truncated_envelope, trailing_data, checksum_mismatch, Result, ok, err, map_err, guard, Outcome,
}
use atomic_blob_storage.Config.{
  BlobFormatIdentity, header_len, checksum_len, domain_tag_len, stream_chunk_size, u64_limit,
}
use atomic_blob_storage.Stream.{Reader, read, read_exact}
use atomic_blob_storage.Format.Crc.{Crc32c}

-- A computation that reads: the reader as a state, and the `?` operator on its results.
abbrev pub ReaderM : Type 0 → Type 0
ReaderM A = Reader → Outcome A × Reader

abbrev pub continue : {A B : Type 0} → Outcome A × Reader → (A → ReaderM B) → Outcome B × Reader
continue (ok a, r) f = f a r
continue (err e, r) f = (err e, r)

infixl 5 ◌>>=◌ ◌>>◌
abbrev pub ◌>>=◌ : {A B : Type 0} → ReaderM A → (A → ReaderM B) → ReaderM B
◌>>=◌ m f r = continue (m r) f

abbrev pub ◌>>◌ : {B : Type 0} → ReaderM (Unit {0}) → ReaderM B → ReaderM B
m >> k = m >>= λ _. k

abbrev pub pure : {A : Type 0} → A → ReaderM A
pure a r = (ok a, r)

abbrev pub require : Bool → StoreError → ReaderM (Unit {0})
require b e r = (guard b e, r)

abbrev pub is_eof : ErrorKind → Bool
is_eof ErrorKind.unexpected_eof = true
is_eof k = false

abbrev pub section_error : EnvelopeSection → IoError → StoreError
section_error section e =
    if is_eof e.kind then truncated_envelope section else io StoreOperation.read_envelope e

-- The length of the buffer, and the section that is read into it.
unfoldable pub read_section : ℕ → EnvelopeSection → ReaderM Bytes
read_section n section r =
    let (res, r') = read_exact n r in (map_err (section_error section) res, r')

abbrev pub end_result : Result Bytes IoError → Outcome (Unit {0})
end_result (ok []) = ok tt
end_result (ok (b ∷ bs)) = err trailing_data
end_result (err e) = err (io StoreOperation.read_envelope e)

-- `reader.read(&mut trailing)` and the match on its result, which both readers end with.
unfoldable pub expect_end : ReaderM (Unit {0})
expect_end r = let (res, r') = read 1 r in (end_result res, r')

module _ (c : Crc32c) where
  -- The allocation of `vec![0; payload_len]` is not modelled: it panics for a length above
  -- `isize::MAX`.
  unfoldable pub decode_reader_with_usize_limit : BlobFormatIdentity → ℕ → ℕ → ReaderM Bytes
  decode_reader_with_usize_limit format maximum usize_limit = do
    tag ← read_section 8 EnvelopeSection.magic
    require (bytes_eq tag format.domain_tag) (invalid_envelope_domain format.domain_tag tag)
    version ← read_section 2 EnvelopeSection.version
    require (from_be version == format.envelope_version)
        (unsupported_envelope_version (from_be version))
    size ← read_section 8 EnvelopeSection.payload_length
    let declared = from_be size
    require (leb declared maximum) (blob_too_large declared maximum)
    require (leb declared usize_limit) (invalid_payload_length declared)
    require (ltb (declared + (header_len + checksum_len)) u64_limit)
        (invalid_payload_length declared)
    payload ← read_section declared EnvelopeSection.payload
    checksum ← read_section 4 EnvelopeSection.checksum
    expect_end
    let actual =
        c.crc32c_append
          (c.crc32c_append
            (c.crc32c_append (c.crc32c format.domain_tag) (to_be 2 format.envelope_version))
            (to_be 8 declared))
          payload
    require (from_be checksum == actual) (checksum_mismatch (from_be checksum) actual)
    pure payload

  -- The limit is `usize::MAX`, for a `usize` of 64 bits.
  unfoldable pub decode_reader : BlobFormatIdentity → ℕ → ReaderM Bytes
  unfolding decode_reader_with_usize_limit
  decode_reader format maximum = decode_reader_with_usize_limit format maximum (u64_limit - 1)

  -- The loop over the payload, at most `stream_chunk_size` bytes at a time. Each round reads at least
  -- one byte, so the remaining length is fuel enough.
  unfoldable pub checksum_payload : ℕ → ℕ → ℕ → ReaderM ℕ
  checksum_payload zero remaining actual = pure actual
  checksum_payload (suc fuel) remaining actual = elim (remaining == 0) [
    | true ↦ pure actual
    | false ↦ do
      let requested = min remaining stream_chunk_size
      buffer ← read_section requested EnvelopeSection.payload
      checksum_payload fuel (remaining - requested) (c.crc32c_append actual buffer)
  ]

  unfoldable pub validate_envelope_reader : BlobFormatIdentity → ℕ → ReaderM BlobMetadata
  unfolding checksum_payload
  validate_envelope_reader format maximum = do
    tag ← read_section domain_tag_len EnvelopeSection.magic
    require (bytes_eq tag format.domain_tag) (invalid_envelope_domain format.domain_tag tag)
    version ← read_section 2 EnvelopeSection.version
    require (from_be version == format.envelope_version)
        (unsupported_envelope_version (from_be version))
    size ← read_section 8 EnvelopeSection.payload_length
    let declared = from_be size
    require (leb declared maximum) (blob_too_large declared maximum)
    actual ← checksum_payload declared declared (c.crc32c (tag ++ (version ++ size)))
    checksum ← read_section checksum_len EnvelopeSection.checksum
    expect_end
    require (from_be checksum == actual) (checksum_mismatch (from_be checksum) actual)
    pure (record { payload_len = declared })
