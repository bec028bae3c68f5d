-- ===== src/Format/Accepts.antt =====
-- src/format.rs: what was encoded is decoded, however the reads are split.
use atomic_blob_storage.Base.{
  ℕ, ◌+◌, ◌≤◌, ◌<◌, ◌≡◌, refl, sym, ◌++◌, length, [], arith, to_be, from_be, length-to_be,
  from_be-to_be, bytes_eq_iff, append-nil, append_assoc, ◌∙◌,
}
use atomic_blob_storage.Error.{Bytes, EnvelopeSection, ok}
use atomic_blob_storage.Config.{BlobFormatIdentity, u64_limit}
use atomic_blob_storage.Config.Laws.{IsValid}
use atomic_blob_storage.Stream.{Reader}
use atomic_blob_storage.Stream.Laws.{Feeds}
use atomic_blob_storage.Format.Crc.{Crc32c, IsCrc32c}
use atomic_blob_storage.Format.Decode.{read_section, expect_end, decode_reader_with_usize_limit}
use atomic_blob_storage.Format.Layout.{header, layout}
use atomic_blob_storage.Format.Sections.{read_section-Feeds, expect_end-Feeds_nil}

-- The checksum of the decoder's four pieces is the one of the encoder's two.
pub crc32c_pieces :
    (c : Crc32c) (a b d p : Bytes)
    → IsCrc32c c
    → c.crc32c_append (c.crc32c_append (c.crc32c_append (c.crc32c a) b) d) p
      ≡ c.crc32c ((a ++ (b ++ d)) ++ p)
crc32c_pieces c a b d p laws = rw (
  laws.crc32c_append-crc32c a b,
  laws.crc32c_append-crc32c (a ++ b) d,
  laws.crc32c_append-crc32c ((a ++ b) ++ d) p,
  append_assoc a b d,
)

-- The straight path through the decoder.
decode_steps :
    (c : Crc32c) (f : BlobFormatIdentity) (version size payload checksum : Bytes)
    → (maximum limit : ℕ) (r r1 r2 r3 r4 r5 r6 : Reader)
    → read_section 8 EnvelopeSection.magic r ≡ (ok f.domain_tag, r1)
    → read_section 2 EnvelopeSection.version r1 ≡ (ok version, r2)
    → read_section 8 EnvelopeSection.payload_length r2 ≡ (ok size, r3)
    → read_section (from_be size) EnvelopeSection.payload r3 ≡ (ok payload, r4)
    → read_section 4 EnvelopeSection.checksum r4 ≡ (ok checksum, r5)
    → expect_end r5 ≡ (ok tt, r6)
    → from_be version ≡ f.envelope_version
    → from_be size ≤ maximum
    → from_be size ≤ limit
    → from_be size + 22 < u64_limit
    → from_be checksum
      ≡ c.crc32c_append
          (c.crc32c_append
            (c.crc32c_append (c.crc32c f.domain_tag) (to_be 2 f.envelope_version))
            (to_be 8 (from_be size)))
          payload
    → (decode_reader_with_usize_limit c f maximum limit r).0 ≡ ok payload
unfolding decode_reader_with_usize_limit
decode_steps c f version size payload checksum maximum limit r r1 r2 r3 r4 r5 r6 e1 e2 e3 e4 e5 e6
      is_v fits small wide sum =
    rw (e1, (bytes_eq_iff f.domain_tag f.domain_tag).1 refl) (ground arith)

-- With a valid identity, the decoder returns the payload of every envelope in the layout, however
-- its reads are split, where the payload is within both limits and its envelope's length fits in a
-- u64.
pub decode-layout :
    (c : Crc32c) (f : BlobFormatIdentity) (p : Bytes) (maximum limit : ℕ) (r : Reader)
    → IsCrc32c c
    → IsValid f
    → Feeds r (layout c f p)
    → length p ≤ maximum
    → length p ≤ limit
    → length p + 22 < u64_limit
    → (decode_reader_with_usize_limit c f maximum limit r).0 ≡ ok p
unfolding decode_reader_with_usize_limit
decode-layout c f p maximum limit r laws v feed fits small wide =
    let n : ℕ = length p in
    let sum = c.crc32c (header f n ++ p) in
    let (r1, e1, f1) = read_section-Feeds 8 EnvelopeSection.magic r f.domain_tag _ feed v.tag_len in
    let (r2, e2, f2) =
      read_section-Feeds 2 EnvelopeSection.version r1 (to_be 2 f.envelope_version) _ f1
        (length-to_be 2 f.envelope_version) in
    let (r3, e3, f3) =
      read_section-Feeds 8 EnvelopeSection.payload_length r2 (to_be 8 n) _ f2 (length-to_be 8 n) in
    let (r4, e4, f4) = read_section-Feeds n EnvelopeSection.payload r3 p _ f3 refl in
    let (r5, e5, f5) =
      read_section-Feeds 4 EnvelopeSection.checksum r4 (to_be 4 sum) []
        (f4.0, f4.1 ∙ sym (append-nil _)) (length-to_be 4 sum) in
    let (r6, e6) = expect_end-Feeds_nil r5 f5 in
    decode_steps c f (to_be 2 f.envelope_version) (to_be 8 n) p (to_be 4 sum) maximum limit r r1 r2
      r3 r4 r5 r6 e1 e2 e3 (rw size e4) e5 e6
      (from_be-to_be 2 f.envelope_version (omega (arith, v.version_one))) (rw size fits)
      (rw size small) (rw size wide)
      (rw (size, from_be-to_be 4 sum (laws.crc32c-lt _))
        (sym (crc32c_pieces c f.domain_tag (to_be 2 f.envelope_version) (to_be 8 n) p laws)))
  where
    size : from_be (to_be 8 (length p)) ≡ length p
    size = from_be-to_be 8 (length p) (omega arith)
