-- ===== src/Tests/Envelopes.antt =====
-- src/config.rs and src/format.rs on the fixtures, and the theorems about them at such inputs.
use atomic_blob_storage.Base.{
  ◌≤◌, ◌-◌, ◌≡◌, refl, [], ◌∷◌, ◌++◌, length, arith, to_be, from_be, some, leb, if◌then◌else◌,
}
use atomic_blob_storage.Error.{
  Bytes, ErrorKind, EnvelopeSection, blob_too_large, trailing_data, truncated_envelope, ok, err,
  map_ok, Outcome,
}
use atomic_blob_storage.Config.{u64_limit}
use atomic_blob_storage.Config.Laws.{IsValid}
use atomic_blob_storage.Stream.{Reader, byte, split, fails, Writer, read_exact, read, write_all}
use atomic_blob_storage.Stream.Laws.{from_bytes, content}
use atomic_blob_storage.Format.Encode.{
  chunk, complete, encode_envelope, envelope_header, write_stream_envelope, write_chunks,
}
use atomic_blob_storage.Format.Decode.{
  decode_reader, decode_reader_with_usize_limit, validate_envelope_reader, read_section, expect_end,
}
use atomic_blob_storage.Format.Layout.{layout, encode_envelope-layout}
use atomic_blob_storage.Format.Accepts.{decode-layout}
use atomic_blob_storage.Format.Sound.{decode-content}
use atomic_blob_storage.Format.Agree.{metadata, validate-decode}
use atomic_blob_storage.Format.Streamed.{
  transfer, write_stream_envelope-ok, write_stream_envelope-healthy,
}
use atomic_blob_storage.Tests.Castagnoli.{castagnoli, castagnoli-IsCrc32c, append}
use atomic_blob_storage.Tests.Samples.{identity, abc, fixture}

encode_abc : encode_envelope castagnoli identity abc 1024 ≡ ok fixture
unfolding encode_envelope envelope_header to_be append
encode_abc = refl

decode : Bytes → Outcome Bytes
unfolding decode_reader read_section expect_end read_exact read from_be to_be append
decode bs = (decode_reader castagnoli identity 1024 (from_bytes bs)).0

decode_valid : decode fixture ≡ ok abc
unfolding decode
decode_valid = refl

decode_trailing : decode (fixture ++ (0 ∷ [])) ≡ err trailing_data
unfolding decode
decode_trailing = refl

-- "BLOB" alone
decode_truncated :
    decode (0x42 ∷ 0x4c ∷ 0x4f ∷ 0x42 ∷ []) ≡ err (truncated_envelope EnvelopeSection.magic)
unfolding decode
decode_truncated = refl

-- The reads of a fixture in three pieces.
abbrev pieces : Reader
pieces =
    byte 0x42
    ∷ split
    ∷ byte 0x4c
    ∷ split
    ∷ from_bytes (
        0x4f ∷ 0x42 ∷ 0x54 ∷ 0x45 ∷ 0x53 ∷ 0x54 ∷ 0 ∷ 1 ∷ 0 ∷ 0 ∷ 0 ∷ 0 ∷ 0 ∷ 0 ∷ 0 ∷ 3 ∷ 0x61
        ∷ 0x62 ∷ 0x63 ∷ 0xb7 ∷ 0xba ∷ 0x8c ∷ 0x0f ∷ [])

-- A reader that fails inside the payload.
abbrev failing : Reader
failing =
    byte 0x42
    ∷ byte 0x4c
    ∷ fails (record { kind = ErrorKind.other; raw_os_error = 5 })
    ∷ byte 0x4f
    ∷ []

pub identity-IsValid : IsValid identity
identity-IsValid = record {
  tag_len = refl;
  suffix = (b'b' ∷ b'l' ∷ b'o' ∷ b'b' ∷ [], refl, omega arith, omega arith, omega arith);
  version_one = refl;
}

layout-abc : layout castagnoli identity abc ≡ fixture
unfolding to_be append
layout-abc = refl

encode_envelope-layout_example :
    encode_envelope castagnoli identity abc 2
    ≡ (if leb 3 2 then ok (layout castagnoli identity abc) else err (blob_too_large 3 2))
encode_envelope-layout_example =
    encode_envelope-layout castagnoli identity abc 2 castagnoli-IsCrc32c (omega arith)

decode-layout_example :
    (decode_reader_with_usize_limit castagnoli identity 1024 1024 pieces).0 ≡ ok abc
unfolding to_be append
decode-layout_example =
    decode-layout castagnoli identity abc 1024 1024 pieces castagnoli-IsCrc32c identity-IsValid
      (tt, refl) (omega arith) (omega arith) (omega arith)

decode-content_example :
    (content (from_bytes fixture) ≡ layout castagnoli identity abc) × (3 ≤ 1024) × (3 ≤ 1024)
unfolding decode_reader_with_usize_limit read_section expect_end read_exact read from_be to_be
    append
decode-content_example =
    decode-content castagnoli identity 1024 1024 (from_bytes fixture) abc castagnoli-IsCrc32c tt
      (omega arith) refl

validate-decode_example : validate_envelope_reader castagnoli identity 1024 failing ≡ (
  map_ok metadata
      (decode_reader_with_usize_limit castagnoli identity 1024 (u64_limit - 1) failing).0,
  (decode_reader_with_usize_limit castagnoli identity 1024 (u64_limit - 1) failing).1,
)
validate-decode_example =
    validate-decode castagnoli identity 1024 failing castagnoli-IsCrc32c (omega arith) (omega arith)

abbrev blank : Writer
blank = record { written = []; failures = [] }

write_stream_envelope-healthy_example :
    write_stream_envelope castagnoli identity 1024 blank 3
      (chunk (b'a' ∷ []) ∷ chunk (b'b' ∷ b'c' ∷ []) ∷ complete ∷ [])
    ≡ (ok tt, record { written = layout castagnoli identity abc; failures = [] })
write_stream_envelope-healthy_example =
    write_stream_envelope-healthy castagnoli identity 1024 3 _ blank abc castagnoli-IsCrc32c refl
      refl (omega arith) (omega arith) refl

write_stream_envelope-ok_example :
    (p : Bytes) × (transfer (chunk abc ∷ complete ∷ []) ≡ some p)
    × (length p ≡ 3)
    × (3 ≤ 1024)
    × ((write_stream_envelope castagnoli identity 1024 blank 3
          (chunk abc ∷ complete ∷ [])).1.written
        ≡ layout castagnoli identity p)
unfolding write_stream_envelope envelope_header write_chunks write_all
write_stream_envelope-ok_example =
    write_stream_envelope-ok castagnoli identity 1024 3 (chunk abc ∷ complete ∷ []) blank
      castagnoli-IsCrc32c refl
