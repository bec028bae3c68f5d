-- ===== src/Format/Layout.antt =====
-- The table of FORMAT.md, and src/format.rs's encoder against it.
use atomic_blob_storage.Base.{
  ℕ, ◌+◌, ◌<◌, ◌≡◌, ap, ◌++◌, length, leb, if◌then◌else◌, to_be, length-to_be, length-append,
  append_assoc, arith, ◌∙◌,
}
use atomic_blob_storage.Error.{Bytes, blob_too_large, ok, err}
use atomic_blob_storage.Config.{BlobFormatIdentity, u64_limit}
use atomic_blob_storage.Config.Laws.{IsValid}
use atomic_blob_storage.Format.Crc.{Crc32c, IsCrc32c}
use atomic_blob_storage.Format.Encode.{envelope_header, encode_envelope}

-- Offsets 0, 8 and 10.
abbrev pub header : BlobFormatIdentity → ℕ → Bytes
header f size = f.domain_tag ++ (to_be 2 f.envelope_version ++ to_be 8 size)

abbrev pub layout : Crc32c → BlobFormatIdentity → Bytes → Bytes
layout c f p =
    f.domain_tag
    ++ (to_be 2 f.envelope_version
        ++ (to_be 8 (length p) ++ (p ++ to_be 4 (c.crc32c (header f (length p) ++ p)))))

pub header-append :
    (f : BlobFormatIdentity) (n : ℕ) (rest : Bytes)
    → header f n ++ rest ≡ f.domain_tag ++ (to_be 2 f.envelope_version ++ (to_be 8 n ++ rest))
header-append f n rest =
    append_assoc f.domain_tag (to_be 2 f.envelope_version ++ to_be 8 n) rest
    ∙ ap (◌++◌ f.domain_tag) (append_assoc (to_be 2 f.envelope_version) (to_be 8 n) rest)

-- Every payload shorter than 2^64 is written in the layout of the format where it is within the
-- maximum, and refused where it is not.
pub encode_envelope-layout :
    (c : Crc32c) (f : BlobFormatIdentity) (p : Bytes) (maximum : ℕ)
    → IsCrc32c c
    → length p < u64_limit
    → encode_envelope c f p maximum ≡ (
        if leb (length p) maximum
        then ok (layout c f p)
        else err (blob_too_large (length p) maximum))
unfolding encode_envelope envelope_header
encode_envelope-layout c f p maximum laws small = ground (
  arith,
  laws.crc32c_append-crc32c (header f (length p)) p,
  header-append f (length p) (p ++ to_be 4 (c.crc32c (header f (length p) ++ p))),
)

pub length-layout :
    (c : Crc32c) (f : BlobFormatIdentity) (p : Bytes)
    → IsValid f
    → length (layout c f p) ≡ length p + 22
length-layout c f p v = simp (length-append, length-to_be) (omega (arith, v.tag_len))
