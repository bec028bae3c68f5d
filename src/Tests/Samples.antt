-- ===== src/Tests/Samples.antt =====
-- The identity, payload and envelope of tests/format_compatibility.rs and its fixture valid.hex.
use atomic_blob_storage.Base.{[], ◌∷◌}
use atomic_blob_storage.Error.{Bytes}
use atomic_blob_storage.Config.{BlobFormatIdentity}

-- ".blob"
abbrev pub blob_suffix : Bytes
blob_suffix = b'.' ∷ b'b' ∷ b'l' ∷ b'o' ∷ b'b' ∷ []

-- "BLOBTEST"
abbrev pub blobtest : Bytes
blobtest = b'B' ∷ b'L' ∷ b'O' ∷ b'B' ∷ b'T' ∷ b'E' ∷ b'S' ∷ b'T' ∷ []

abbrev pub identity : BlobFormatIdentity
identity = record { domain_tag = blobtest; filename_suffix = blob_suffix; envelope_version = 1 }

-- "abc"
abbrev pub abc : Bytes
abc = b'a' ∷ b'b' ∷ b'c' ∷ []

abbrev pub fixture : Bytes
fixture =
    0x42 ∷ 0x4c ∷ 0x4f ∷ 0x42 ∷ 0x54 ∷ 0x45 ∷ 0x53 ∷ 0x54 ∷ 0 ∷ 1 ∷ 0 ∷ 0 ∷ 0 ∷ 0 ∷ 0 ∷ 0 ∷ 0 ∷ 3
    ∷ 0x61 ∷ 0x62 ∷ 0x63 ∷ 0xb7 ∷ 0xba ∷ 0x8c ∷ 0x0f ∷ []
