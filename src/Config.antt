-- ===== src/Config.antt =====
-- src/config.rs: the identity of a blob format, the store's options and their validation.
pub mod Laws
use atomic_blob_storage.Base.{
  ℕ, ◌+◌, ◌-◌, ◌*◌, ◌^◌, Bool, true, false, ◌&&◌, ◌||◌, List, [], ◌∷◌, length, all, drop, ltb, leb,
  ◌==◌, if◌then◌else◌,
}
use atomic_blob_storage.Error.{
  Bytes, FilePath, ConfigError, invalid_domain_tag_length, invalid_filename_suffix,
  unsupported_configured_envelope_version, invalid_maximum_blob_size, StoreError, configuration,
  Result, ok, err, ◌>>=◌, ◌>>◌, guard, Outcome,
}

abbrev pub domain_tag_len : ℕ
domain_tag_len = 8

abbrev pub envelope_version_v1 : ℕ
envelope_version_v1 = 1

abbrev pub max_filename_suffix_len : ℕ
max_filename_suffix_len = 32

abbrev pub header_len : ℕ
header_len = 18

abbrev pub checksum_len : ℕ
checksum_len = 4

abbrev pub stream_chunk_size : ℕ
stream_chunk_size = 64 * 1024

abbrev pub stream_channel_capacity : ℕ
stream_channel_capacity = 2

abbrev pub default_max_blob_size : ℕ
default_max_blob_size = 64 * 1024 * 1024

abbrev pub default_max_concurrent_operations : ℕ
default_max_concurrent_operations = 4

-- The first value that a `u64`, and a 64-bit `usize`, cannot hold.
abbrev pub u64_limit : ℕ
u64_limit = 2 ^ 64

pub record BlobFormatIdentity : Type 0 where
  pub domain_tag : Bytes
  pub filename_suffix : Bytes
  pub envelope_version : ℕ

-- `is_ascii_lowercase`, `is_ascii_digit`, and the two other characters of a suffix.
unfoldable pub is_suffix_byte : ℕ → Bool
is_suffix_byte b =
    (leb b'a' b && leb b b'z') || (leb b'0' b && leb b b'9') || (b == b'_' || b == b'-')

abbrev pub starts_with_dot : Bytes → Bool
starts_with_dot [] = false
starts_with_dot (b ∷ bs) = b == b'.'

unfoldable pub suffix_valid : Bytes → Bool
unfolding is_suffix_byte
suffix_valid suffix =
    (leb 2 (length suffix) && leb (length suffix) max_filename_suffix_len)
    && starts_with_dot suffix
    && all is_suffix_byte (drop 1 suffix)

unfoldable pub validate_suffix : Bytes → Result (Unit {0}) ConfigError
unfolding suffix_valid
validate_suffix suffix = if suffix_valid suffix then ok tt else err invalid_filename_suffix

-- `BlobFormatIdentity::new`: the domain, then the suffix, then the version are checked.
unfoldable pub new_identity : Bytes → Bytes → ℕ → Result BlobFormatIdentity ConfigError
unfolding validate_suffix
new_identity domain suffix version = do
  guard (length domain == domain_tag_len) (invalid_domain_tag_length (length domain))
  validate_suffix suffix
  guard (version == envelope_version_v1) (unsupported_configured_envelope_version version)
  ok (record { domain_tag = domain; filename_suffix = suffix; envelope_version = version })

pub record Options : Type 0 where
  pub format : BlobFormatIdentity
  pub max_blob_size : ℕ
  pub max_concurrent_operations : ℕ

-- `AtomicBlobStoreOptions::new`
unfoldable pub new_options : BlobFormatIdentity → Options
new_options format = record {
  format = format;
  max_blob_size = default_max_blob_size;
  max_concurrent_operations = default_max_concurrent_operations;
}

unfoldable pub with_max_blob_size : Options → ℕ → Options
with_max_blob_size options maximum = record options { max_blob_size = maximum }

-- The argument is a `NonZeroUsize`.
unfoldable pub with_max_concurrent_operations : Options → ℕ → Options
with_max_concurrent_operations options maximum = record options {
  max_concurrent_operations = maximum;
}

-- `checked_add` of the envelope's fixed part.
unfoldable pub validate_maximum : ℕ → Outcome (Unit {0})
validate_maximum maximum =
    guard (ltb (maximum + (header_len + checksum_len)) u64_limit)
      (configuration (invalid_maximum_blob_size maximum))

-- src/engine/mod.rs: what an open store keeps of its options.
pub record StoreConfig : Type 0 where
  pub namespace : FilePath
  pub format : BlobFormatIdentity
  pub maximum : ℕ
  pub max_concurrent_operations : ℕ
