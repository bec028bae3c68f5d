-- ===== src/Config/Laws.antt =====
-- src/config.rs and validate_maximum of src/engine/mod.rs: what the validation accepts.
use atomic_blob_storage.Base.{
  ℕ, ◌+◌, ◌≤◌, ◌<◌, ◌≡◌, refl, ap, ◌↔◌, ◌⊎◌, true, [], ◌∷◌, length, all, All, arith,
}
use atomic_blob_storage.Error.{Bytes, ok}
use atomic_blob_storage.Config.{
  BlobFormatIdentity, is_suffix_byte, suffix_valid, new_identity, validate_maximum, u64_limit,
}

abbrev pub IsSuffixByte : ℕ → Type 0
IsSuffixByte b = ((b'a' ≤ b) × (b ≤ b'z')) ⊎ ((b'0' ≤ b) × (b ≤ b'9')) ⊎ ((b ≡ b'_') ⊎ (b ≡ b'-'))

-- `\.[a-z0-9_-]+`, at most 32 bytes long.
abbrev pub IsSuffix : Bytes → Type 0
IsSuffix s =
    (rest : Bytes) × (s ≡ b'.' ∷ rest)
    × (1 ≤ length rest)
    × (length rest ≤ 31)
    × All IsSuffixByte rest

pub record IsValid (f : BlobFormatIdentity) : Type 0 where
  pub tag_len : length f.domain_tag ≡ 8
  pub suffix : IsSuffix f.filename_suffix
  pub version_one : f.envelope_version ≡ 1

is_suffix_byte_iff : (b : ℕ) → (is_suffix_byte b ≡ true) ↔ IsSuffixByte b
unfolding is_suffix_byte
is_suffix_byte_iff b = (λ h. ground arith, λ h. ground arith)

all-All : (bs : Bytes) → (all is_suffix_byte bs ≡ true) ↔ All IsSuffixByte bs
all-All [] = (λ h. tt, λ h. refl)
all-All (b ∷ bs) = (
  λ h. ((is_suffix_byte_iff b).0 (ground arith), (all-All bs).0 (ground arith)),
  λ h. ground (arith, (is_suffix_byte_iff b).1 h.0, (all-All bs).1 h.1),
)

suffix_valid-IsSuffix : (s : Bytes) → suffix_valid s ≡ true → IsSuffix s
unfolding suffix_valid
suffix_valid-IsSuffix [] h = cc
suffix_valid-IsSuffix (b ∷ rest) h = (
  rest,
  ap (λ c. c ∷ rest) (ground arith),
  ground arith,
  ground arith,
  (all-All rest).0 (ground arith),
)

IsSuffix-suffix_valid : (s : Bytes) → IsSuffix s → suffix_valid s ≡ true
unfolding suffix_valid
IsSuffix-suffix_valid [] h = ground (arith, h.1)
IsSuffix-suffix_valid (b ∷ bs) (rest, e, low, high, good) = ground (arith, (all-All rest).1 good)

-- The constructor accepts its three parts exactly when they are valid, and keeps them as they are.
pub new_identity_iff :
    (f : BlobFormatIdentity)
    → (new_identity f.domain_tag f.filename_suffix f.envelope_version ≡ ok f) ↔ IsValid f
unfolding new_identity
new_identity_iff f = (
  λ h. record {
    tag_len = ground arith;
    suffix = suffix_valid-IsSuffix f.filename_suffix (ground arith);
    version_one = ground arith;
  },
  λ v. ground (arith, IsSuffix-suffix_valid f.filename_suffix v.suffix),
)

-- A maximum is accepted exactly when the length of its envelope fits in a u64.
pub validate_maximum_iff :
    (maximum : ℕ) → (validate_maximum maximum ≡ ok tt) ↔ (maximum + 22 < u64_limit)
unfolding validate_maximum
validate_maximum_iff maximum = ground arith
