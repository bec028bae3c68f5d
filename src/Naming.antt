-- ===== src/Naming.antt =====
-- src/path.rs: the name of a blob's file, and the namespace. BLAKE3 is a parameter.
use atomic_blob_storage.Base.{ℕ, List, [], ◌∷◌, ◌++◌}
use atomic_blob_storage.Error.{Bytes, FilePath, invalid_namespace, configuration, ok, err, Outcome}
use atomic_blob_storage.Config.{BlobFormatIdentity}

-- The crate `blake3`: the digest, 32 bytes, as the number that they write, and its hex digits.
pub record Blake3 : Type 0 where
  pub hash : Bytes → ℕ
  pub to_hex : ℕ → Bytes

-- `std::path::Component`
pub data Component : Type 0 where
  prefix root_dir cur_dir parent_dir : Component
  normal : Bytes → Component

module _ (blake3 : Blake3) where
  unfoldable pub key_hash : Bytes → ℕ
  key_hash canonical_key = blake3.hash canonical_key

  unfoldable pub blob_filename : BlobFormatIdentity → Bytes → Bytes
  blob_filename format canonical_key =
      blake3.to_hex (blake3.hash canonical_key) ++ format.filename_suffix

-- The argument is what `Path::components` gives for the namespace.
unfoldable pub validate_namespace : List Component → Outcome FilePath
validate_namespace (normal [] ∷ []) = err (configuration invalid_namespace)
validate_namespace (normal (b ∷ bs) ∷ []) = ok ((b ∷ bs) ∷ [])
validate_namespace components = err (configuration invalid_namespace)
