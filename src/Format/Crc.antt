-- ===== src/Format/Crc.antt =====
-- The crate `crc32c`, which src/format.rs calls.
use atomic_blob_storage.Base.{ℕ, ◌<◌, ◌≡◌, ◌++◌, ◌^◌}
use atomic_blob_storage.Error.{Bytes}

pub record Crc32c : Type 0 where
  pub crc32c : Bytes → ℕ
  pub crc32c_append : ℕ → Bytes → ℕ

-- What its documentation says: the sum is a `u32`, and can be computed piece by piece.
pub record IsCrc32c (c : Crc32c) : Type 0 where
  pub crc32c_append-crc32c : (a b : Bytes) → c.crc32c_append (c.crc32c a) b ≡ c.crc32c (a ++ b)
  pub crc32c-lt : (a : Bytes) → c.crc32c a < 256 ^ 4
