-- ===== src/Tests/Castagnoli.antt =====
-- CRC-32C bit by bit: a function that meets what src/format.rs relies on of the crate `crc32c`.
use Prim.Native.Nat.{bit_xor}
use atomic_blob_storage.Base.{
  ℕ, zero, suc, ◌-◌, ◌/◌, ◌%◌, ◌^◌, ◌≤◌, ◌<◌, ◌≡◌, refl, [], ◌∷◌, ◌++◌, ◌==◌, if◌then◌else◌, arith,
}
use atomic_blob_storage.Error.{Bytes}
use atomic_blob_storage.Format.Crc.{Crc32c, IsCrc32c}

abbrev ones : ℕ
ones = 0xffff_ffff

bits : ℕ → ℕ → ℕ
bits zero s = s
bits (suc k) s = bits k (if s % 2 == 0 then s / 2 else bit_xor (s / 2) 0x82f6_3b78)

update : ℕ → Bytes → ℕ
unfolding bits
update s [] = s
update s (b ∷ bs) = update (bits 8 (bit_xor s b) % 2 ^ 32) bs

update-append : (s : ℕ) (a b : Bytes) → update s (a ++ b) ≡ update (update s a) b
unfolding update
update-append s [] b = refl
update-append s (x ∷ a) b = update-append (bits 8 (bit_xor s x) % 2 ^ 32) a b

update-le : (s : ℕ) (a : Bytes) → s ≤ ones → update s a ≤ ones
unfolding update
update-le s [] h = h
update-le s (b ∷ bs) h = update-le (bits 8 (bit_xor s b) % 2 ^ 32) bs (omega arith)

unfoldable pub append : ℕ → Bytes → ℕ
unfolding update
append sum bs = ones - update (ones - sum) bs

abbrev pub castagnoli : Crc32c
castagnoli = record { crc32c = append 0; crc32c_append = append }

append-append : (a b : Bytes) → append (append 0 a) b ≡ append 0 (a ++ b)
unfolding append
append-append a b =
    let back : ones - (ones - update ones a) ≡ update ones a = omega (arith, update-le ones a) in
    rw (update-append ones a b, back)

append-lt : (a : Bytes) → append 0 a < 256 ^ 4
unfolding append
append-lt a = omega arith

pub castagnoli-IsCrc32c : IsCrc32c castagnoli
castagnoli-IsCrc32c = record { crc32c_append-crc32c = append-append; crc32c-lt = append-lt }
