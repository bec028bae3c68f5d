-- ===== src/Filesystem/Names/Laws.antt =====
-- src/filesystem/mod.rs: the names that the store makes, and those that it recognizes.
use atomic_blob_storage.Base.{
  ℕ, ◌*◌, ◌/◌, ◌%◌, ◌<◌, ◌≡◌, refl, ap, sym, ◌∙◌, ◌⊎◌, true, false, [], ◌∷◌, ◌++◌, some, length,
  all, All, IsByte, bytes_eq_iff, arith, append_assoc,
}
use atomic_blob_storage.Error.{Bytes}
use atomic_blob_storage.Config.{is_suffix_byte}
use atomic_blob_storage.Filesystem.Names.{
  hex_digit, hex, has_dot, before_last_dot, stem, starts_with, skip, split_once, is_hex_byte,
  is_hex64, tmp_marker, save_kind, clear_kind, is_owned_temporary_filename, staging_name,
}

hex_digit-lower : (n : ℕ) → n < 16 → is_hex_byte (hex_digit n) ≡ true
unfolding is_hex_byte
hex_digit-lower n h = ground arith

-- Of bytes, an identifier has two lower-case hexadecimal digits each.
pub hex-lower :
    (bs : Bytes)
    → All IsByte bs
    → (all is_hex_byte (hex bs) ≡ true) × (length (hex bs) ≡ 2 * length bs)
unfolding hex is_hex_byte
hex-lower [] h = (refl, refl)
hex-lower (b ∷ bs) h =
    let (all_lower, len) = hex-lower bs h.1 in
    ground
      (arith, hex_digit-lower (b / 16) (omega (arith, h.0)), hex_digit-lower (b % 16) (omega arith))

no_dot : (bs : Bytes) → all is_hex_byte bs ≡ true → has_dot bs ≡ false
unfolding is_hex_byte
no_dot [] h = refl
no_dot (b ∷ bs) h = ground (arith, no_dot bs)

suffix_no_dot : (bs : Bytes) → all is_suffix_byte bs ≡ true → has_dot bs ≡ false
unfolding is_suffix_byte
suffix_no_dot [] h = refl
suffix_no_dot (b ∷ bs) h = ground (arith, suffix_no_dot bs)

starts_with-append : (p t : Bytes) → (starts_with p (p ++ t) ≡ true) × (skip p (p ++ t) ≡ t)
starts_with-append [] t = (refl, refl)
starts_with-append (b ∷ p) t = ground (arith, starts_with-append p t)

-- The first occurrence of a marker that starts with a dot is behind all that has none.
split_once-no_dot :
    (pre m rest : Bytes)
    → has_dot pre ≡ false
    → split_once (b'.' ∷ m) (pre ++ ((b'.' ∷ m) ++ rest)) ≡ some (pre, rest)
unfolding split_once
split_once-no_dot [] m rest h = ground (arith, starts_with-append m rest)
split_once-no_dot (b ∷ pre) m rest h = ground (arith, split_once-no_dot pre m rest)

before_last_dot-no_dot :
    (pre t : Bytes)
    → has_dot pre ≡ false
    → has_dot t ≡ false
    → (before_last_dot (pre ++ (b'.' ∷ t)) ≡ pre) × (has_dot (pre ++ (b'.' ∷ t)) ≡ true)
before_last_dot-no_dot [] t h k = ground arith
before_last_dot-no_dot (b ∷ pre) t h k = ground (arith, before_last_dot-no_dot pre t)

-- With a suffix that starts with a dot, a name made of a hash, the suffix, the marker, the kind of
-- a save or a clear and an identifier is recognized as that of a staging file, where the hash and
-- the identifier are 64 lower-case hexadecimal digits each.
pub staging_name-owned :
    (hash t identifier kind : Bytes)
    → is_hex64 hash ≡ true
    → is_hex64 identifier ≡ true
    → (kind ≡ save_kind) ⊎ (kind ≡ clear_kind)
    → is_owned_temporary_filename (staging_name hash (b'.' ∷ t) kind identifier) (b'.' ∷ t) ≡ true
unfolding is_owned_temporary_filename
staging_name-owned hash t identifier kind h i k =
    let rest : Bytes = kind ++ (b'.' ∷ identifier) in
    let found : split_once (b'.' ∷ (t ++ tmp_marker)) (staging_name hash (b'.' ∷ t) kind identifier)
        ≡ some (hash, rest) =
      ap (λ n. split_once (b'.' ∷ (t ++ tmp_marker)) (hash ++ (b'.' ∷ n)))
        (sym (append_assoc t tmp_marker rest))
      ∙ split_once-no_dot hash (t ++ tmp_marker) rest (no_dot hash (ground arith)) in
    let parted : split_once (b'.' ∷ []) rest ≡ some (kind, identifier) =
      split_once-no_dot kind [] identifier (ground arith) in
    ground (arith, found, parted, (bytes_eq_iff kind save_kind).1, (bytes_eq_iff kind clear_kind).1)

-- The stem of a blob's file name is the hash.
pub stem-blob :
    (hash t : Bytes)
    → is_hex64 hash ≡ true
    → all is_suffix_byte t ≡ true
    → stem (hash ++ (b'.' ∷ t)) ≡ hash
unfolding stem
stem-blob hash t h k = ground (arith, before_last_dot-no_dot hash t, no_dot hash, suffix_no_dot t k)
