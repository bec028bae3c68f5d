-- ===== src/Filesystem/Names.antt =====
-- src/filesystem/mod.rs: the random part of a name, and the names of staging files.
pub mod Laws
use atomic_blob_storage.Base.{
  ℕ, ◌+◌, ◌-◌, ◌/◌, ◌%◌, Bool, true, false, not, ◌&&◌, ◌||◌, List, [], ◌∷◌, ◌++◌, Option, none,
  some, ltb, leb, ◌==◌, is_empty, length, all, bytes_eq, if◌then◌else◌,
}
use atomic_blob_storage.Error.{Bytes, FilePath}

-- `u8 >> 4` and `u8 & 0x0f`, and the digit of each.
abbrev pub hex_digit : ℕ → ℕ
hex_digit n = elim (ltb n 10) [ true ↦ b'0' + n | false ↦ b'a' + (n - 10) ]

unfoldable pub hex : Bytes → Bytes
hex [] = []
hex (b ∷ bs) = hex_digit (b / 16) ∷ hex_digit (b % 16) ∷ hex bs

-- `Path::file_name` for the paths of blobs, and `Path::file_stem`: what stands before the last dot, or
-- the whole name where the only dot is at the start.
abbrev pub file_name : FilePath → Option Bytes
file_name [] = none
file_name (n ∷ []) = some n
file_name (n ∷ m ∷ p) = file_name (m ∷ p)

abbrev pub has_dot : Bytes → Bool
has_dot [] = false
has_dot (b ∷ bs) = b == b'.' || has_dot bs

-- What stands before the last dot of a name that has one.
abbrev pub before_last_dot : Bytes → Bytes
before_last_dot [] = []
before_last_dot (b ∷ bs) =
    let rest = before_last_dot bs in
    if has_dot bs then b ∷ rest else if b == b'.' then [] else b ∷ bs

unfoldable pub stem : Bytes → Bytes
stem name = let s = before_last_dot name in if has_dot name && not (is_empty s) then s else name

-- `str::split_once`: around the first occurrence.
abbrev pub starts_with : Bytes → Bytes → Bool
starts_with [] s = true
starts_with (p ∷ ps) [] = false
starts_with (p ∷ ps) (b ∷ bs) = p == b && starts_with ps bs

abbrev pub skip : Bytes → Bytes → Bytes
skip [] s = s
skip (p ∷ ps) [] = []
skip (p ∷ ps) (b ∷ bs) = skip ps bs

unfoldable pub split_once : Bytes → Bytes → Option (Bytes × Bytes)
split_once marker [] = if is_empty marker then some ([], []) else none
split_once marker (b ∷ bs) =
    let later = split_once marker bs in
    if starts_with marker (b ∷ bs)
    then some ([], skip marker (b ∷ bs))
    else elim later [ none ↦ none | some (before, after) ↦ some (b ∷ before, after) ]

-- `byte.is_ascii_hexdigit() && !byte.is_ascii_uppercase()`
unfoldable pub is_hex_byte : ℕ → Bool
is_hex_byte b = (leb b'0' b && leb b b'9') || (leb b'a' b && leb b b'f')

abbrev pub is_hex64 : Bytes → Bool
is_hex64 s = length s == 64 && all is_hex_byte s

abbrev pub tmp_marker : Bytes
tmp_marker = b'.' ∷ b't' ∷ b'm' ∷ b'p' ∷ b'-' ∷ b'v' ∷ b'1' ∷ b'.' ∷ []

abbrev pub save_kind : Bytes
save_kind = b's' ∷ b'a' ∷ b'v' ∷ b'e' ∷ []

abbrev pub clear_kind : Bytes
clear_kind = b'c' ∷ b'l' ∷ b'e' ∷ b'a' ∷ b'r' ∷ []

abbrev kind_owned : Option (Bytes × Bytes) → Bool
kind_owned none = false
kind_owned (some (kind, identifier)) =
    (bytes_eq kind save_kind || bytes_eq kind clear_kind) && is_hex64 identifier

abbrev name_owned : Option (Bytes × Bytes) → Bool
name_owned none = false
name_owned (some (hash, rest)) = is_hex64 hash && kind_owned (split_once (b'.' ∷ []) rest)

-- On Windows: whether a file is a staging file of the store.
unfoldable pub is_owned_temporary_filename : Bytes → Bytes → Bool
is_owned_temporary_filename name suffix = name_owned (split_once (suffix ++ tmp_marker) name)

-- The staging names that saves and clears make on Windows, and the quarantine's names.
abbrev pub staging_name : Bytes → Bytes → Bytes → Bytes → Bytes
staging_name hash suffix kind identifier =
    hash ++ (suffix ++ (tmp_marker ++ (kind ++ (b'.' ∷ identifier))))

abbrev pub quarantine_name : Bytes → Bytes → Bytes → Bytes
quarantine_name hash suffix identifier =
    hash
    ++ (suffix
        ++ ((b'.' ∷ b'q' ∷ b'u' ∷ b'a' ∷ b'r' ∷ b'a' ∷ b'n' ∷ b't' ∷ b'i' ∷ b'n' ∷ b'e' ∷ b'-'
              ∷ b'v' ∷ b'1' ∷ b'.' ∷ [])
            ++ identifier))
