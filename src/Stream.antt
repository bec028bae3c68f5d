-- ===== src/Stream.antt =====
-- The ends of a stream, as src/format.rs and src/blocking.rs use std::io: `impl Read` as the list of
-- what its calls will give, `impl Write` as what was written with the failures to come.
pub mod Laws
use atomic_blob_storage.Base.{
  ℕ, zero, suc, Bool, true, false, List, [], ◌∷◌, ◌++◌, take, Option, none, some, if◌then◌else◌,
}
use atomic_blob_storage.Error.{Bytes, IoError, ErrorKind, Result, ok, err, map_ok}

-- What the calls of `read` give, a byte at a time: `split` ends the bytes of one call, `ends` is a
-- call that returns no byte, and behind the last step every call returns none.
pub data ReadStep : Type 0 where
  byte : ℕ → ReadStep
  split ends : ReadStep
  fails : IoError → ReadStep

abbrev pub Reader : Type 0
Reader = List ReadStep

-- The bytes that stand ready for the same call, at most `n`.
unfoldable pub ready : ℕ → Reader → Bytes × Reader
ready zero r = ([], r)
ready (suc n) [] = ([], [])
ready (suc n) (byte b ∷ r) = let (bs, r') = ready n r in (b ∷ bs, r')
ready (suc n) (split ∷ r) = ([], r)
ready (suc n) (ends ∷ r) = ([], ends ∷ r)
ready (suc n) (fails e ∷ r) = ([], fails e ∷ r)

-- `Read::read` into a buffer of `n` bytes.
unfoldable pub read : ℕ → Reader → Result Bytes IoError × Reader
unfolding ready
read zero r = (ok [], r)
read (suc n) [] = (ok [], [])
read (suc n) (byte b ∷ r) = let (bs, r') = ready n r in (ok (b ∷ bs), r')
read (suc n) (split ∷ r) = read (suc n) r
read (suc n) (ends ∷ r) = (ok [], r)
read (suc n) (fails e ∷ r) = (err e, r)

abbrev pub is_interrupted : ErrorKind → Bool
is_interrupted ErrorKind.interrupted = true
is_interrupted k = false

abbrev pub eof_error : IoError
eof_error = record { kind = ErrorKind.unexpected_eof; raw_os_error = 0 }

abbrev pub after_bytes : Bytes → Result Bytes IoError × Reader → Result Bytes IoError × Reader
after_bytes bs (res, r) = (map_ok (λ more. bs ++ more) res, r)

-- `Read::read_exact` into a buffer of `n` bytes: it calls `read` until the buffer is full, and
-- retries an interrupted call.
unfoldable pub read_exact : ℕ → Reader → Result Bytes IoError × Reader
read_exact zero r = (ok [], r)
read_exact (suc n) [] = (err eof_error, [])
read_exact (suc n) (byte b ∷ r) = after_bytes (b ∷ []) (read_exact n r)
read_exact (suc n) (split ∷ r) = read_exact (suc n) r
read_exact (suc n) (ends ∷ r) = (err eof_error, r)
read_exact (suc n) (fails e ∷ r) =
    let again = read_exact (suc n) r in if is_interrupted e.kind then again else (err e, r)

-- A writer: what it holds, and for each coming `write_all` the failure that it meets, if any, with
-- the number of bytes that were written before.
pub record Writer : Type 0 where
  pub written : Bytes
  pub failures : List (Option (ℕ × IoError))

write_next : Bytes → Bytes → List (Option (ℕ × IoError)) → Result (Unit {0}) IoError × Writer
write_next bs old [] = (ok tt, record { written = old ++ bs; failures = [] })
write_next bs old (none ∷ rest) = (ok tt, record { written = old ++ bs; failures = rest })
write_next bs old (some (n, e) ∷ rest) =
    (err e, record { written = old ++ take n bs; failures = rest })

unfoldable pub write_all : Bytes → Writer → Result (Unit {0}) IoError × Writer
unfolding write_next
write_all bs w = write_next bs w.written w.failures
