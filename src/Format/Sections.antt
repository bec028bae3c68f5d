-- ===== src/Format/Sections.antt =====
-- src/format.rs: read_section and the check for the end, on a reader that does not fail.
use atomic_blob_storage.Base.{ℕ, ◌≡◌, refl, ◌++◌, length, [], ◌∷◌, arith}
use atomic_blob_storage.Error.{Bytes, IoError, EnvelopeSection, Result, ok, err, Outcome, map_err}
use atomic_blob_storage.Stream.{Reader, read, read_exact}
use atomic_blob_storage.Stream.Laws.{
  content, IsClean, Feeds, read_exact-Feeds, read_exact-eq-ok, read_exact-length,
  read_one-Feeds_nil, read_one-eq-nil,
}
use atomic_blob_storage.Format.Decode.{read_section, expect_end, section_error, end_result}

pub read_section-Feeds :
    (n : ℕ) (s : EnvelopeSection) (r : Reader) (xs ys : Bytes)
    → Feeds r (xs ++ ys)
    → length xs ≡ n
    → (r' : Reader) × (read_section n s r ≡ (ok xs, r')) × Feeds r' ys
unfolding read_section
read_section-Feeds n s r xs ys f e =
    let (r', eq, f') = read_exact-Feeds n r xs ys f e in (r', rw eq, f')

pub read_section-eq-ok :
    (n : ℕ) (s : EnvelopeSection) (r r' : Reader) (xs : Bytes)
    → IsClean r
    → read_section n s r ≡ (ok xs, r')
    → IsClean r' × (content r ≡ xs ++ content r') × (length xs ≡ n)
unfolding read_section
read_section-eq-ok n s r r' xs c e = read_exact-eq-ok n r r' xs c (go (read_exact n r) e)
  where
    go :
        (p : Result Bytes IoError × Reader)
        → ◌≡◌ {A = Outcome Bytes × Reader} (map_err (section_error s) p.0, p.1) (ok xs, r')
        → p ≡ (ok xs, r')
    go (ok ys, q) h = ground arith
    go (err x, q) h = cc

pub expect_end-Feeds_nil : (r : Reader) → Feeds r [] → (r' : Reader) × (expect_end r ≡ (ok tt, r'))
unfolding expect_end
expect_end-Feeds_nil r f = let (r', eq) = read_one-Feeds_nil r f in (r', rw eq)

pub expect_end-eq-ok : (r r' : Reader) → IsClean r → expect_end r ≡ (ok tt, r') → content r ≡ []
unfolding expect_end
expect_end-eq-ok r r' c e = read_one-eq-nil r r' c (go (read 1 r) e)
  where
    go :
        (p : Result Bytes IoError × Reader)
        → ◌≡◌ {A = Outcome (Unit {0}) × Reader} (end_result p.0, p.1) (ok tt, r')
        → p ≡ (ok [], r')
    go (ok [], q) h = ground arith
    go (ok (y ∷ ys), q) h = cc
    go (err x, q) h = cc

-- The bytes of a successful read.
abbrev pub value : Outcome Bytes → Bytes
value (ok bs) = bs
value (err e) = []

abbrev pub IsOk : Outcome Bytes → Type 0
IsOk o = o ≡ ok (value o)

pub read_section-length :
    (n : ℕ) (s : EnvelopeSection) (r : Reader)
    → IsOk (read_section n s r).0
    → length (value (read_section n s r).0) ≡ n
unfolding read_section
read_section-length n s r h = go (read_exact n r) refl h
  where
    go :
        (p : Result Bytes IoError × Reader)
        → read_exact n r ≡ p
        → IsOk (map_err (section_error s) p.0)
        → length (value (map_err (section_error s) p.0)) ≡ n
    go (ok bs, r') e k = read_exact-length n r r' bs e
    go (err x, r') e k = cc
