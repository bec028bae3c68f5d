-- ===== src/Stream/Laws.antt =====
-- std::io as src/format.rs uses it: `read_exact` sees the bytes of a reader and not how they are
-- split over the calls, and one long read is two short ones.
use Prim.Native.Nat.add
use atomic_blob_storage.Base.{
  ℕ, zero, suc, ◌+◌, ◌<◌, ◌≡◌, refl, ap, subst, [], ◌∷◌, ◌++◌, length, arith, Bool-cases, inl, inr,
  append_assoc, All,
}
use atomic_blob_storage.Error.{Bytes, IoError, Result, ok, err}
use atomic_blob_storage.Stream.{
  byte, split, ends, fails, Reader, read, read_exact, is_interrupted, after_bytes,
}

-- The bytes that the reader gives before anything else happens.
abbrev pub content : Reader → Bytes
content [] = []
content (byte b ∷ r) = b ∷ content r
content (split ∷ r) = content r
content (ends ∷ r) = []
content (fails e ∷ r) = []

-- A reader over bytes that are all there, whatever the lengths of its reads.
abbrev pub IsClean : Reader → Type 0
IsClean [] = Unit {0}
IsClean (byte b ∷ r) = IsClean r
IsClean (split ∷ r) = IsClean r
IsClean (ends ∷ r) = ⊥
IsClean (fails e ∷ r) = ⊥

abbrev pub Feeds : Reader → Bytes → Type 0
Feeds r xs = IsClean r × (content r ≡ xs)

-- A reader that gives all of `xs` in one call.
abbrev pub from_bytes : Bytes → Reader
from_bytes [] = []
from_bytes (x ∷ xs) = byte x ∷ from_bytes xs

pub from_bytes-Feeds : (xs : Bytes) → Feeds (from_bytes xs) xs
from_bytes-Feeds [] = (tt, refl)
from_bytes-Feeds (x ∷ xs) = let (c, e) = from_bytes-Feeds xs in (c, ap (◌∷◌ x) e)

abbrev pub then_read : Result Bytes IoError × Reader → ℕ → Result Bytes IoError × Reader
then_read (ok xs, r) n = after_bytes xs (read_exact n r)
then_read (err e, r) n = (err e, r)

map_ok_nil : (p : Result Bytes IoError × Reader) → p ≡ after_bytes [] p
map_ok_nil (ok xs, r) = refl
map_ok_nil (err e, r) = refl

then_read-after_bytes :
    (bs : Bytes) (p : Result Bytes IoError × Reader) (n : ℕ)
    → after_bytes bs (then_read p n) ≡ then_read (after_bytes bs p) n
then_read-after_bytes bs (ok xs, r) n = go (read_exact n r)
  where
    go :
        (q : Result Bytes IoError × Reader)
        → after_bytes bs (after_bytes xs q) ≡ after_bytes (bs ++ xs) q
    go (ok ys, s) = rw append_assoc
    go (err e, s) = refl
then_read-after_bytes bs (err e, r) n = refl

-- Also where the reader fails: it does so at the same step, in the same way.
pub read_exact_add : (m n : ℕ) (r : Reader) → read_exact (m + n) r ≡ then_read (read_exact m r) n
unfolding read_exact
read_exact_add zero n r = rw (add.zero n) (map_ok_nil (read_exact n r))
read_exact_add (suc m) n [] = rw (add.suc m n)
read_exact_add (suc m) n (byte b ∷ r) =
    rw (add.suc m n, read_exact_add m n r) (then_read-after_bytes (b ∷ []) (read_exact m r) n)
read_exact_add (suc m) n (split ∷ r) =
    rw (add.suc m n) (rw (add.suc m n) at (read_exact_add (suc m) n r))
read_exact_add (suc m) n (ends ∷ r) = rw (add.suc m n)
read_exact_add (suc m) n (fails e ∷ r) =
    let again = rw (add.suc m n) at (read_exact_add (suc m) n r) in
    rw (add.suc m n)
      (elim (Bool-cases (is_interrupted e.kind)) [ inl h ↦ rw h again | inr h ↦ rw h ])

pub read_exact-Feeds :
    (n : ℕ) (r : Reader) (xs ys : Bytes)
    → Feeds r (xs ++ ys)
    → length xs ≡ n
    → (r' : Reader) × (read_exact n r ≡ (ok xs, r')) × Feeds r' ys
unfolding read_exact
read_exact-Feeds zero r [] ys f e = (r, refl, f)
read_exact-Feeds zero r (x ∷ xs) ys f e = absurd (omega arith)
read_exact-Feeds (suc n) r [] ys f e = absurd (omega arith)
read_exact-Feeds (suc n) [] (x ∷ xs) ys f e = cc (f.1)
read_exact-Feeds (suc n) (byte b ∷ r) (x ∷ xs) ys f e =
    let (r', eq, f') = read_exact-Feeds n r xs ys (f.0, ground arith) (omega arith) in
    (r', rw eq (ap (λ c. (ok (c ∷ xs), r')) (ground arith)), f')
read_exact-Feeds (suc n) (split ∷ r) (x ∷ xs) ys f e = read_exact-Feeds (suc n) r (x ∷ xs) ys f e
read_exact-Feeds (suc n) (ends ∷ r) (x ∷ xs) ys f e = absurd f.0
read_exact-Feeds (suc n) (fails h ∷ r) (x ∷ xs) ys f e = absurd f.0

after_bytes-eq-ok :
    (bs : Bytes) (p : Result Bytes IoError × Reader) (xs : Bytes) (r : Reader)
    → after_bytes bs p ≡ (ok xs, r)
    → (ys : Bytes) × (p ≡ (ok ys, r)) × (xs ≡ bs ++ ys)
after_bytes-eq-ok bs (ok ys, r') xs r e = (ys, ground arith, ground arith)
after_bytes-eq-ok bs (err h, r') xs r e = cc

pub read_exact-eq-ok :
    (n : ℕ) (r r' : Reader) (xs : Bytes)
    → IsClean r
    → read_exact n r ≡ (ok xs, r')
    → IsClean r' × (content r ≡ xs ++ content r') × (length xs ≡ n)
unfolding read_exact
read_exact-eq-ok zero r r' xs c e =
    let same : r ≡ r' = ground arith in
    let none_read : [] ≡ xs = ground arith in
    (subst IsClean same c, rw (← same, ← none_read), rw (← none_read))
read_exact-eq-ok (suc n) [] r' xs c e = cc
read_exact-eq-ok (suc n) (byte b ∷ r) r' xs c e =
    let (ys, eq, cons) = after_bytes-eq-ok (b ∷ []) (read_exact n r) xs r' e in
    let (c', split_lem, len) = read_exact-eq-ok n r r' ys c eq in
    (c', rw (cons, split_lem), rw cons (ap suc len))
read_exact-eq-ok (suc n) (split ∷ r) r' xs c e = read_exact-eq-ok (suc n) r r' xs c e
read_exact-eq-ok (suc n) (ends ∷ r) r' xs c e = absurd c
read_exact-eq-ok (suc n) (fails h ∷ r) r' xs c e = absurd c

-- The check for the end of the file: one byte is asked for, and none comes.
pub read_one-Feeds_nil : (r : Reader) → Feeds r [] → (r' : Reader) × (read 1 r ≡ (ok [], r'))
unfolding read
read_one-Feeds_nil [] f = ([], refl)
read_one-Feeds_nil (byte b ∷ r) f = cc (f.1)
read_one-Feeds_nil (split ∷ r) f = read_one-Feeds_nil r f
read_one-Feeds_nil (ends ∷ r) f = absurd f.0
read_one-Feeds_nil (fails h ∷ r) f = absurd f.0

pub read_one-eq-nil : (r r' : Reader) → IsClean r → read 1 r ≡ (ok [], r') → content r ≡ []
unfolding read
read_one-eq-nil [] r' c e = refl
read_one-eq-nil (byte b ∷ r) r' c e = cc
read_one-eq-nil (split ∷ r) r' c e = read_one-eq-nil r r' c e
read_one-eq-nil (ends ∷ r) r' c e = absurd c
read_one-eq-nil (fails h ∷ r) r' c e = absurd c

-- Every step that gives a byte gives one.
abbrev pub AreBytes : Reader → Type 0
AreBytes [] = Unit {0}
AreBytes (byte b ∷ r) = (b < 256) × AreBytes r
AreBytes (split ∷ r) = AreBytes r
AreBytes (ends ∷ r) = AreBytes r
AreBytes (fails e ∷ r) = AreBytes r

pub read_exact-bytes :
    (n : ℕ) (r r' : Reader) (xs : Bytes)
    → AreBytes r
    → read_exact n r ≡ (ok xs, r')
    → All (λ b. b < 256) xs × (length xs ≡ n)
unfolding read_exact
read_exact-bytes zero r r' xs h e =
    let none_read : [] ≡ xs = ground arith in rw (← none_read) (tt, refl)
read_exact-bytes (suc n) [] r' xs h e = cc
read_exact-bytes (suc n) (byte b ∷ r) r' xs h e =
    let (ys, eq, cons) = after_bytes-eq-ok (b ∷ []) (read_exact n r) xs r' e in
    let (good, len) = read_exact-bytes n r r' ys h.1 eq in rw cons ((h.0, good), ap suc len)
read_exact-bytes (suc n) (split ∷ r) r' xs h e = read_exact-bytes (suc n) r r' xs h e
read_exact-bytes (suc n) (ends ∷ r) r' xs h e = cc
read_exact-bytes (suc n) (fails x ∷ r) r' xs h e = elim (Bool-cases (is_interrupted x.kind)) [
  | inl again ↦ read_exact-bytes (suc n) r r' xs h (rw again at e)
  | inr stop ↦ ground arith
]

pub read_exact-AreBytes : (n : ℕ) (r : Reader) → AreBytes r → AreBytes (read_exact n r).1
unfolding read_exact
read_exact-AreBytes zero r h = h
read_exact-AreBytes (suc n) [] h = tt
read_exact-AreBytes (suc n) (byte b ∷ r) h = read_exact-AreBytes n r h.1
read_exact-AreBytes (suc n) (split ∷ r) h = read_exact-AreBytes (suc n) r h
read_exact-AreBytes (suc n) (ends ∷ r) h = h
read_exact-AreBytes (suc n) (fails x ∷ r) h = elim (Bool-cases (is_interrupted x.kind)) [
  | inl again ↦ rw again (read_exact-AreBytes (suc n) r h)
  | inr stop ↦ rw stop h
]

pub read_exact-length :
    (n : ℕ) (r r' : Reader) (xs : Bytes) → read_exact n r ≡ (ok xs, r') → length xs ≡ n
unfolding read_exact
read_exact-length zero r r' xs e = ap length (let none_read : xs ≡ [] = ground arith in none_read)
read_exact-length (suc n) [] r' xs e = cc
read_exact-length (suc n) (byte b ∷ r) r' xs e =
    let (ys, eq, cons) = after_bytes-eq-ok (b ∷ []) (read_exact n r) xs r' e in
    rw cons (ap suc (read_exact-length n r r' ys eq))
read_exact-length (suc n) (split ∷ r) r' xs e = read_exact-length (suc n) r r' xs e
read_exact-length (suc n) (ends ∷ r) r' xs e = cc
read_exact-length (suc n) (fails x ∷ r) r' xs e = elim (Bool-cases (is_interrupted x.kind)) [
  | inl again ↦ read_exact-length (suc n) r r' xs (rw again at e)
  | inr stop ↦ ground arith
]
