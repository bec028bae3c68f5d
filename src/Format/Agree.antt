-- ===== src/Format/Agree.antt =====
-- src/format.rs: the reader that checks in constant memory and the reader that decodes agree.
use atomic_blob_storage.Base.{
  ℕ, zero, suc, ◌+◌, ◌-◌, ◌≤◌, ◌<◌, ◌≡◌, refl, ap, sym, subst, ◌∙◌, ◌++◌, length, min, arith,
  ==_iff, ◌==◌, Bool-cases, inl, inr, append_assoc, to_be, from_be, to_be-from_be, append-nil,
  bytes_eq_iff,
}
use atomic_blob_storage.Error.{
  Bytes, IoError, EnvelopeSection, BlobMetadata, Result, ok, err, Outcome, map_err, map_ok,
}
use atomic_blob_storage.Config.{BlobFormatIdentity, u64_limit, stream_chunk_size}
use atomic_blob_storage.Stream.{Reader, read_exact, after_bytes}
use atomic_blob_storage.Stream.Laws.{
  AreBytes, then_read, read_exact_add, read_exact-bytes, read_exact-AreBytes,
}
use atomic_blob_storage.Format.Accepts.{crc32c_pieces}
use atomic_blob_storage.Format.Sections.{value, IsOk, read_section-length}
use atomic_blob_storage.Format.Crc.{Crc32c, IsCrc32c}
use atomic_blob_storage.Format.Decode.{
  ReaderM, continue, read_section, section_error, checksum_payload, validate_envelope_reader,
  decode_reader_with_usize_limit,
}

abbrev more_bytes : Bytes → Outcome Bytes × Reader → Outcome Bytes × Reader
more_bytes xs (o, r) = (map_ok (λ ys. xs ++ ys) o, r)

-- A section can be read in two parts, also where the reader fails.
read_section_add :
    (m n : ℕ) (s : EnvelopeSection) (r : Reader)
    → read_section (m + n) s r
      ≡ continue (read_section m s r) (λ xs r'. more_bytes xs (read_section n s r'))
unfolding read_section
read_section_add m n s r = rw (read_exact_add m n r) (go (read_exact m r))
  where
    inner :
        (xs : Bytes) (q : Result Bytes IoError × Reader)
        → ◌≡◌ {A = Outcome Bytes × Reader}
            (map_err (section_error s) (after_bytes xs q).0, (after_bytes xs q).1)
            (more_bytes xs (map_err (section_error s) q.0, q.1))
    inner xs (ok ys, r') = refl
    inner xs (err e, r') = refl

    go :
        (p : Result Bytes IoError × Reader)
        → ◌≡◌ {A = Outcome Bytes × Reader}
            (map_err (section_error s) (then_read p n).0, (then_read p n).1)
            (continue
              (map_err (section_error s) p.0, p.1)
              (λ xs r'. more_bytes xs (read_section n s r')))
    go (ok xs, r') = inner xs (read_exact n r')
    go (err e, r') = refl

abbrev sum_of : Crc32c → Bytes → Bytes → ReaderM ℕ
sum_of c seen p r = (ok (c.crc32c (seen ++ p)), r)

sum_of_none :
    (c : Crc32c) (n : ℕ) (seen : Bytes) (r : Reader)
    → n ≡ 0
    → (ok (c.crc32c seen), r) ≡ continue (read_section n EnvelopeSection.payload r) (sum_of c seen)
unfolding read_section read_exact
sum_of_none c n seen r e = rw e (ap (λ bs. (ok (c.crc32c bs), r)) (sym (append-nil seen)))

-- Behind a first part, the rest of the payload is summed by `rest`.
sum_of_parts :
    (c : Crc32c) (m k : ℕ) (seen : Bytes) (r : Reader) (rest : ℕ → ReaderM ℕ)
    → IsCrc32c c
    → ((seen' : Bytes) (r' : Reader)
        → rest (c.crc32c seen') r'
          ≡ continue (read_section k EnvelopeSection.payload r') (sum_of c seen'))
    → continue
        (read_section m EnvelopeSection.payload r)
        (λ buffer. rest (c.crc32c_append (c.crc32c seen) buffer))
      ≡ continue (read_section (m + k) EnvelopeSection.payload r) (sum_of c seen)
sum_of_parts c m k seen r rest laws ih =
    rw (read_section_add m k EnvelopeSection.payload r)
      (go (read_section m EnvelopeSection.payload r))
  where
    inner :
        (xs : Bytes) (q : Outcome Bytes × Reader)
        → continue q (sum_of c (seen ++ xs)) ≡ continue (more_bytes xs q) (sum_of c seen)
    inner xs (ok ys, r') = rw append_assoc
    inner xs (err e, r') = refl

    go :
        (p : Outcome Bytes × Reader)
        → continue p (λ buffer. rest (c.crc32c_append (c.crc32c seen) buffer))
          ≡ continue
              (continue p (λ xs r'. more_bytes xs (read_section k EnvelopeSection.payload r')))
              (sum_of c seen)
    go (ok xs, r') =
        rw (laws.crc32c_append-crc32c seen xs)
          (ih (seen ++ xs) r' ∙ inner xs (read_section k EnvelopeSection.payload r'))
    go (err e, r') = refl

-- The loop over the chunks computes what one read of the whole payload would, also where the reader
-- fails; as many rounds as bytes remain are enough.
checksum_payload-whole :
    (c : Crc32c) (fuel remaining : ℕ) (seen : Bytes) (r : Reader)
    → IsCrc32c c
    → remaining ≤ fuel
    → checksum_payload c fuel remaining (c.crc32c seen) r
      ≡ continue (read_section remaining EnvelopeSection.payload r) (sum_of c seen)
unfolding checksum_payload
checksum_payload-whole c zero remaining seen r laws h = sum_of_none c remaining seen r (omega arith)
checksum_payload-whole c (suc fuel) remaining seen r laws h = elim (Bool-cases (remaining == 0)) [
  | inl done ↦ rw (done, checksum_payload) (sum_of_none c remaining seen r ((==_iff _ _).0 done))
  | inr more ↦
      let m : ℕ = min remaining stream_chunk_size in
      let all_of : m + (remaining - m) ≡ remaining = ground arith in
      rw (more, checksum_payload)
        (subst
          (λ n.
            continue (read_section m EnvelopeSection.payload r) (λ buffer.
              checksum_payload c fuel (remaining - m) (c.crc32c_append (c.crc32c seen) buffer))
            ≡ continue (read_section n EnvelopeSection.payload r) (sum_of c seen))
          all_of
          (sum_of_parts c m (remaining - m) seen r (checksum_payload c fuel (remaining - m)) laws
            (λ seen' r'.
              checksum_payload-whole c fuel (remaining - m) seen' r' laws (ground arith))))
]

-- No buffer of that many bytes can be allocated.
abbrev pub isize_limit : ℕ
isize_limit = 9223372036854775808

abbrev pub metadata : Bytes → BlobMetadata
metadata p = record { payload_len = length p }

section-to_be :
    (n : ℕ) (s : EnvelopeSection) (r : Reader)
    → AreBytes r
    → IsOk (read_section n s r).0
    → to_be n (from_be (value (read_section n s r).0)) ≡ value (read_section n s r).0
unfolding read_section
section-to_be n s r h = go (read_exact n r) refl
  where
    go :
        (p : Result Bytes IoError × Reader)
        → read_exact n r ≡ p
        → IsOk (map_err (section_error s) p.0)
        → to_be n (from_be (value (map_err (section_error s) p.0)))
          ≡ value (map_err (section_error s) p.0)
    go (ok bs, r') e k =
        let (good, len) = read_exact-bytes n r r' bs h e in
        subst (λ m. to_be m (from_be bs) ≡ bs) len (to_be-from_be bs good)
    go (err x, r') e k = cc

section-AreBytes :
    (n : ℕ) (s : EnvelopeSection) (r : Reader) → AreBytes r → AreBytes (read_section n s r).1
unfolding read_section
section-AreBytes n s r h = read_exact-AreBytes n r h

-- What the theorem below says where no allocation fails.
pub validate-decoded :
    (c : Crc32c) (f : BlobFormatIdentity) (maximum : ℕ) (r : Reader)
    → IsCrc32c c
    → AreBytes r
    → maximum + 22 < u64_limit
    → validate_envelope_reader c f maximum r ≡ (
      map_ok metadata (decode_reader_with_usize_limit c f maximum (u64_limit - 1) r).0,
      (decode_reader_with_usize_limit c f maximum (u64_limit - 1) r).1,
    )
unfolding validate_envelope_reader decode_reader_with_usize_limit
validate-decoded c f maximum r laws good fits =
    let t1 = read_section 8 EnvelopeSection.magic r in
    let t2 = read_section 2 EnvelopeSection.version t1.1 in
    let t3 = read_section 8 EnvelopeSection.payload_length t2.1 in
    let t4 = read_section (from_be (value t3.0)) EnvelopeSection.payload t3.1 in
    let good1 = section-AreBytes 8 EnvelopeSection.magic r good in
    let good2 = section-AreBytes 2 EnvelopeSection.version t1.1 good1 in
    ground (
      arith,
      bytes_eq_iff (value t1.0) f.domain_tag,
      section-to_be 2 EnvelopeSection.version t1.1 good1,
      section-to_be 8 EnvelopeSection.payload_length t2.1 good2,
      checksum_payload-whole c (from_be (value t3.0)) (from_be (value t3.0))
          (value t1.0 ++ (value t2.0 ++ value t3.0)) t3.1 laws,
      read_section-length (from_be (value t3.0)) EnvelopeSection.payload t3.1,
      crc32c_pieces c f.domain_tag (to_be 2 f.envelope_version) (to_be 8 (from_be (value t3.0)))
          (value t4.0) laws,
    )

-- On every reader of bytes, failing ones included, and with a maximum below 2^63, so that a buffer
-- for the payload can be asked for, validating an envelope succeeds or fails exactly as decoding
-- it does, with the same error and at the same place, and reports the payload's length.
pub validate-decode :
    (c : Crc32c) (f : BlobFormatIdentity) (maximum : ℕ) (r : Reader)
    → IsCrc32c c
    → AreBytes r
    → maximum < isize_limit
    → validate_envelope_reader c f maximum r ≡ (
      map_ok metadata (decode_reader_with_usize_limit c f maximum (u64_limit - 1) r).0,
      (decode_reader_with_usize_limit c f maximum (u64_limit - 1) r).1,
    )
validate-decode c f maximum r laws good small =
    validate-decoded c f maximum r laws good (omega arith)
