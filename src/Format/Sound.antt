-- ===== src/Format/Sound.antt =====
-- src/format.rs: what is decoded was encoded.
use atomic_blob_storage.Base.{
  ℕ, ◌≤◌, ◌≡◌, ap, ◌∙◌, ◌++◌, length, arith, to_be, from_be, to_be-from_be, bytes_eq_iff,
  append-nil, All, IsByte, All-append_left, All-append_right, subst,
}
use atomic_blob_storage.Error.{Bytes, EnvelopeSection, ok, Outcome}
use atomic_blob_storage.Config.{BlobFormatIdentity}
use atomic_blob_storage.Stream.{Reader}
use atomic_blob_storage.Stream.Laws.{content, IsClean}
use atomic_blob_storage.Format.Crc.{Crc32c, IsCrc32c}
use atomic_blob_storage.Format.Decode.{read_section, expect_end, decode_reader_with_usize_limit}
use atomic_blob_storage.Format.Layout.{header, layout}
use atomic_blob_storage.Format.Accepts.{crc32c_pieces}
use atomic_blob_storage.Format.Sections.{read_section-eq-ok, expect_end-eq-ok, value, IsOk}

-- What each section of a successful decoding holds.
decode_path :
    (c : Crc32c) (f : BlobFormatIdentity) (maximum limit : ℕ) (r : Reader) (p : Bytes)
    → (decode_reader_with_usize_limit c f maximum limit r).0 ≡ ok p
    → let t1 = read_section 8 EnvelopeSection.magic r in
      let t2 = read_section 2 EnvelopeSection.version t1.1 in
      let t3 = read_section 8 EnvelopeSection.payload_length t2.1 in
      let t4 = read_section (from_be (value t3.0)) EnvelopeSection.payload t3.1 in
      let t5 = read_section 4 EnvelopeSection.checksum t4.1 in
      let t6 = expect_end t5.1 in
      (t1.0 ≡ ok f.domain_tag)
      × (IsOk t2.0)
      × (IsOk t3.0)
      × (t4.0 ≡ ok p)
      × (IsOk t5.0)
      × (t6.0 ≡ ok tt)
      × (from_be (value t2.0) ≡ f.envelope_version)
      × (from_be (value t3.0) ≤ maximum)
      × (from_be (value t3.0) ≤ limit)
      × (from_be (value t5.0)
          ≡ c.crc32c_append
              (c.crc32c_append
                (c.crc32c_append (c.crc32c f.domain_tag) (to_be 2 f.envelope_version))
                (to_be 8 (from_be (value t3.0))))
              p)
unfolding decode_reader_with_usize_limit
decode_path c f maximum limit r p h =
    ground (arith, bytes_eq_iff (value (read_section 8 EnvelopeSection.magic r).0) f.domain_tag)

-- Four sections that pass the decoder's tests are the encoder's.
pieces-layout :
    (c : Crc32c) (f : BlobFormatIdentity) (v size p check : Bytes)
    → IsCrc32c c
    → length v ≡ 2
    → length size ≡ 8
    → length check ≡ 4
    → length p ≡ from_be size
    → from_be v ≡ f.envelope_version
    → from_be check
      ≡ c.crc32c_append
          (c.crc32c_append
            (c.crc32c_append (c.crc32c f.domain_tag) (to_be 2 f.envelope_version))
            (to_be 8 (from_be size)))
          p
    → All IsByte (f.domain_tag ++ (v ++ (size ++ (p ++ check))))
    → f.domain_tag ++ (v ++ (size ++ (p ++ check))) ≡ layout c f p
pieces-layout c f v size p check laws lv ls lc lp is_v sum bytes =
    let b1 = All-append_right IsByte f.domain_tag (v ++ (size ++ (p ++ check))) bytes in
    let bv = All-append_left IsByte v (size ++ (p ++ check)) b1 in
    let b2 = All-append_right IsByte v (size ++ (p ++ check)) b1 in
    let bs = All-append_left IsByte size (p ++ check) b2 in
    let bc = All-append_right IsByte p check (All-append_right IsByte size (p ++ check) b2) in
    let ev : to_be 2 f.envelope_version ≡ v =
      rw (← is_v) (subst (λ n. to_be n (from_be v) ≡ v) lv (to_be-from_be v bv)) in
    let es : to_be 8 (length p) ≡ size =
      rw lp (subst (λ n. to_be n (from_be size) ≡ size) ls (to_be-from_be size bs)) in
    let total : from_be check ≡ c.crc32c (header f (length p) ++ p) =
      sum
      ∙ rw lp (
          crc32c_pieces c f.domain_tag (to_be 2 f.envelope_version) (to_be 8 (from_be size)) p
            laws) in
    let ec : to_be 4 (c.crc32c (header f (length p) ++ p)) ≡ check =
      rw (← total) (subst (λ n. to_be n (from_be check) ≡ check) lc (to_be-from_be check bc)) in
    rw (ec, ev, es)

-- A successful section, with its first component known, as an equation of pairs.
with_reader : (t : Outcome Bytes × Reader) (bs : Bytes) → t.0 ≡ ok bs → t ≡ (ok bs, t.1)
with_reader t bs e = ap (λ o. (o, t.1)) e

-- Where the decoder accepts what a reader of bytes gives that does not fail, all of it is the
-- envelope of the payload that is returned, with nothing before or behind it, and the payload is
-- within both limits.
pub decode-content :
    (c : Crc32c) (f : BlobFormatIdentity) (maximum limit : ℕ) (r : Reader) (p : Bytes)
    → IsCrc32c c
    → IsClean r
    → All IsByte (content r)
    → (decode_reader_with_usize_limit c f maximum limit r).0 ≡ ok p
    → (content r ≡ layout c f p) × (length p ≤ maximum) × (length p ≤ limit)
decode-content c f maximum limit r p laws clean bytes h =
    let (e1, e2, e3, e4, e5, e6, is_version, fits, small, sum) =
      decode_path c f maximum limit r p h in
    let t1 = read_section 8 EnvelopeSection.magic r in
    let t2 = read_section 2 EnvelopeSection.version t1.1 in
    let t3 = read_section 8 EnvelopeSection.payload_length t2.1 in
    let v = value t2.0 in
    let size = value t3.0 in
    let t4 = read_section (from_be size) EnvelopeSection.payload t3.1 in
    let t5 = read_section 4 EnvelopeSection.checksum t4.1 in
    let check = value t5.0 in
    let (c1, b1, l1) =
      read_section-eq-ok 8 EnvelopeSection.magic r t1.1 f.domain_tag clean (with_reader t1 _ e1) in
    let (c2, b2, l2) =
      read_section-eq-ok 2 EnvelopeSection.version t1.1 t2.1 v c1 (with_reader t2 _ e2) in
    let (c3, b3, l3) =
      read_section-eq-ok 8 EnvelopeSection.payload_length t2.1 t3.1 size c2 (with_reader t3 _ e3) in
    let (c4, b4, l4) =
      read_section-eq-ok (from_be size) EnvelopeSection.payload t3.1 t4.1 p c3
        (with_reader t4 _ e4) in
    let (c5, b5, l5) =
      read_section-eq-ok 4 EnvelopeSection.checksum t4.1 t5.1 check c4 (with_reader t5 _ e5) in
    let last =
      expect_end-eq-ok t5.1 (expect_end t5.1).1 c5 (ap (λ o. (o, (expect_end t5.1).1)) e6) in
    let whole : content r ≡ f.domain_tag ++ (v ++ (size ++ (p ++ check))) =
      rw (b1, b2, b3, b4, b5, last, append-nil) in
    (
      whole
          ∙ pieces-layout c f v size p check laws l2 l3 l5 l4 is_version sum
              (subst (All IsByte) whole bytes),
      rw l4 fits,
      rw l4 small,
    )
