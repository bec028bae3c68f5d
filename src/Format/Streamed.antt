-- ===== src/Format/Streamed.antt =====
-- src/format.rs: write_stream_envelope against encode_envelope.
use atomic_blob_storage.Base.{
  ℕ, ◌+◌, ◌≤◌, ◌<◌, ◌≡◌, refl, ap, ◌++◌, length, List, [], ◌∷◌, Option, none, some, arith,
  append_assoc, append-nil, length-append, to_be,
}
use atomic_blob_storage.Error.{Bytes, ok}
use atomic_blob_storage.Config.{BlobFormatIdentity, u64_limit}
use atomic_blob_storage.Stream.{Writer, write_all}
use atomic_blob_storage.Format.Crc.{Crc32c, IsCrc32c}
use atomic_blob_storage.Format.Encode.{
  SaveStreamMessage, chunk, complete, envelope_header, write_chunks, write_stream_envelope,
}
use atomic_blob_storage.Format.Layout.{header, layout, header-append}

-- The bytes that the messages carry up to the end marker; none where the sender is dropped before.
abbrev pub transfer : List SaveStreamMessage → Option Bytes
transfer [] = none
transfer (chunk bs ∷ ms) = elim (transfer ms) [ none ↦ none | some more ↦ some (bs ++ more) ]
transfer (complete ∷ ms) = some []

pub write_all-written :
    (bs : Bytes) (w : Writer)
    → (write_all bs w).0 ≡ ok tt
    → (write_all bs w).1.written ≡ w.written ++ bs
unfolding write_all
write_all-written bs w h = ground arith

write_all-healthy :
    (bs : Bytes) (w : Writer)
    → w.failures ≡ []
    → write_all bs w ≡ (ok tt, record { written = w.written ++ bs; failures = [] })
unfolding write_all
write_all-healthy bs w h = rw (h, write_all)

transfer-chunk :
    (bs : Bytes) (ms : List SaveStreamMessage) (p : Bytes)
    → transfer (chunk bs ∷ ms) ≡ some p
    → (more : Bytes) × (transfer ms ≡ some more) × (p ≡ bs ++ more)
transfer-chunk bs ms p e = go (transfer ms) refl e
  where
    go :
        (o : Option Bytes)
        → transfer ms ≡ o
        → ◌≡◌ {A = Option Bytes} (elim o [ none ↦ none | some more ↦ some (bs ++ more) ]) (some p)
        → (more : Bytes) × (transfer ms ≡ some more) × (p ≡ bs ++ more)
    go none h k = cc
    go (some more) h k = (more, h, ground arith)

module _ (c : Crc32c) (laws : IsCrc32c c) (declared : ℕ) where
  write_chunks-ok :
      (ms : List SaveStreamMessage) (seen : Bytes) (written : ℕ) (w : Writer)
      → (write_chunks c declared ms (c.crc32c seen) written w).0 ≡ ok tt
      → (p : Bytes) × (transfer ms ≡ some p)
        × (written + length p ≡ declared)
        × ((write_chunks c declared ms (c.crc32c seen) written w).1.written
            ≡ w.written ++ (p ++ to_be 4 (c.crc32c (seen ++ p))))
  unfolding write_chunks
  write_chunks-ok [] seen written w h = cc
  write_chunks-ok (complete ∷ ms) seen written w h = (
    [],
    refl,
    ground arith,
    rw (append-nil seen) (ground (arith, write_all-written (to_be 4 (c.crc32c seen)) w)),
  )
  write_chunks-ok (chunk bs ∷ ms) seen written w h =
      let next = (write_all bs w).1 in
      let (p, e, len, out) =
        write_chunks-ok ms (seen ++ bs) (written + length bs) next
          (ground (arith, laws.crc32c_append-crc32c seen bs)) in
      let sum : Bytes = to_be 4 (c.crc32c ((seen ++ bs) ++ p)) in
      (
        bs ++ p,
        rw e,
        omega (arith, length-append bs p),
        ground (
          arith,
          laws.crc32c_append-crc32c seen bs,
          write_all-written bs w,
          append_assoc seen bs p,
          append_assoc bs p sum,
          append_assoc w.written bs (p ++ sum),
        ),
      )

  write_chunks-healthy :
      (ms : List SaveStreamMessage) (seen : Bytes) (written : ℕ) (w : Writer) (p : Bytes)
      → transfer ms ≡ some p
      → written + length p ≡ declared
      → declared < u64_limit
      → w.failures ≡ []
      → write_chunks c declared ms (c.crc32c seen) written w ≡ (
        ok tt,
        record { written = w.written ++ (p ++ to_be 4 (c.crc32c (seen ++ p))); failures = [] },
      )
  unfolding write_chunks
  write_chunks-healthy [] seen written w p e len small calm = cc
  write_chunks-healthy (complete ∷ ms) seen written w p e len small calm =
      let whole : [] ≡ p = ground arith in
      rw (← whole, append-nil seen)
        (ground (arith, ap length whole, write_all-healthy (to_be 4 (c.crc32c seen)) w calm))
  write_chunks-healthy (chunk bs ∷ ms) seen written w p e len small calm =
      let (more, e', whole) = transfer-chunk bs ms p e in
      let sum : Bytes = to_be 4 (c.crc32c ((seen ++ bs) ++ more)) in
      ground (
        arith,
        whole,
        ap length whole,
        length-append bs more,
        laws.crc32c_append-crc32c seen bs,
        write_all-healthy bs w calm,
        append_assoc seen bs more,
        append_assoc bs more sum,
        append_assoc w.written bs (more ++ sum),
        write_chunks-healthy ms (seen ++ bs) (written + length bs)
            (record { written = w.written ++ bs; failures = [] }) more e'
            (omega (arith, ap length whole, length-append bs more)) small refl,
      )

module _ (c : Crc32c) (f : BlobFormatIdentity) (maximum declared : ℕ) (ms : List SaveStreamMessage)
    (w : Writer) where
  -- A streamed write that succeeds has appended exactly the envelope of the bytes that came before
  -- the end marker, and there were as many as declared, within the maximum.
  pub write_stream_envelope-ok :
      IsCrc32c c
      → (write_stream_envelope c f maximum w declared ms).0 ≡ ok tt
      → (p : Bytes) × (transfer ms ≡ some p)
        × (length p ≡ declared)
        × (declared ≤ maximum)
        × ((write_stream_envelope c f maximum w declared ms).1.written ≡ w.written ++ layout c f p)
  unfolding write_stream_envelope envelope_header
  write_stream_envelope-ok laws h =
      let h0 = header f declared in
      let (p, e, len, out) =
        write_chunks-ok c laws declared ms h0 0 (write_all h0 w).1 (ground arith) in
      let sum : Bytes = to_be 4 (c.crc32c (h0 ++ p)) in
      (
        p,
        e,
        omega arith,
        ground arith,
        ground (
          arith,
          write_all-written h0 w,
          append_assoc w.written h0 (p ++ sum),
          header-append f declared (p ++ sum),
        ),
      )

  -- On a writer that does not fail, sending a payload of the declared length, within the maximum
  -- and shorter than 2^64, in any chunks and then the end marker succeeds, and appends the
  -- envelope of the payload.
  pub write_stream_envelope-healthy :
      (p : Bytes)
      → IsCrc32c c
      → transfer ms ≡ some p
      → length p ≡ declared
      → declared ≤ maximum
      → declared < u64_limit
      → w.failures ≡ []
      → write_stream_envelope c f maximum w declared ms
        ≡ (ok tt, record { written = w.written ++ layout c f p; failures = [] })
  unfolding write_stream_envelope envelope_header
  write_stream_envelope-healthy p laws e len fits small calm =
      let h0 = header f declared in
      let sum : Bytes = to_be 4 (c.crc32c (h0 ++ p)) in
      ground (
        arith,
        len,
        write_all-healthy h0 w calm,
        append_assoc w.written h0 (p ++ sum),
        header-append f declared (p ++ sum),
        write_chunks-healthy c laws declared ms h0 0
            (record { written = w.written ++ h0; failures = [] }) p e (omega arith) small refl,
      )
