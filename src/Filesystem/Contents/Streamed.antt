-- ===== src/Filesystem/Contents/Streamed.antt =====
-- src/format.rs: load_blob_into_sender sends the stored payload.
use atomic_blob_storage.Base.{
  ℕ, zero, suc, ◌+◌, ◌-◌, ◌≤◌, ◌<◌, ◌≡◌, refl, ap, sym, ◌∙◌, inl, inr, min, true, false, List, [],
  ◌∷◌, ◌++◌, length, take, drop, Option, some, ◌==◌, arith, append_assoc, append-nil, length-append,
  length-take, length-drop, length-to_be, to_be, take-append-drop, drop-append_length, Bool-cases,
}
use atomic_blob_storage.Error.{Bytes, FilePath, ok, Outcome, map_ok}
use atomic_blob_storage.Config.{StoreConfig, stream_chunk_size, header_len, u64_limit}
use atomic_blob_storage.Config.Laws.{IsValid}
use atomic_blob_storage.Stream.{Reader, read_exact}
use atomic_blob_storage.Stream.Laws.{content, IsClean, Feeds, AreBytes, read_exact-Feeds}
use atomic_blob_storage.Format.Crc.{Crc32c, IsCrc32c}
use atomic_blob_storage.Format.Decode.{read_section, validate_envelope_reader}
use atomic_blob_storage.Format.Layout.{header, layout, header-append}
use atomic_blob_storage.Format.Accepts.{decode-layout}
use atomic_blob_storage.Format.Agree.{metadata, validate-decoded}
use atomic_blob_storage.Filesystem.System.{System, IsSystem}
use atomic_blob_storage.Filesystem.Load.{
  Consumer, send_payload, send_seeked, send_validated, load_blob_into_sender,
}

-- The bytes of all chunks, in order.
abbrev pub joined : List Bytes → Bytes
joined [] = []
joined (bs ∷ chunks) = bs ++ joined chunks

joined-append : (a b : List Bytes) → joined (a ++ b) ≡ joined a ++ joined b
joined-append [] b = refl
joined-append (bs ∷ a) b =
    ap (◌++◌ bs) (joined-append a b) ∙ sym (append_assoc bs (joined a) (joined b))

-- To a receiver that stays, all of `p` is sent.
abbrev Sends : Bytes → List Bytes → Outcome (Unit {0}) × List Bytes → Type 0
Sends p sent out = (out.0 ≡ ok tt) × (joined out.1 ≡ joined sent ++ p)

length-zero : (p : Bytes) → length p ≡ 0 → p ≡ []
length-zero [] h = refl
length-zero (b ∷ p) h = absurd (omega arith)

Sends-nil : (p : Bytes) (sent : List Bytes) → length p ≡ 0 → Sends p sent (ok tt, sent)
Sends-nil p sent h =
    (refl, sym (append-nil (joined sent)) ∙ ap (◌++◌ (joined sent)) (sym (length-zero p h)))

-- One chunk, where the rest of the loop is known.
send_payload-chunk :
    (fuel remaining n : ℕ) (sent : List Bytes) (r r' : Reader) (p : Bytes)
    → (remaining == 0) ≡ false
    → n ≡ min remaining stream_chunk_size
    → read_exact n r ≡ (ok (take n p), r')
    → Sends
        (drop n p)
        (sent ++ (take n p ∷ []))
        (send_payload fuel (remaining - n) [] (sent ++ (take n p ∷ [])) r')
    → Sends p sent (send_payload (suc fuel) remaining [] sent r)
unfolding send_payload read_section
send_payload-chunk fuel remaining n sent r r' p more size e (good, rest) =
    let whole : joined (sent ++ (take n p ∷ [])) ++ drop n p ≡ joined sent ++ p =
      ap (λ x. x ++ drop n p)
        (joined-append sent (take n p ∷ []) ∙ ap (◌++◌ (joined sent)) (append-nil (take n p)))
      ∙ append_assoc (joined sent) (take n p) (drop n p)
      ∙ ap (◌++◌ (joined sent)) (take-append-drop n p) in
    let step : send_payload (suc fuel) remaining [] sent r
        ≡ send_payload fuel (remaining - n) [] (sent ++ (take n p ∷ [])) r' =
      ground (arith, e, size) in
    (ap (λ o. o.0) step ∙ good, ap (λ o. joined o.1) step ∙ rest ∙ whole)

send_payload-Feeds :
    (fuel remaining : ℕ) (sent : List Bytes) (r : Reader) (p ys : Bytes)
    → Feeds r (p ++ ys)
    → length p ≡ remaining
    → remaining ≤ fuel
    → Sends p sent (send_payload fuel remaining [] sent r)
unfolding send_payload
send_payload-Feeds zero remaining sent r p ys feed len enough = Sends-nil p sent (omega arith)
send_payload-Feeds (suc fuel) remaining sent r p ys feed len enough =
    elim (Bool-cases (remaining == 0)) [
      | inl over ↦ rw (over, send_payload) (Sends-nil p sent (ground arith))
      | inr more ↦
          let n : ℕ = min remaining stream_chunk_size in
          let parted : content r ≡ take n p ++ (drop n p ++ ys) =
            feed.1
            ∙ ap (λ x. x ++ ys) (sym (take-append-drop n p))
            ∙ append_assoc (take n p) (drop n p) ys in
          let (r', e, feed') =
            read_exact-Feeds n r (take n p) (drop n p ++ ys) (feed.0, parted)
              (length-take n p ∙ omega arith) in
          send_payload-chunk fuel remaining n sent r r' p more refl e (
            send_payload-Feeds fuel (remaining - n) (sent ++ (take n p ∷ [])) r' (drop n p) ys feed'
              (length-drop n p ∙ omega arith) (ground arith))
    ]

module _ {W : Type 0} (os : System W) (view : W → FilePath → Option Bytes) (sys : IsSystem os view)
    (c : Crc32c) (laws : IsCrc32c c) (config : StoreConfig) where
  -- Behind the header stands the payload.
  drop-layout :
      (p : Bytes)
      → IsValid config.format
      → drop header_len (layout c config.format p)
        ≡ p ++ to_be 4 (c.crc32c (header config.format (length p) ++ p))
  drop-layout p valid =
      let h = header config.format (length p) in
      let sum : Bytes = to_be 4 (c.crc32c (h ++ p)) in
      let len : length h ≡ header_len =
        simp (length-append, length-to_be) (omega (arith, valid.tag_len)) in
      ap (λ n. drop n (layout c config.format p)) (sym len)
      ∙ ap (drop (length h)) (sym (header-append config.format (length p) (p ++ sum)))
      ∙ drop-append_length h (p ++ sum)

  abbrev patient : Consumer
  patient = record { receives = []; acknowledges = true }

  -- On a lawful system, with a valid identity and a maximum whose envelope fits in a u64: a
  -- streaming load of the envelope of a payload within the maximum, whose file can be opened and
  -- read to its end twice, sends exactly the payload to a receiver that stays and acknowledges,
  -- and reports its length.
  pub load_blob_into_sender-sends :
      (path : FilePath) (p : Bytes) (r r2 : Reader) (w : W)
      → IsValid config.format
      → config.maximum + 22 < u64_limit
      → length p ≤ config.maximum
      → view w path ≡ some (layout c config.format p)
      → (os.open_file path w).0 ≡ ok r
      → IsClean r
      → AreBytes r
      → (os.seek_start path header_len (os.open_file path w).1).0 ≡ ok r2
      → IsClean r2
      → ((load_blob_into_sender os c config path patient w).0.0 ≡ ok (some (metadata p)))
        × (joined (load_blob_into_sender os c config path patient w).0.1 ≡ p)
  unfolding load_blob_into_sender
  load_blob_into_sender-sends path p r r2 w valid wide fits held opened clean bytes sought clean2 =
      let read : some (content r) ≡ some (layout c config.format p) =
        sym (sys.open_file-ok path w r opened clean) ∙ held in
      let same : content r ≡ layout c config.format p = ground arith in
      let kept : view (os.open_file path w).1 path ≡ some (layout c config.format p) =
        ap (λ v. v path) (sys.open_file-view path w) ∙ held in
      let decoded =
        decode-layout c config.format p config.maximum (u64_limit - 1) r laws valid (clean, same)
          fits (omega arith) (omega arith) in
      let validated : (validate_envelope_reader c config.format config.maximum r).0
          ≡ ok (metadata p) =
        ap (λ o. o.0) (validate-decoded c config.format config.maximum r laws bytes wide)
        ∙ ap (map_ok metadata) decoded in
      let behind =
        sys.seek_start-ok path header_len (os.open_file path w).1 r2 (layout c config.format p)
          sought clean2 kept
        ∙ drop-layout p valid in
      let (good, all) =
        send_payload-Feeds (length p) (length p) [] r2 p
          (to_be 4 (c.crc32c (header config.format (length p) ++ p))) (clean2, behind) refl
          (omega arith) in
      rw (opened, validated, sought, good, load_blob_into_sender, send_validated, send_seeked)
        (refl, all)
