-- ===== src/Blocking/Laws.antt =====
-- src/blocking.rs: what save_from sends.
use atomic_blob_storage.Base.{
  ℕ, zero, suc, ◌+◌, ◌-◌, ◌≤◌, ◌<◌, ◌≡◌, refl, ap, sym, ◌∙◌, ◌⊎◌, inl, inr, min, true, List, [],
  ◌∷◌, ◌++◌, length, Option, none, some, ltb, arith, append_assoc, append-nil, length-append,
  Bool-cases, ltb→lt,
}
use atomic_blob_storage.Error.{Bytes, input_ended_early, input_has_trailing_data, ok, err, Outcome}
use atomic_blob_storage.Config.{stream_chunk_size}
use atomic_blob_storage.Stream.{byte, split, ends, fails, Reader, ready, read}
use atomic_blob_storage.Stream.Laws.{content, IsClean}
use atomic_blob_storage.Format.Encode.{SaveStreamMessage, chunk, complete}
use atomic_blob_storage.Format.Streamed.{transfer}
use atomic_blob_storage.Blocking.{
  Sending, all_sent, stopped_with, send_chunks, end_stream, save_from,
}

ready-IsClean :
    (n : ℕ) (r : Reader)
    → IsClean r
    → IsClean (ready n r).1
      × (content r ≡ (ready n r).0 ++ content (ready n r).1)
      × (length (ready n r).0 ≤ n)
unfolding ready
ready-IsClean zero r h = (h, refl, omega arith)
ready-IsClean (suc n) [] h = (tt, refl, omega arith)
ready-IsClean (suc n) (byte b ∷ r) h =
    let (c, e, l) = ready-IsClean n r h in (c, ap (◌∷◌ b) e, omega arith)
ready-IsClean (suc n) (split ∷ r) h = (h, refl, omega arith)
ready-IsClean (suc n) (ends ∷ r) h = absurd h
ready-IsClean (suc n) (fails e ∷ r) h = absurd h

-- A read of a clean reader gives some of its bytes, and none only at its end.
abbrev Gives : ℕ → Reader → Bytes → Reader → Type 0
Gives n r bs r' =
    IsClean r' × (content r ≡ bs ++ content r') × (length bs ≤ n) × (bs ≡ [] → content r ≡ [])

read-clean :
    (n : ℕ) (r : Reader)
    → IsClean r
    → 0 < n
    → (bs : Bytes) × (r' : Reader) × (read n r ≡ (ok bs, r')) × Gives n r bs r'
unfolding read
read-clean zero r h pos = absurd (omega arith)
read-clean (suc n) [] h pos = ([], [], refl, (tt, refl, omega arith, (λ e. refl)))
read-clean (suc n) (byte b ∷ r) h pos =
    let (c, e, l) = ready-IsClean n r h in
    (
      b ∷ (ready n r).0,
      (ready n r).1,
      refl,
      (c, ap (◌∷◌ b) e, omega arith, (λ e. absurd (ground arith))),
    )
read-clean (suc n) (split ∷ r) h pos = read-clean (suc n) r h pos
read-clean (suc n) (ends ∷ r) h pos = absurd h
read-clean (suc n) (fails e ∷ r) h pos = absurd h

abbrev extend : Bytes → Option Bytes → Option Bytes
extend p none = none
extend p (some m) = some (p ++ m)

-- Chunks that carry `p`, whatever is sent behind them.
abbrev Carries : List SaveStreamMessage → Bytes → Type 0
Carries sent p =
    (tail : List SaveStreamMessage) → transfer (sent ++ tail) ≡ extend p (transfer tail)

Carries-nil : Carries [] []
Carries-nil tail = go (transfer tail)
  where
    go : (o : Option Bytes) → o ≡ extend [] o
    go none = refl
    go (some m) = refl

Carries-chunk :
    (bs : Bytes) (sent : List SaveStreamMessage) (p : Bytes)
    → Carries sent p
    → Carries (chunk bs ∷ sent) (bs ++ p)
Carries-chunk bs sent p h tail = go (transfer tail) refl
  where
    go :
        (o : Option Bytes)
        → transfer tail ≡ o
        → transfer (chunk bs ∷ (sent ++ tail)) ≡ extend (bs ++ p) (transfer tail)
    go none e = ground (arith, h tail)
    go (some m) e = ground (arith, h tail, append_assoc bs p m)

-- How the loop over a clean reader ends: with the declared bytes sent, or with the reader at its end.
abbrev Sends : ℕ → ℕ → Reader → Sending × List SaveStreamMessage → Type 0
Sends declared seen r out =
    (r' : Reader) × (sent : List SaveStreamMessage) × (p : Bytes) × IsClean r'
    × (content r ≡ p ++ content r')
    × Carries sent p
    × ((out ≡ (all_sent r' [], sent)) × (seen + length p ≡ declared)
        ⊎ (out ≡ (stopped_with (err (input_ended_early declared (seen + length p))), sent))
          × (content r' ≡ [])
          × (seen + length p < declared))

-- One round that gets bytes, where the rest of the loop is known.
send_chunks-more :
    (fuel declared seen : ℕ) (answer : Outcome (Unit {0})) (r r' : Reader) (b : ℕ) (bs : Bytes)
    → ltb seen declared ≡ true
    → read (min (declared - seen) stream_chunk_size) r ≡ (ok (b ∷ bs), r')
    → content r ≡ (b ∷ bs) ++ content r'
    → Sends declared
        (seen + length (b ∷ bs))
        r'
        (send_chunks fuel declared (seen + length (b ∷ bs)) answer r' [])
    → Sends declared seen r (send_chunks (suc fuel) declared seen answer r [])
unfolding send_chunks
send_chunks-more fuel declared seen answer r r' b bs more e got
      (r'', sent, p, c, rest, carries, final) =
    (
      r'',
      chunk (b ∷ bs) ∷ sent,
      (b ∷ bs) ++ p,
      c,
      got ∙ ap (◌++◌ (b ∷ bs)) rest ∙ sym (append_assoc (b ∷ bs) p (content r'')),
      Carries-chunk (b ∷ bs) sent p carries,
      elim final [
        | inl (out, all) ↦ inl (ground (arith, e, out), ground (arith, length-append bs p))
        | inr (out, over, short) ↦
            let total : seen + length (b ∷ bs) + length p ≡ seen + length ((b ∷ bs) ++ p) =
              ground (arith, length-append bs p) in
            inr (ground (arith, e, out, total), over, ground (arith, length-append bs p))
      ],
    )

send_chunks-clean :
    (fuel declared seen : ℕ) (answer : Outcome (Unit {0})) (r : Reader)
    → IsClean r
    → seen ≤ declared
    → declared ≤ seen + fuel
    → Sends declared seen r (send_chunks fuel declared seen answer r [])
unfolding send_chunks
send_chunks-clean zero declared seen answer r clean low enough =
    (r, [], [], clean, refl, Carries-nil, inl (refl, omega arith))
send_chunks-clean (suc fuel) declared seen answer r clean low enough =
    elim (Bool-cases (ltb seen declared)) [
      | inr over ↦
          (r, [], [], clean, refl, Carries-nil, inl (rw (over, send_chunks) refl, ground arith))
      | inl more ↦
          let lt = ltb→lt seen declared more in
          let (bs, r', e, gives) =
            read-clean (min (declared - seen) stream_chunk_size) r clean (omega arith) in
          go bs r' e gives lt more (λ b bs' c l.
            send_chunks-clean fuel declared (seen + length (b ∷ bs')) answer r' c (omega arith)
              (omega arith))
    ]
  where
    go :
        (bs : Bytes) (r' : Reader)
        → read (min (declared - seen) stream_chunk_size) r ≡ (ok bs, r')
        → Gives (min (declared - seen) stream_chunk_size) r bs r'
        → seen < declared
        → ltb seen declared ≡ true
        → ((b : ℕ) (bs' : Bytes)
            → IsClean r'
            → length (b ∷ bs') ≤ min (declared - seen) stream_chunk_size
            → Sends declared
                (seen + length (b ∷ bs'))
                r'
                (send_chunks fuel declared (seen + length (b ∷ bs')) answer r' []))
        → Sends declared seen r (send_chunks (suc fuel) declared seen answer r [])
    go [] r' e (c, got, l, stop) lt more next = (
      r',
      [],
      [],
      c,
      got,
      Carries-nil,
      inr (rw (more, e, send_chunks) (ground arith), sym got ∙ stop refl, omega arith),
    )
    go (b ∷ bs) r' e (c, got, l, stop) lt more next =
        send_chunks-more fuel declared seen answer r r' b bs more e got (next b bs c l)

Carries-alone : (sent : List SaveStreamMessage) (p : Bytes) → Carries sent p → transfer sent ≡ none
Carries-alone sent p h = ap transfer (sym (append-nil sent)) ∙ h []

abbrev pub Settles :
    ℕ → Outcome (Unit {0}) → Reader → Outcome (Unit {0}) × List SaveStreamMessage → Type 0
Settles declared answer r (result, sent) =
    ((length (content r) ≡ declared) × (result ≡ answer) × (transfer sent ≡ some (content r)))
    ⊎ ((length (content r) < declared)
        × (result ≡ err (input_ended_early declared (length (content r))))
        × (transfer sent ≡ none))
    ⊎ ((declared < length (content r))
        × (result ≡ err (input_has_trailing_data declared))
        × (transfer sent ≡ none))

-- The look behind the declared bytes.
save_from-sent :
    (declared : ℕ) (answer : Outcome (Unit {0})) (r r' : Reader) (sent : List SaveStreamMessage)
    (p : Bytes)
    → IsClean r'
    → content r ≡ p ++ content r'
    → Carries sent p
    → send_chunks declared declared 0 answer r [] ≡ (all_sent r' [], sent)
    → length p ≡ declared
    → Settles declared answer r (save_from declared answer r [])
unfolding save_from
save_from-sent declared answer r r' sent p c got carries out all =
    let (bs, r'', e, gives) = read-clean 1 r' c (omega arith) in go bs r'' e gives
  where
    go :
        (bs : Bytes) (r'' : Reader)
        → read 1 r' ≡ (ok bs, r'')
        → Gives 1 r' bs r''
        → Settles declared answer r (save_from declared answer r [])
    go [] r'' e (c', got', l, stop) =
        let whole : content r ≡ p = got ∙ ap (◌++◌ p) (stop refl) ∙ append-nil p in
        rw (out, e, save_from, end_stream)
          (inl (
            ap length whole ∙ all,
            refl,
            carries (complete ∷ []) ∙ ap some (append-nil p ∙ sym whole),
          ))
    go (b ∷ bs) r'' e (c', got', l, stop) =
        let over : declared < length (content r) =
          ground (arith, ap length got, ap length got', length-append p (content r')) in
        rw (out, e, save_from, end_stream) (inr (inr (over, refl, Carries-alone sent p carries)))

-- From a reader that does not fail, and to an engine that goes on receiving, everything is settled
-- by the number of bytes: as many as declared are sent whole, with the end marker, and the
-- engine's answer is the result; of too few or too many no end marker is sent, and the error says
-- which.
pub save_from-clean :
    (declared : ℕ) (answer : Outcome (Unit {0})) (r : Reader)
    → IsClean r
    → Settles declared answer r (save_from declared answer r [])
unfolding save_from
save_from-clean declared answer r clean =
    let (r', sent, p, c, got, carries, final) =
      send_chunks-clean declared declared 0 answer r clean (omega arith) (omega arith) in
    elim final [
      | inl (out, all) ↦ save_from-sent declared answer r r' sent p c got carries out (omega arith)
      | inr (out, over, short) ↦
          let whole : content r ≡ p = got ∙ ap (◌++◌ p) over ∙ append-nil p in
          let len : 0 + length p ≡ length (content r) = omega (arith, ap length whole) in
          rw (out, save_from, end_stream)
            (inr (
              inl (
                rw whole (omega arith),
                ap (λ n. err (input_ended_early declared n)) len,
                Carries-alone sent p carries,
              )))
    ]
