-- ===== src/Tokio/Laws.antt =====
-- src/tokio.rs with src/blocking.rs: how a streamed save differs from that of the blocking facade.
use atomic_blob_storage.Base.{
  ℕ, zero, suc, ◌+◌, ◌-◌, ◌≡◌, refl, ap, sym, ◌∙◌, ◌⊎◌, inl, inr, min, Bool, true, false, ◌||◌,
  List, [], ◌∷◌, ◌++◌, length, ltb, arith, append-nil, append_assoc, Bool-cases,
}
use atomic_blob_storage.Error.{Bytes, IoError, Result, ok, err, Outcome}
use atomic_blob_storage.Config.{stream_chunk_size}
use atomic_blob_storage.Stream.{Reader, read}
use atomic_blob_storage.Format.Encode.{SaveStreamMessage, chunk, complete}
use atomic_blob_storage.Blocking
use atomic_blob_storage.Tokio.{
  Sending, all_sent, stopped_with, next_or, send_chunks, end_stream, save_from,
}

abbrev pub Begins : List SaveStreamMessage → List SaveStreamMessage → Type 0
Begins sent whole = (rest : List SaveStreamMessage) × (whole ≡ sent ++ rest)

-- At some `select!` the engine's answer is there first.
abbrev pub comes_first : List Bool → Bool
comes_first [] = false
comes_first (b ∷ bs) = b || comes_first bs

-- Where the two loops end: alike, or this one with the answer that came first, as `P` says.
abbrev Alike :
    Type 0
    → Outcome (Unit {0})
    → Sending × List SaveStreamMessage
    → Blocking.Sending × List SaveStreamMessage
    → Type 0
Alike P answer (all_sent r receives ready, sent) (end, whole) =
    (comes_first ready ≡ true → P) × (end ≡ Blocking.all_sent r receives) × (sent ≡ whole)
Alike P answer (stopped_with result, sent) (end, whole) =
    ((end ≡ Blocking.stopped_with result) × (sent ≡ whole))
    ⊎ (P × (result ≡ answer) × Begins sent whole)

Alike-chunk :
    (P : Type 0) (answer : Outcome (Unit {0})) (bs : Bytes) (t : Sending × List SaveStreamMessage)
    (b : Blocking.Sending × List SaveStreamMessage)
    → Alike P answer t b
    → Alike P answer (t.0, chunk bs ∷ t.1) (b.0, chunk bs ∷ b.1)
Alike-chunk P answer bs (all_sent r receives ready, sent) b (late, e, same) =
    (late, e, ap (◌∷◌ (chunk bs)) same)
Alike-chunk P answer bs (stopped_with result, sent) b (inl (e, same)) =
    inl (e, ap (◌∷◌ (chunk bs)) same)
Alike-chunk P answer bs (stopped_with result, sent) b (inr (p, e, (rest, same))) =
    inr (p, e, (rest, ap (◌∷◌ (chunk bs)) same))

-- What a read gives: a failure, the end, or some bytes.
read_cases :
    (res : Result Bytes IoError)
    → ((e : IoError) × (res ≡ err e))
      ⊎ ((res ≡ ok []) ⊎ ((b : ℕ) × (bs : Bytes) × (res ≡ ok (b ∷ bs))))
read_cases (err e) = inl (e, refl)
read_cases (ok []) = inr (inl refl)
read_cases (ok (b ∷ bs)) = inr (inr (b, bs, refl))

next_first : (ready : List Bool) → (next_or false ready).0 ≡ true → comes_first ready ≡ true
next_first [] e = absurd (ground arith)
next_first (b ∷ bs) e = ground arith

rest_first :
    (ready : List Bool) → comes_first (next_or false ready).1 ≡ true → comes_first ready ≡ true
rest_first [] e = e
rest_first (b ∷ bs) e = ground arith

send_chunks-Alike :
    (P : Type 0) (fuel declared seen : ℕ) (answer : Outcome (Unit {0})) (r : Reader)
    (receives ready : List Bool)
    → (comes_first ready ≡ true → P)
    → Alike P answer
        (send_chunks fuel declared seen answer r receives ready)
        (Blocking.send_chunks fuel declared seen answer r receives)
unfolding send_chunks Blocking.send_chunks
send_chunks-Alike P zero declared seen answer r receives ready h = (h, refl, refl)
send_chunks-Alike P (suc fuel) declared seen answer r receives ready h =
    let answered = (next_or false ready).0 in
    let got = (read (min (declared - seen) stream_chunk_size) r).0 in
    let r' = (read (min (declared - seen) stream_chunk_size) r).1 in
    elim (Bool-cases (ltb seen declared)) [
      | inr over ↦ rw (over, send_chunks, Blocking.send_chunks) (h, refl, refl)
      | inl more ↦ elim (Bool-cases answered) [
        | inl early ↦
            rw (more, early, send_chunks, Blocking.send_chunks)
              (inr (h (next_first ready early), refl, (_, refl)))
        | inr late ↦ elim (read_cases got) [
          | inl (e, failed) ↦
              rw (more, late, failed, send_chunks, Blocking.send_chunks) (inl (refl, refl))
          | inr (inl ended) ↦
              rw (more, late, ended, send_chunks, Blocking.send_chunks) (inl (refl, refl))
          | inr (inr (b, bs, some_bytes)) ↦ elim (Bool-cases (next_or true receives).0) [
            | inl kept ↦
                rw (more, late, some_bytes, kept, send_chunks, Blocking.send_chunks)
                  (Alike-chunk P answer (b ∷ bs) _ _ (
                    send_chunks-Alike P fuel declared (seen + length (b ∷ bs)) answer r'
                      (next_or true receives).1 (next_or false ready).1
                      (λ first. h (rest_first ready first))))
            | inr gone ↦
                rw (more, late, some_bytes, gone, send_chunks, Blocking.send_chunks)
                  (inl (refl, refl))
          ]
        ]
      ]
    ]

-- The same as the blocking facade, or the engine's answer, after a beginning of the same messages.
abbrev pub Agrees :
    Type 0
    → Outcome (Unit {0})
    → Outcome (Unit {0}) × List SaveStreamMessage
    → Outcome (Unit {0}) × List SaveStreamMessage
    → Type 0
Agrees P answer t b = (t ≡ b) ⊎ (P × (t.0 ≡ answer) × Begins t.1 b.1)

-- The end of the stream takes back no message.
end_stream-Begins :
    (declared : ℕ) (answer : Outcome (Unit {0})) (b : Blocking.Sending × List SaveStreamMessage)
    → Begins b.1 (Blocking.end_stream declared answer b).1
end_stream-Begins declared answer (Blocking.stopped_with result, sent) = ([], sym (append-nil sent))
end_stream-Begins declared answer (Blocking.all_sent r receives, sent) =
    elim (read_cases (read 1 r).0) [
      | inl (e, failed) ↦ rw (failed, Blocking.end_stream) ([], sym (append-nil sent))
      | inr (inr (b, bs, some_bytes)) ↦
          rw (some_bytes, Blocking.end_stream) ([], sym (append-nil sent))
      | inr (inl ended) ↦ elim (Bool-cases (next_or true receives).0) [
        | inl kept ↦ rw (ended, kept, Blocking.end_stream) (complete ∷ [], refl)
        | inr gone ↦ rw (ended, gone, Blocking.end_stream) ([], sym (append-nil sent))
      ]
    ]

Begins-trans : (a b c : List SaveStreamMessage) → Begins a b → Begins b c → Begins a c
Begins-trans a b c (more, e) (rest, e') =
    (more ++ rest, (e' ∙ ap (λ l. l ++ rest) e) ∙ append_assoc a more rest)

end_stream-Agrees :
    (P : Type 0) (declared : ℕ) (answer : Outcome (Unit {0})) (t : Sending × List SaveStreamMessage)
    (b : Blocking.Sending × List SaveStreamMessage)
    → Alike P answer t b
    → Agrees P answer (end_stream declared answer t) (Blocking.end_stream declared answer b)
end_stream-Agrees P declared answer (stopped_with result, sent) (end, whole) (inl (e, same)) =
    rw (e, same) (inl refl)
end_stream-Agrees P declared answer (stopped_with result, sent) (end, whole) (inr (p, e, begins)) =
    inr (p, e, Begins-trans sent whole _ begins (end_stream-Begins declared answer (end, whole)))
end_stream-Agrees P declared answer (all_sent r receives ready, sent) (end, whole) (h, e, same) =
    let ends = end_stream-Begins declared answer (Blocking.all_sent r receives, whole) in
    rw (e, same)
      (elim (Bool-cases (next_or false ready).0) [
        | inl early ↦ rw (early, end_stream) (inr (h (next_first ready early), refl, ends))
        | inr late ↦ rw (late, end_stream) (inl refl)
      ])

-- On every reader, the streamed save of the Tokio facade gives the same result and sends the same
-- messages as that of the blocking facade, or the engine's answer was there first at some select;
-- then it is the result, and what was sent is a beginning of what the blocking facade sends.
pub save_from-blocking :
    (declared : ℕ) (answer : Outcome (Unit {0})) (r : Reader) (receives ready : List Bool)
    → Agrees
        (comes_first ready ≡ true)
        answer
        (save_from declared answer r receives ready)
        (Blocking.save_from declared answer r receives)
unfolding save_from Blocking.save_from
save_from-blocking declared answer r receives ready =
    end_stream-Agrees (comes_first ready ≡ true) declared answer _ _ (
      send_chunks-Alike (comes_first ready ≡ true) declared declared 0 answer r receives ready
        (λ first. first))
