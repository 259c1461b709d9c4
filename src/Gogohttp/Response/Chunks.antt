-- ===== src/Gogohttp/Response/Chunks.antt =====
-- The chunked responses of modules/gogohttp/response.go, against a reader of the chunked coding, and
-- the error that sticks to the writer.
use web_spa.Base.{
  ℕ, suc, ◌≡◌, ◌≢◌, refl, sym, ap, ◌∙◌, Bool, false, List, [], ◌∷◌, ◌++◌, Option, none, some, Bytes,
  if◌then◌else◌, length, append_assoc, arith, inl, inr, ◌⊎◌, subst,
}
use web_spa.Gogohttp.Conn.{Conn, Fault, broken, write, write_next}
use web_spa.Gogohttp.Response.{
  Resp, Stream, writes, returns, panics, Ended, fine, panicked, fault, ended, ChunkedWriter,
  chunked_write, run_stream, write_trailer, finish_stream, write_stream, crlf, chunked_trailer,
  transfer_encoding_chunked, connection_close_line, write_to, stream_after, registered, with_end,
}
use web_spa.Gogohttp.Response.Reader.{read_chunked, concat, chunk, chunks, read_chunked-chunks}

-- What the closure writes while every write succeeds.
unfoldable pub written : Stream → List Bytes
written (writes b next) = b ∷ written (next (length b) none)
written (returns e) = []
written panics = []

-- How it then ends.
unfoldable pub outcome : Stream → Ended
outcome (writes b next) = outcome (next (length b) none)
outcome (returns e) = ended e
outcome panics = panicked

-- A write that succeeds sends its bytes.
write-cases :
    (b : Bytes) (c : Conn)
    → ((c' : Conn) × (write b c ≡ (c', none)) × (c'.sent ≡ c.sent ++ b))
      ⊎ ((c' : Conn) × (write b c ≡ (c', some broken)))
unfolding write
write-cases b c = write_next-cases c.faults
  where
    write_next-cases :
        (fs : List (Option ℕ))
        → ((c' : Conn) × (write_next b c fs ≡ (c', none)) × (c'.sent ≡ c.sent ++ b))
          ⊎ ((c' : Conn) × (write_next b c fs ≡ (c', some broken)))
    write_next-cases [] = inl (_, refl, refl)
    write_next-cases (none ∷ fs) = inl (_, refl, refl)
    write_next-cases (some k ∷ fs) = inr (_, refl)

run_stream-stuck :
    (s : Stream) (c : Conn) (f : Fault)
    → (run_stream s (record { conn = c; err = some f })).0 ≡ record { conn = c; err = some f }
unfolding run_stream chunked_write
run_stream-stuck (writes b next) c f = run_stream-stuck (next 0 (some f)) c f
run_stream-stuck (returns e) c f = refl
run_stream-stuck panics c f = refl

-- The end of a closure whose writer has an error: the connection is left as it is.
abbrev pub IsCut : Conn → Conn × Ended → Type 0
IsCut c o = (o.0 ≡ c) × (o.1 ≢ fine)

finish_stream-stuck :
    (w : ChunkedWriter) (e : Ended) (c : Conn) (f : Fault)
    → w ≡ record { conn = c; err = some f }
    → IsCut c (finish_stream (w, e))
unfolding write_trailer
finish_stream-stuck w fine c f h = rw h (refl, λ k. cc)
finish_stream-stuck w panicked c f h = (ap (λ (v : ChunkedWriter). v.conn) h, λ k. cc)
finish_stream-stuck w (fault g) c f h = (ap (λ (v : ChunkedWriter). v.conn) h, λ k. cc)

stuck-IsCut :
    (s : Stream) (c : Conn) (f : Fault)
    → IsCut c (finish_stream (run_stream s (record { conn = c; err = some f })))
stuck-IsCut s c f = finish_stream-stuck _ _ c f (run_stream-stuck s c f)

abbrev FailsNext : (Conn → Type 0) → Conn → Conn × Option Fault → Type 0
FailsNext more c' (c, none) = more c
FailsNext more c' (c, some f) = c ≡ c'

-- The chunks of the closure go out on `c` until the connection fails one, which leaves it as `c'`.
unfoldable pub FailsAt : Stream → Conn → Conn → Type 0
FailsAt (writes [] next) c c' = FailsAt (next 0 none) c c'
FailsAt (writes (x ∷ b) next) c c' =
    FailsNext (λ d. FailsAt (next (suc (length b)) none) d c') c' (write (chunk (x ∷ b)) c)
FailsAt (returns e) c c' = ⊥
FailsAt panics c c' = ⊥

-- If the connection fails a write of the closure, the first, or a later one after others that went
-- out, then it stays as that write left it, whatever the closure writes after it and returns: it
-- gets neither more chunks nor the trailer. And the response does not end well.
pub run_stream-IsCut :
    (s : Stream) (c c' : Conn)
    → FailsAt s c c'
    → IsCut c' (finish_stream (run_stream s (record { conn = c; err = none })))
unfolding FailsAt run_stream chunked_write
run_stream-IsCut (writes [] next) c c' h = run_stream-IsCut (next 0 none) c c' h
run_stream-IsCut (writes (x ∷ b) next) c c' h = elim (write-cases (chunk (x ∷ b)) c) [
  | inl (d, good, sent) ↦
      rw good (run_stream-IsCut (next (suc (length b)) none) d c' (rw good at h))
  | inr (d, bad) ↦ rw bad (
      subst
        (λ (k : Conn). IsCut k (
          finish_stream
            (run_stream (next 0 (some broken)) (record { conn = d; err = some broken }))))
        (rw bad at h) (stuck-IsCut (next 0 (some broken)) d broken))
]
run_stream-IsCut (returns e) c c' h = absurd h
run_stream-IsCut panics c c' h = absurd h

not_fine : (c c' : Conn) (f : Fault) → ◌≡◌ {A = Conn × Ended} (c, fault f) (c', fine) → ⊥
not_fine c c' f h =
    let k : fault f ≡ fine = ap (λ (o : Conn × Ended). o.1) h in absurd (ground arith)

trailer-written :
    (c c' : Conn)
    → write_trailer (record { conn = c; err = none }) ≡ (c', fine)
    → c'.sent ≡ c.sent ++ chunked_trailer
unfolding write_trailer
trailer-written c c' h = elim (write-cases chunked_trailer c) [
  | inl (c'', good, sent) ↦
      let e : with_end (write chunked_trailer c) ≡ (c', fine) = h in
      ap (λ (o : Conn × Ended). o.0.sent) (sym e ∙ ap with_end good) ∙ sent
  | inr (c'', bad) ↦
      let e : with_end (write chunked_trailer c) ≡ (c', fine) = h in
      absurd (not_fine _ _ _ (sym (ap with_end bad) ∙ e))
]

fine-written :
    (s : Stream) (c c' : Conn)
    → finish_stream (run_stream s (record { conn = c; err = none })) ≡ (c', fine)
    → c'.sent ≡ c.sent ++ (chunks (written s) ++ chunked_trailer)
unfolding run_stream chunked_write chunks written
fine-written (writes [] next) c c' h = fine-written (next 0 none) c c' h
fine-written (writes (x ∷ b) next) c c' h = elim (write-cases (chunk (x ∷ b)) c) [
  | inl (c'', good, sent) ↦
      fine-written (next (suc (length b)) none) c'' c' (rw good at h)
      ∙ (rw sent (simp append_assoc))
  | inr (c'', bad) ↦ absurd (stuck c'' (rw bad at h))
]
  where
    stuck :
        (c'' : Conn)
        → finish_stream
            (run_stream (next 0 (some broken)) (record { conn = c''; err = some broken }))
          ≡ (c', fine)
        → ⊥
    stuck c'' k =
        (stuck-IsCut (next 0 (some broken)) c'' broken).1 (ap (λ (o : Conn × Ended). o.1) k)
fine-written (returns none) c c' h = trailer-written c c' h
fine-written (returns (some f)) c c' h = absurd (ground arith)
fine-written panics c c' h = absurd (ground arith)

-- The head of a streamed response.
abbrev pub streamed_head : Resp → Bytes → Bytes → Bool → Bytes
streamed_head r date head close_conn =
    head
    ++ (date
        ++ (transfer_encoding_chunked
            ++ ((if close_conn then connection_close_line else []) ++ (r.extra_headers ++ crlf))))

module _ (r : Resp) (s : Stream) (date head : Bytes) (not_hijacked : r.hijack ≡ none)
    (streams : r.stream ≡ some s) (known : registered r.registry r.head_id ≡ some head)
    (close_conn : Bool) where
  write_to-stream :
      (c : Conn)
      → write_to date false close_conn r c
        ≡ stream_after s (write (streamed_head r date head close_conn) c)
  unfolding write_to write_stream
  write_to-stream c = rw (known, not_hijacked, streams) refl

  -- If a streamed response ends well on a connection, then what was sent is its head and a chunked
  -- body, from which a reader of the chunked coding gets exactly what the closure wrote, whatever
  -- bytes follow.
  pub write_to-read_chunked :
      (c c' : Conn) (rest : Bytes)
      → write_to date false close_conn r c ≡ (c', fine)
      → (body : Bytes) × (c'.sent ≡ c.sent ++ ((streamed_head r date head close_conn) ++ body))
        × (read_chunked (suc (length (written s))) (body ++ rest) ≡ some (concat (written s), rest))
  write_to-read_chunked c c' rest h = elim (write-cases (streamed_head r date head close_conn) c) [
    | inl (c'', good, sent) ↦ (
      chunks (written s) ++ chunked_trailer,
      fine-written s c'' c' ((sym (ap (stream_after s) good)) ∙ (sym (write_to-stream c) ∙ h))
          ∙ (rw sent (append_assoc c.sent (streamed_head r date head close_conn) _)),
      ap (read_chunked (suc (length (written s))))
            (append_assoc (chunks (written s)) chunked_trailer rest)
          ∙ read_chunked-chunks (written s) (suc (length (written s))) rest (omega arith),
    )
    | inr (c'', bad) ↦
        absurd (not_fine _ _ _ (sym (ap (stream_after s) bad) ∙ (sym (write_to-stream c) ∙ h)))
  ]
