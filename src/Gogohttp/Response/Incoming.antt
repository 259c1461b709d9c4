-- ===== src/Gogohttp/Response/Incoming.antt =====
-- The writers of modules/gogohttp/response.go leave alone what is still to be read.
use web_spa.Base.{
  ℕ, ◌≡◌, refl, ◌∙◌, inl, inr, Bool, true, false, List, [], ◌∷◌, Option, none, some, Bytes,
  Option-cases,
}
use web_spa.Gogohttp.Conn.{Conn, Fault, write, write_next}
use web_spa.Gogohttp.Response.{
  Resp, Stream, writes, returns, panics, Ended, fine, panicked, fault, ChunkedWriter, chunked_write,
  chunked_write_at, after_chunk, run_stream, write_trailer, trailer_at, finish_stream, stream_after,
  write_to, write_buffered, write_stream, write_stream_head, write_mode, registered,
  chunked_trailer,
}

-- Writing leaves what is still to be read.
write-incoming : (b : Bytes) (c : Conn) → (write b c).0.incoming ≡ c.incoming
unfolding write
write-incoming b c = by_fault c.faults
  where
    by_fault : (fs : List (Option ℕ)) → (write_next b c fs).0.incoming ≡ c.incoming
    by_fault [] = refl
    by_fault (none ∷ fs) = refl
    by_fault (some k ∷ fs) = refl

chunked_write-incoming :
    (b : Bytes) (w : ChunkedWriter) → (chunked_write b w).0.conn.incoming ≡ w.conn.incoming
unfolding chunked_write
chunked_write-incoming b w = by_error b w.conn w.err
  where
    after : (b : Bytes) (o : Conn × Option Fault) → (after_chunk b o).0.conn.incoming ≡ o.0.incoming
    after b (c, none) = refl
    after b (c, some f) = refl

    by_error :
        (b : Bytes) (c : Conn) (e : Option Fault)
        → (chunked_write_at b c e).0.conn.incoming ≡ c.incoming
    by_error b c (some f) = refl
    by_error [] c none = refl
    by_error (x ∷ b) c none = after (x ∷ b) (write _ c) ∙ write-incoming _ c

run_stream-incoming :
    (s : Stream) (w : ChunkedWriter) → (run_stream s w).0.conn.incoming ≡ w.conn.incoming
unfolding run_stream
run_stream-incoming (writes b next) w =
    run_stream-incoming (next _ _) (chunked_write b w).0 ∙ chunked_write-incoming b w
run_stream-incoming (returns e) w = refl
run_stream-incoming panics w = refl

write_trailer-incoming : (w : ChunkedWriter) → (write_trailer w).0.incoming ≡ w.conn.incoming
unfolding write_trailer
write_trailer-incoming w = by_error w.conn w.err
  where
    by_error : (c : Conn) (e : Option Fault) → (trailer_at c e).0.incoming ≡ c.incoming
    by_error c (some f) = refl
    by_error c none = write-incoming chunked_trailer c

finish_stream-incoming :
    (w : ChunkedWriter) (e : Ended) → (finish_stream (w, e)).0.incoming ≡ w.conn.incoming
finish_stream-incoming w fine = write_trailer-incoming w
finish_stream-incoming w panicked = refl
finish_stream-incoming w (fault f) = refl

stream_after-incoming :
    (s : Stream) (o : Conn × Option Fault) → (stream_after s o).0.incoming ≡ o.0.incoming
stream_after-incoming s (c, some f) = refl
stream_after-incoming s (c, none) =
    finish_stream-incoming (run_stream s _).0 (run_stream s _).1 ∙ run_stream-incoming s _

write_mode-incoming :
    (r : Resp) (s : Option Stream) (head date close_seg : Bytes) (is_head : Bool) (c : Conn)
    → (write_mode r none s head date close_seg is_head c).0.incoming ≡ c.incoming
unfolding write_stream_head write_stream write_buffered
write_mode-incoming r (some s) head date close_seg true c = write-incoming _ c
write_mode-incoming r (some s) head date close_seg false c =
    stream_after-incoming s (write _ c) ∙ write-incoming _ c
write_mode-incoming r none head date close_seg is_head c = write-incoming _ c

-- A response that is not hijacked reads nothing.
pub write_to-incoming :
    (date : Bytes) (is_head close_conn : Bool) (r : Resp) (c : Conn)
    → r.hijack ≡ none
    → (write_to date is_head close_conn r c).0.incoming ≡ c.incoming
unfolding write_to
write_to-incoming date is_head close_conn r c h =
    elim (Option-cases (registered r.registry r.head_id)) [
      | inl missing ↦ rw missing refl
      | inr (head, found) ↦ rw (found, h) (write_mode-incoming r r.stream head date _ is_head c)
    ]
