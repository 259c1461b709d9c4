-- ===== src/Gogohttp/Server/Framing.antt =====
-- What `serveOne` of modules/gogohttp/server.go takes from the connection as one request, against the
-- first request of the whole stream, however the network cuts it.
use web_spa.Base.{
  ℕ, ◌+◌, ◌*◌, ◌≤◌, ◌<◌, ◌≡◌, refl, sym, ap, ◌∙◌, inl, inr, true, ◌++◌, Option, none, some, Bytes,
  ltb, leb, if◌then◌else◌, length, take, drop, length-append, length-drop, take-append_of_le,
  drop-append_of_le, arith, Bool-cases, ltb→lt, lt→ltb,
}
use web_spa.Gogohttp.Types.{Req, ContentLength, absent, chunked, explicit}
use web_spa.Gogohttp.Parser.{Outcome, incomplete, exhausted, complete, failed, parse}
use web_spa.Gogohttp.Parser.Loop.{InBounds, parse-InBounds}
use web_spa.Gogohttp.Parser.Stable.{parse-append}
use web_spa.Gogohttp.Conn.{Conn}
use web_spa.Gogohttp.Server.{
  Server, ConnState, Progress, got, hang_up, spent, limit_reads, with_body, frame_body, after_head,
  receive, first_deadline, header_timeout, pending,
}
use web_spa.Gogohttp.Server.Reading.{
  stream_of, IsWithin, HasRead, bad_request, too_large, refused, Reads, Reads-trans,
}
use web_spa.Gogohttp.Server.Loops.{IsHead, read_head-Reads, IsFilled, read_body-Reads}

-- The request whose head ends at `n`, and where it ends itself.
abbrev pub whole_request : Bytes → ℕ → Req → ContentLength → Option (ℕ × Req)
whole_request s n req absent = some (n, req)
whole_request s n req chunked = none
whole_request s n req (explicit size) =
    if ltb 0 size
    then (if leb (n + size) (length s)
        then some (n + size, record req { body = take size (drop n s) })
        else none)
    else some (n, req)

abbrev first_of : Bytes → Outcome → Option (ℕ × Req)
first_of s incomplete = none
first_of s exhausted = none
first_of s (failed whole e) = none
first_of s (complete n req) = whole_request s n req req.content_length

-- The first request of a stream, with its body, and the number of its bytes.
unfoldable pub first_request : Bytes → Option (ℕ × Req)
first_request s = first_of s (parse s)

-- The result is the first request of the stream `s`, and all of it is in the buffer.
abbrev pub IsReceived : Bytes → ℕ × Req → ConnState → Type 0
IsReceived s (n, req) st = (first_request s ≡ some (n, req)) × (0 < n) × (n ≤ length st.buf)

parsed_ahead :
    (buf more : Bytes) (n : ℕ) (req : Req)
    → parse buf ≡ complete n req
    → (parse (buf ++ more) ≡ complete n req) × (0 < n) × (n ≤ length buf)
parsed_ahead buf more n req e =
    let b : InBounds 0 (length buf) (complete n req) = rw e at (parse-InBounds buf) in
    (parse-append buf more (rw e refl) ∙ e, omega arith, omega arith)

-- Nothing is read yet.
unread : (limit : ℕ) (st : ConnState) (c : Conn) → IsWithin limit st → HasRead limit st c st c
unread limit st c v = record { whole = refl; unsent = refl; within = v; least = omega arith }

unread_by :
    (limit timeout : ℕ) (st : ConnState) (c : Conn)
    → IsWithin limit st
    → HasRead limit st c st (limit_reads timeout c)
unread_by limit timeout st c v = record {
  whole = refl;
  unsent = refl;
  within = v;
  least = omega arith;
}

first_request_lem :
    (s : Bytes) (n : ℕ) (req : Req) (len : ContentLength)
    → parse s ≡ complete n req
    → req.content_length ≡ len
    → first_request s ≡ whole_request s n req len
unfolding first_request
first_request_lem s n req len e is_len = rw e (rw is_len refl)

leb_lem : (a b : ℕ) → a ≤ b → leb a b ≡ true
leb_lem a b h = ground arith

-- A body that lies in the first part of the stream.
whole_request_ahead :
    (a rest : Bytes) (n size : ℕ) (req : Req)
    → 0 < size
    → n + size ≤ length a
    → whole_request (a ++ rest) n req (explicit size)
      ≡ some (n + size, record req { body = take size (drop n a) })
whole_request_ahead a rest n size req pos inside =
    rw
      (
        lt→ltb 0 size pos,
        leb_lem (n + size) (length (a ++ rest)) (omega (arith, length-append a rest)),
        drop-append_of_le n a rest (omega arith),
        take-append_of_le size (drop n a) rest (omega (arith, length-drop n a)),
      )
      refl

module _ (W : Type 0) (srv : Server W) (limit : ℕ) (le : 2 * srv.max_read_buf ≤ limit) where
  with_body-Reads :
      (st : ConnState) (c : Conn) (n size : ℕ) (req : Req) (o : Progress (Unit {0}))
      → parse st.buf ≡ complete n req
      → req.content_length ≡ explicit size
      → 0 < size
      → Reads (IsFilled (n + size) st) limit st c o
      → Reads (IsReceived (st.buf ++ stream_of c.incoming)) limit st c (with_body n size req o)
  unfolding first_request
  with_body-Reads st c n size req (got u st' c') e is_explicit pos ((filled, more, grown), h) =
      let (ahead, start, inside) = parsed_ahead st.buf (stream_of c.incoming) n req e in
      (
        (
          first_request_lem _ n req (explicit size) ahead is_explicit
              ∙ (ap (λ (s : Bytes). whole_request s n req (explicit size)) (sym h.whole)
                  ∙ whole_request_ahead st'.buf (stream_of c'.incoming) n size req pos filled),
          omega arith,
          filled,
        ),
        h,
      )
  with_body-Reads st c n size req (hang_up c') e is_explicit pos h = h
  with_body-Reads st c n size req spent e is_explicit pos h = h

  frame_body-Reads :
      (fuel : ℕ) (st : ConnState) (c : Conn) (n : ℕ) (req : Req) (len : ContentLength)
      → parse st.buf ≡ complete n req
      → req.content_length ≡ len
      → IsWithin limit st
      → pending c.incoming < fuel
      → Reads
          (IsReceived (st.buf ++ stream_of c.incoming))
          limit
          st
          c
          (frame_body fuel srv n req st c len)
  unfolding first_request
  frame_body-Reads fuel st c n req absent e is_len v small =
      let (ahead, start, inside) = parsed_ahead st.buf (stream_of c.incoming) n req e in
      ((first_request_lem _ n req absent ahead is_len, start, inside), unread limit st c v)
  frame_body-Reads fuel st c n req chunked e is_len v small = refused bad_request c c refl
  frame_body-Reads fuel st c n req (explicit size) e is_len v small =
      elim (Bool-cases (ltb srv.max_body_bytes size)) [
        | inl over ↦ rw over (refused too_large c c refl)
        | inr fits ↦ rw fits (elim (Bool-cases (ltb 0 size)) [
          | inl pos ↦ rw pos (
              with_body-Reads st c n size req _ e is_len (ltb→lt _ _ pos) (
                Reads-trans (IsFilled (n + size) st) limit st st c (limit_reads srv.read_timeout c)
                  _ (unread_by limit srv.read_timeout st c v)
                  (read_body-Reads limit srv.max_read_buf (n + size) le fuel st
                    (limit_reads srv.read_timeout c) v small)))
          | inr empty ↦
              let (ahead, start, inside) = parsed_ahead st.buf (stream_of c.incoming) n req e in
              rw empty (
                (
                  first_request_lem _ n req (explicit size) ahead is_len ∙ (rw empty refl),
                  start,
                  inside,
                ),
                unread limit st c v,
              )
        ])
      ]

  after_head-Reads :
      (fuel : ℕ) (st : ConnState) (c : Conn) (o : Progress (ℕ × Req))
      → pending c.incoming < fuel
      → Reads IsHead limit st c o
      → Reads (IsReceived (st.buf ++ stream_of c.incoming)) limit st c (after_head fuel srv o)
  after_head-Reads fuel st c (got (n, req) st' c') small (e, h) = rw (← h.whole) (
      Reads-trans (IsReceived (st'.buf ++ stream_of c'.incoming)) limit st st' c c' _ h (
        frame_body-Reads fuel st' c' n req req.content_length e refl h.within
          (omega (arith, h.least))))
  after_head-Reads fuel st c (hang_up c') small h = h
  after_head-Reads fuel st c spent small h = h

  -- With fuel for the segments that are to come, `serveOne` either gives up the connection, with one
  -- refusal sent at most, or it takes from it the first request of the whole stream: the head that
  -- `Parse` finds in all the bytes, and a body of exactly the announced length. It then has sent
  -- nothing and lost no byte, and its buffer holds at most `limit` bytes, for any `limit` that is
  -- twice MaxReadBuf and not below the size of the buffer it began with.
  pub receive-Reads :
      (fuel : ℕ) (st : ConnState) (c : Conn)
      → IsWithin limit st
      → pending c.incoming < fuel
      → Reads (IsReceived (st.buf ++ stream_of c.incoming)) limit st c (receive fuel srv st c)
  unfolding receive first_deadline
  receive-Reads fuel st c v small = after_head-Reads fuel st c _ small (
      Reads-trans IsHead limit st st c (first_deadline srv st c) _ (unread_by limit _ st c v) (
        read_head-Reads limit srv.max_read_buf (header_timeout srv) le fuel (ltb 0 (length st.buf))
          st (first_deadline srv st c) v small))
