-- ===== src/Gogohttp/Server.antt =====
-- modules/gogohttp/server.go: the loop that serves one connection. `W` is the state that the handlers
-- and the rest of the program share.
pub mod Reading
pub mod Loops
pub mod Framing
pub mod Serving
mod Tests
use web_spa.Base.{
  ℕ, zero, suc, ◌+◌, ◌-◌, ◌*◌, Bool, true, false, not, ◌&&◌, ◌||◌, List, [], ◌∷◌, ◌++◌, Option,
  none, some, Bytes, ltb, leb, ◌==◌, if◌then◌else◌, length, take, drop,
}
use web_spa.Gogohttp.Types.{Req, Method, head, ContentLength, absent, chunked, explicit}
use web_spa.Gogohttp.Parser.{Outcome, incomplete, exhausted, complete, failed, parse}
use web_spa.Gogohttp.Conn.{Conn, Arrival, Fault, read, write}
use web_spa.Gogohttp.Response.{
  Resp, Stream, Ended, fine, panicked, fault, write_to, err_response_for, err_resp_400,
  err_resp_413, err_resp_431, err_resp_500,
}

-- What a handler does: it changes the shared state, the request and the response, or it panics.
pub data Handled (W : Type 0) : Type 0 where
  handled : W → Req → Resp → Handled W
  panicking : W → Handled W

-- Times and sizes are 0 where they are not set. `active_registry` is what `ReplaceRegistry` has
-- stored, and `date` is `CurrentDate`.
pub record Server (W : Type 0) : Type 0 where
  pub handler : W → Req → Resp → Handled W
  pub header_registry : List (Option Bytes)
  pub active_registry : W → Option (List (Option Bytes))
  pub date : W → Bytes
  pub read_header_timeout : ℕ
  pub read_timeout : ℕ
  pub write_timeout : ℕ
  pub idle_timeout : ℕ
  pub max_body_bytes : ℕ
  pub max_read_buf : ℕ

-- The defaults that `Serve` sets before it accepts.
unfoldable pub with_defaults : {W : Type 0} → Server W → Server W
with_defaults srv = record srv {
  max_body_bytes = if srv.max_body_bytes == 0 then 1024 * 1024 else srv.max_body_bytes;
  max_read_buf = if srv.max_read_buf == 0 then 64 * 1024 else srv.max_read_buf;
}

-- `loadRegistry`.
abbrev pub load_registry : {W : Type 0} → Server W → W → List (Option Bytes)
load_registry srv w = elim (srv.active_registry w) [ some r ↦ r | none ↦ srv.header_registry ]

-- `buf` is `rbuf[:rend]` and `cap` is `len(rbuf)`: the bytes after `rend` are never looked at.
pub record ConnState : Type 0 where
  pub buf : Bytes
  pub cap : ℕ

abbrev pub initial_read_buf : ℕ
initial_read_buf = 4096

abbrev pub new_conn_state : ConnState
new_conn_state = record { buf = []; cap = initial_read_buf }

-- The result of a loop that reads: its value, the connection to close, or no fuel.
pub data Progress (A : Type 0) : Type 0 where
  got : A → ConnState → Conn → Progress A
  hang_up : Conn → Progress A
  spent : Progress A

abbrev pub respond : Bytes → Conn → Conn
respond b c = (write b c).0

-- A timeout of 0 leaves the deadline that is there.
abbrev pub next_limit : ℕ → Option ℕ → Option ℕ
next_limit timeout limit = if ltb 0 timeout then some timeout else limit

abbrev pub limit_reads : ℕ → Conn → Conn
limit_reads timeout c = record c { read_limit = next_limit timeout c.read_limit }

-- `headerTimeout`.
unfoldable pub header_timeout : {W : Type 0} → Server W → ℕ
header_timeout srv =
    if ltb 0 srv.read_header_timeout then srv.read_header_timeout else srv.read_timeout

-- The deadline at the start of `serveOne`.
unfoldable pub first_deadline : {W : Type 0} → Server W → ConnState → Conn → Conn
unfolding header_timeout
first_deadline srv st c =
    limit_reads
      (if length st.buf == 0 && ltb 0 srv.idle_timeout
        then srv.idle_timeout
        else header_timeout srv)
      c

-- Room for the head: a full buffer is doubled up to `MaxReadBuf`, and `none` is a buffer of that size.
unfoldable pub grow_for_head : ℕ → ConnState → Option ConnState
grow_for_head max st =
    if length st.buf == st.cap
    then (if leb max st.cap
        then none
        else some (record st { cap = if ltb max (st.cap * 2) then max else st.cap * 2 }))
    else some st

-- The read of the header loop: what comes with an error is dropped.
abbrev pub head_arrival :
    (Bool → ConnState → Conn → Progress (ℕ × Req))
    → Bool
    → ConnState
    → Arrival × Conn
    → Progress (ℕ × Req)
head_arrival next started st (a, c) =
    if a.failed
    then hang_up c
    else next (started || ltb 0 (length a.bytes)) (record st { buf = st.buf ++ a.bytes }) c

abbrev pub head_room :
    (Bool → ConnState → Conn → Progress (ℕ × Req))
    → Bool
    → Conn
    → Option ConnState
    → Progress (ℕ × Req)
head_room next started c none = hang_up (respond err_resp_431 c)
head_room next started c (some st) = head_arrival next started st (read (st.cap - length st.buf) c)

-- One round of the header loop, on what `Parse` says of the buffer.
abbrev pub head_round :
    (Bool → ConnState → Conn → Progress (ℕ × Req))
    → ℕ
    → ℕ
    → Bool
    → ConnState
    → Conn
    → Outcome
    → Progress (ℕ × Req)
head_round next max timeout started st c (complete n req) = got (n, req) st c
head_round next max timeout started st c (failed whole e) = hang_up (respond (err_response_for e) c)
head_round next max timeout started st c incomplete =
    head_room next started (limit_reads (if started then 0 else timeout) c) (grow_for_head max st)
head_round next max timeout started st c exhausted = spent

-- The header loop of `serveOne`.
unfoldable pub read_head : ℕ → ℕ → ℕ → Bool → ConnState → Conn → Progress (ℕ × Req)
unfolding grow_for_head
read_head zero max timeout started st c = spent
read_head (suc fuel) max timeout started st c =
    head_round (read_head fuel max timeout) max timeout started st c (parse st.buf)

-- Room for the body, which ends at `needed`; `none` is a body that the buffer may not hold.
unfoldable pub grow_for_body : ℕ → ℕ → ConnState → Option ConnState
grow_for_body max needed st =
    if ltb st.cap needed
    then (if ltb max needed
        then none
        else some (record st { cap = if ltb (st.cap * 2) needed then needed else st.cap * 2 }))
    else some st

abbrev pub body_arrival :
    (ConnState → Conn → Progress (Unit {0})) → ℕ → ConnState → Arrival × Conn → Progress (Unit {0})
body_arrival next needed st (a, c) =
    if a.failed && ltb (length (st.buf ++ a.bytes)) needed
    then hang_up c
    else next (record st { buf = st.buf ++ a.bytes }) c

abbrev pub body_room :
    (ConnState → Conn → Progress (Unit {0})) → ℕ → Conn → Option ConnState → Progress (Unit {0})
body_room next needed c none = hang_up (respond err_resp_413 c)
body_room next needed c (some st) = body_arrival next needed st (read (st.cap - length st.buf) c)

-- The body loop of `serveOne`.
unfoldable pub read_body : ℕ → ℕ → ℕ → ConnState → Conn → Progress (Unit {0})
unfolding grow_for_body
read_body zero max needed st c = spent
read_body (suc fuel) max needed st c =
    let round = body_room (read_body fuel max needed) needed c (grow_for_body max needed st) in
    if ltb (length st.buf) needed then round else got tt st c

-- A request with its body, and the bytes of the buffer that it takes.
abbrev pub with_body : ℕ → ℕ → Req → Progress (Unit {0}) → Progress (ℕ × Req)
with_body offset size req (got u st c) =
    got (offset + size, record req { body = take size (drop offset st.buf) }) st c
with_body offset size req (hang_up c) = hang_up c
with_body offset size req spent = spent

-- The body framing after the head. A body of no bytes leaves `Body` nil.
abbrev pub frame_body :
    {W : Type 0} → ℕ → Server W → ℕ → Req → ConnState → Conn → ContentLength → Progress (ℕ × Req)
frame_body fuel srv offset req st c absent = got (offset, req) st c
frame_body fuel srv offset req st c chunked = hang_up (respond err_resp_400 c)
frame_body fuel srv offset req st c (explicit size) =
    if ltb srv.max_body_bytes size
    then hang_up (respond err_resp_413 c)
    else if ltb 0 size
    then with_body offset size req
        (read_body fuel srv.max_read_buf (offset + size) st (limit_reads srv.read_timeout c))
    else got (offset, req) st c

abbrev pub after_head : {W : Type 0} → ℕ → Server W → Progress (ℕ × Req) → Progress (ℕ × Req)
after_head fuel srv (got (offset, req) st c) =
    frame_body fuel srv offset req st c req.content_length
after_head fuel srv (hang_up c) = hang_up c
after_head fuel srv spent = spent

-- `serveOne` up to the dispatch.
unfoldable pub receive : {W : Type 0} → ℕ → Server W → ConnState → Conn → Progress (ℕ × Req)
unfolding read_head read_body first_deadline
receive fuel srv st c = after_head fuel srv (
    read_head fuel srv.max_read_buf (header_timeout srv) (ltb 0 (length st.buf)) st
      (first_deadline srv st c))

-- What `serveOne` returns, and a panic, which `serveConn` recovers from.
pub data Turn (W : Type 0) : Type 0 where
  keep_alive : W → ConnState → Conn → Turn W
  close : W → Conn → Turn W
  stuck : Turn W

abbrev pub is_some : {A : Type 0} → Option A → Bool
is_some none = false
is_some (some a) = true

-- The deadlines of the write.
abbrev pub write_deadline : {W : Type 0} → Server W → Resp → Conn → Conn
write_deadline srv resp c = record c {
  read_limit = if is_some resp.hijack then none else c.read_limit;
  write_limit =
      if is_some resp.hijack || is_some resp.stream
      then none
      else next_limit srv.write_timeout c.write_limit;
}

abbrev pub is_head_method : Method → Bool
is_head_method head = true
is_head_method _ = false

-- The end of `serveOne`, and the bytes that are carried over to the next request.
abbrev pub after_write : {W : Type 0} → W → ConnState → ℕ → Bool → Bool → Conn × Ended → Turn W
after_write w st consumed hijack close_conn (c, fault f) = close w c
after_write w st consumed hijack close_conn (c, panicked) = close w (respond err_resp_500 c)
after_write w st consumed hijack close_conn (c, fine) =
    if hijack || close_conn
    then close w c
    else keep_alive w (record st { buf = drop consumed st.buf }) c

abbrev pub after_handler : {W : Type 0} → Server W → ConnState → ℕ → Conn → Handled W → Turn W
after_handler srv st consumed c (panicking w) = close w (respond err_resp_500 c)
after_handler srv st consumed c (handled w req resp) =
    after_write w st consumed (is_some resp.hijack) (not req.keep_alive) (
      write_to (srv.date w) (is_head_method req.method) (not req.keep_alive) resp
        (write_deadline srv resp c))

abbrev pub fresh_resp : List (Option Bytes) → Resp
fresh_resp registry = record {
  head_id = 0;
  extra_headers = [];
  body = [];
  stream = none;
  hijack = none;
  registry = registry;
}

abbrev pub dispatch : {W : Type 0} → Server W → W → Progress (ℕ × Req) → Turn W
dispatch srv w (got (consumed, req) st c) =
    after_handler srv st consumed c (srv.handler w req (fresh_resp (load_registry srv w)))
dispatch srv w (hang_up c) = close w c
dispatch srv w spent = stuck

-- `serveOne`.
unfoldable pub serve_one : {W : Type 0} → ℕ → Server W → W → ConnState → Conn → Turn W
unfolding receive write_to
serve_one fuel srv w st c = dispatch srv w (receive fuel srv st c)

abbrev pub next_turn :
    {W : Type 0} → (W → ConnState → Conn → Option (W × Conn)) → Turn W → Option (W × Conn)
next_turn next (keep_alive w st c) = next w st c
next_turn next (close w c) = some (w, c)
next_turn next stuck = none

-- The bytes and segments still to come bound the rounds of the reading loops.
abbrev pub pending : List Arrival → ℕ
pending [] = 0
pending (a ∷ later) = suc (length a.bytes) + pending later

abbrev pub read_fuel : Conn → ℕ
read_fuel c = pending c.incoming + 2

-- The loop of `serveConn`; `none` is that its fuel ran out.
unfoldable pub serve_rounds : {W : Type 0} → ℕ → Server W → W → ConnState → Conn → Option (W × Conn)
unfolding serve_one
serve_rounds zero srv w st c = none
serve_rounds (suc fuel) srv w st c =
    next_turn (serve_rounds fuel srv) (serve_one (read_fuel c) srv w st c)

-- `serveConn`: every request but the last takes at least a byte.
unfoldable pub serve_conn : {W : Type 0} → Server W → W → ConnState → Conn → Option (W × Conn)
unfolding serve_rounds
serve_conn srv w st c = serve_rounds (length st.buf + pending c.incoming + 1) srv w st c
