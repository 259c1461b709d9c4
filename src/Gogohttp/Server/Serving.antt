-- ===== src/Gogohttp/Server/Serving.antt =====
-- `serveConn` of modules/gogohttp/server.go: the requests that the handler gets, in order.
use web_spa.Base.{
  ℕ, zero, suc, ◌*◌, ◌≤◌, ◌<◌, ◌≡◌, refl, sym, ap, ◌∙◌, Bool, true, false, not, List, [], ◌∷◌, ◌++◌,
  Option, none, some, Bytes, length, drop, length-append, length-drop, drop-append_of_le, arith,
}
use web_spa.Gogohttp.Types.{Req}
use web_spa.Gogohttp.Conn.{Conn, Arrival}
use web_spa.Gogohttp.Response.{Ended, fine, panicked, fault}
use web_spa.Gogohttp.Response.Incoming.{write_to-incoming}
use web_spa.Gogohttp.Server.{
  Server, Handled, handled, panicking, ConnState, Progress, got, hang_up, spent, is_some,
  after_write, after_handler, dispatch, serve_one, next_turn, pending, read_fuel, serve_rounds,
  serve_conn, write_deadline, fresh_resp, load_registry,
}
use web_spa.Gogohttp.Server.Reading.{stream_of, IsWithin, Reads}
use web_spa.Gogohttp.Server.Framing.{first_request, IsReceived, receive-Reads}

-- The stream begins with these requests.
abbrev pub Begins : Bytes → List Req → Type 0
Begins s [] = Unit
Begins s (req ∷ reqs) = (n : ℕ) × (first_request s ≡ some (n, req)) × Begins (drop n s) reqs

-- The state after the handler has run.
abbrev pub world_of : {W : Type 0} → Handled W → W
world_of (handled w req resp) = w
world_of (panicking w) = w

length-stream_of : (l : List Arrival) → length (stream_of l) ≤ pending l
length-stream_of [] = omega arith
length-stream_of (a ∷ later) =
    omega (arith, length-append a.bytes (stream_of later), length-stream_of later)

module _ (W : Type 0) (srv : Server W) (limit : ℕ) (le : 2 * srv.max_read_buf ≤ limit) where
  -- The state after the handler was called for a request, with a fresh response.
  abbrev pub handle : W → Req → W
  handle w req = world_of (srv.handler w req (fresh_resp (load_registry srv w)))

  abbrev pub handle_all : W → List Req → W
  handle_all w [] = w
  handle_all w (req ∷ reqs) = handle_all (handle w req) reqs

  -- The connection is closed, and the handler was called for some first requests of `s`, in order.
  abbrev pub IsServed : W → Bytes → Option (W × Conn) → Type 0
  IsServed w s none = ⊥
  IsServed w s (some (w', c')) = (reqs : List Req) × (w' ≡ handle_all w reqs) × Begins s reqs

  IsServed-next :
      (w w' : W) (s : Bytes) (n : ℕ) (req : Req) (o : Option (W × Conn))
      → first_request s ≡ some (n, req)
      → w' ≡ handle w req
      → IsServed w' (drop n s) o
      → IsServed w s o
  IsServed-next w w' s n req none e l h = h
  IsServed-next w w' s n req (some (w'', c')) e l (reqs, all, begins) =
      (req ∷ reqs, all ∙ ap (λ (v : W). handle_all v reqs) l, (n, e, begins))

  IsServed-last :
      (w w' : W) (s : Bytes) (n : ℕ) (req : Req)
      → first_request s ≡ some (n, req)
      → w' ≡ handle w req
      → (reqs : List Req) × (w' ≡ handle_all w reqs) × Begins s reqs
  IsServed-last w w' s n req e l = (req ∷ [], l, (n, e, tt))

  abbrev Loop : ℕ → (W → ConnState → Conn → Option (W × Conn)) → Type 0
  Loop fuel next =
      (w : W) (st : ConnState) (c : Conn)
      → IsWithin limit st
      → length (st.buf ++ stream_of c.incoming) < fuel
      → IsServed w (st.buf ++ stream_of c.incoming) (next w st c)

  module _ (fuel : ℕ) (next : W → ConnState → Conn → Option (W × Conn)) (ih : Loop fuel next)
      (w : W) (st' : ConnState) (c' : Conn) (s : Bytes) (n : ℕ) (req : Req)
      (e : first_request s ≡ some (n, req)) (pos : 0 < n) (inside : n ≤ length st'.buf)
      (whole : st'.buf ++ stream_of c'.incoming ≡ s) (v : IsWithin limit st')
      (small : length s < suc fuel) where
    carried_over :
        (c : Conn) → c.incoming ≡ c'.incoming → drop n st'.buf ++ stream_of c.incoming ≡ drop n s
    carried_over c i =
        ap (λ l. drop n st'.buf ++ stream_of l) i
        ∙ (sym (drop-append_of_le n st'.buf (stream_of c'.incoming) inside) ∙ ap (drop n) whole)

    kept :
        (w' : W) (c : Conn)
        → c.incoming ≡ c'.incoming
        → IsServed w' (drop n s) (next w' (record st' { buf = drop n st'.buf }) c)
    kept w' c i = rw (← carried_over c i) (
        ih w' (record st' { buf = drop n st'.buf }) c
          (record {
            inside = omega (arith, length-drop n st'.buf, v.inside);
            positive = v.positive;
            bounded = v.bounded;
          })
          (omega (arith, ap length (carried_over c i), length-drop n s, whole_length)))
      where
        whole_length : n ≤ length s
        whole_length = omega (arith, ap length whole, length-append st'.buf (stream_of c'.incoming))

    after_write-IsServed :
        (w' : W) (is_hijacked close_conn : Bool) (o : Conn × Ended)
        → w' ≡ handle w req
        → (is_hijacked ≡ false → o.0.incoming ≡ c'.incoming)
        → IsServed w s (next_turn next (after_write w' st' n is_hijacked close_conn o))
    after_write-IsServed w' j k (c, fault f) l i = IsServed-last w w' s n req e l
    after_write-IsServed w' j k (c, panicked) l i = IsServed-last w w' s n req e l
    after_write-IsServed w' true k (c, fine) l i = IsServed-last w w' s n req e l
    after_write-IsServed w' false true (c, fine) l i = IsServed-last w w' s n req e l
    after_write-IsServed w' false false (c, fine) l i =
        IsServed-next w w' s n req _ e l (kept w' c (i refl))

    after_handler-IsServed :
        (h : Handled W)
        → world_of h ≡ handle w req
        → IsServed w s (next_turn next (after_handler srv st' n c' h))
    after_handler-IsServed (panicking w') l = IsServed-last w w' s n req e l
    after_handler-IsServed (handled w' req' resp) l =
        after_write-IsServed w' (is_some resp.hijack) (not req'.keep_alive) _ l (λ h.
          write_to-incoming _ _ _ resp (write_deadline srv resp c') (not_hijacked resp.hijack h))
      where
        not_hijacked : {A : Type 0} (o : Option A) → is_some o ≡ false → o ≡ none
        not_hijacked none h = refl
        not_hijacked (some a) h = absurd (ground arith)

  dispatch-IsServed :
      (fuel : ℕ) (next : W → ConnState → Conn → Option (W × Conn))
      → Loop fuel next
      → (w : W) (st : ConnState) (c : Conn) (o : Progress (ℕ × Req))
      → length (st.buf ++ stream_of c.incoming) < suc fuel
      → Reads (IsReceived (st.buf ++ stream_of c.incoming)) limit st c o
      → IsServed w (st.buf ++ stream_of c.incoming) (next_turn next (dispatch srv w o))
  dispatch-IsServed fuel next ih w st c (got (n, req) st' c') small ((e, pos, inside), h) =
      after_handler-IsServed fuel next ih w st' c' _ n req e pos inside h.whole h.within small _
        refl
  dispatch-IsServed fuel next ih w st c (hang_up c') small h = ([], refl, tt)
  dispatch-IsServed fuel next ih w st c spent small h = absurd h

  serve_rounds-IsServed :
      (fuel : ℕ) (w : W) (st : ConnState) (c : Conn)
      → IsWithin limit st
      → length (st.buf ++ stream_of c.incoming) < fuel
      → IsServed w (st.buf ++ stream_of c.incoming) (serve_rounds fuel srv w st c)
  unfolding serve_rounds serve_one
  serve_rounds-IsServed zero w st c v small = absurd (omega arith)
  serve_rounds-IsServed (suc fuel) w st c v small =
      dispatch-IsServed fuel (serve_rounds fuel srv) (serve_rounds-IsServed fuel) w st c _ small
        (receive-Reads W srv limit le (read_fuel c) st c v (omega arith))

  -- From a buffer of positive size, within a limit that is at least twice MaxReadBuf,
  -- the loop of a connection ends with the connection closed, however its segments arrive and whatever
  -- the handler does: a panic, a hijack or a failing closure included. The state is then the one that
  -- the handler leaves when it is called for some first requests of the whole stream, each once, in
  -- order and with a fresh response, and for nothing else.
  pub serve_conn-IsServed :
      (w : W) (st : ConnState) (c : Conn)
      → IsWithin limit st
      → IsServed w (st.buf ++ stream_of c.incoming) (serve_conn srv w st c)
  unfolding serve_conn
  serve_conn-IsServed w st c v =
      serve_rounds-IsServed _ w st c v
        (omega (arith, length-append st.buf (stream_of c.incoming), length-stream_of c.incoming))
