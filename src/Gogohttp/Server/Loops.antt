-- ===== src/Gogohttp/Server/Loops.antt =====
-- The header loop and the body loop of `serveOne` in modules/gogohttp/server.go: what they return.
use web_spa.Base.{
  ℕ, zero, suc, ◌-◌, ◌*◌, ◌≤◌, ◌<◌, ◌≡◌, refl, sym, ap, ◌∙◌, inl, inr, Bool, false, ◌&&◌, [], ◌++◌,
  Bytes, append_assoc, append-nil, length-append, ltb, length, arith, Bool-cases, Option-cases,
  ltb→lt, ltb→ge, if◌then◌else◌,
}
use web_spa.Gogohttp.Types.{Req}
use web_spa.Gogohttp.Parser.{Outcome, incomplete, exhausted, complete, failed, parse}
use web_spa.Gogohttp.Parser.Loop.{InBounds, parse-InBounds}
use web_spa.Gogohttp.Conn.{Conn, Arrival}
use web_spa.Gogohttp.Server.{
  ConnState, Progress, got, hang_up, spent, limit_reads, grow_for_head, head_arrival, head_round,
  read_head, grow_for_body, body_arrival, read_body, pending,
}
use web_spa.Gogohttp.Server.Reading.{
  IsRead, read-IsRead, IsWithin, HasRead-trans, headers_too_large, too_large, refused,
  err_response_for-Refusal, Reads, Reads-trans, arrived, HasRoom, grow_for_head-HasRoom,
  grow_for_body-HasRoom, HasRoom-HasRead, IsRead-less,
}

-- The head that the loop returns is what `Parse` says of the buffer.
abbrev pub IsHead : ℕ × Req → ConnState → Type 0
IsHead (n, req) st = parse st.buf ≡ complete n req

module _ (limit max timeout : ℕ) (le : 2 * max ≤ limit) where
  abbrev HeadLoop : ℕ → (Bool → ConnState → Conn → Progress (ℕ × Req)) → Type 0
  HeadLoop fuel next =
      (started : Bool) (st : ConnState) (c : Conn)
      → IsWithin limit st
      → pending c.incoming < fuel
      → Reads IsHead limit st c (next started st c)

  head_arrival-Reads :
      (fuel : ℕ) (next : Bool → ConnState → Conn → Progress (ℕ × Req))
      → HeadLoop fuel next
      → (started : Bool) (st st1 : ConnState) (c : Conn) (o : Arrival × Conn) → HasRoom limit st st1
      → IsRead (st1.cap - length st1.buf) c o
      → pending c.incoming < suc fuel
      → Reads IsHead limit st c (head_arrival next started st1 o)
  head_arrival-Reads fuel next ih started st st1 c o r h small = elim (Bool-cases o.0.failed) [
    | inl ends ↦ rw ends (inl h.unsent)
    | inr more ↦
        let got_more = HasRead-trans (HasRoom-HasRead c r) (arrived limit st1 c o r.within h) in
        rw more (
          Reads-trans IsHead limit st _ c o.1 _ got_more
            (ih _ _ o.1 got_more.within (omega (arith, IsRead-less h more, small))))
  ]

  head_round-Reads :
      (fuel : ℕ) (next : Bool → ConnState → Conn → Progress (ℕ × Req))
      → HeadLoop fuel next
      → (started : Bool) (st : ConnState) (c : Conn) (o : Outcome) → InBounds 0 (length st.buf) o
      → parse st.buf ≡ o
      → IsWithin limit st
      → pending c.incoming < suc fuel
      → Reads IsHead limit st c (head_round next max timeout started st c o)
  head_round-Reads fuel next ih started st c (complete n req) b e v small =
      (e, record { whole = refl; unsent = refl; within = v; least = omega arith })
  head_round-Reads fuel next ih started st c (failed whole err) b e v small =
      let (s, is_s) = err_response_for-Refusal err in rw is_s (refused s c c refl)
  head_round-Reads fuel next ih started st c exhausted b e v small = absurd b
  head_round-Reads fuel next ih started st c incomplete b e v small =
      elim (Option-cases (grow_for_head max st)) [
        | inl full ↦ rw full (refused headers_too_large c _ refl)
        | inr (st1, grown) ↦
            let r = grow_for_head-HasRoom limit max st st1 le v grown in
            let c1 = limit_reads (if started then 0 else timeout) c in
            rw grown (
              Reads-trans IsHead limit st st c c1 _
                (record { whole = refl; unsent = refl; within = v; least = omega arith })
                (head_arrival-Reads fuel next ih started st st1 c1 _ r
                  (read-IsRead _ c1 (omega (arith, r.room))) small))
      ]

  pub read_head-Reads :
      (fuel : ℕ) (started : Bool) (st : ConnState) (c : Conn)
      → IsWithin limit st
      → pending c.incoming < fuel
      → Reads IsHead limit st c (read_head fuel max timeout started st c)
  unfolding read_head
  read_head-Reads zero started st c v small = absurd (omega arith)
  read_head-Reads (suc fuel) started st c v small =
      head_round-Reads fuel (read_head fuel max timeout) (read_head-Reads fuel) started st c
        (parse st.buf) (parse-InBounds st.buf) refl v small

-- The body loop returns when the buffer holds the body, and keeps what the buffer held.
abbrev pub IsFilled : ℕ → ConnState → Unit {0} → ConnState → Type 0
IsFilled needed st u st' = (needed ≤ length st'.buf) × (more : Bytes) × (st'.buf ≡ st.buf ++ more)

IsFilled-trans :
    (needed limit : ℕ) (st st' : ConnState) (c : Conn) (o : Progress (Unit {0})) (more : Bytes)
    → st'.buf ≡ st.buf ++ more
    → Reads (IsFilled needed st') limit st' c o
    → Reads (IsFilled needed st) limit st' c o
IsFilled-trans needed limit st st' c (got u st'' c'') more e ((k, more', e'), h) =
    ((k, more ++ more', e' ∙ (rw e (append_assoc st.buf more more'))), h)
IsFilled-trans needed limit st st' c (hang_up c'') more e h = h
IsFilled-trans needed limit st st' c spent more e h = h

module _ (limit max needed : ℕ) (le : 2 * max ≤ limit) where
  abbrev BodyLoop : ℕ → (ConnState → Conn → Progress (Unit {0})) → Type 0
  BodyLoop fuel next =
      (st : ConnState) (c : Conn)
      → IsWithin limit st
      → pending c.incoming < fuel
      → Reads (IsFilled needed st) limit st c (next st c)

  body_less :
      (st st1 : ConnState) (c : Conn) (o : Arrival × Conn)
      → HasRoom limit st st1
      → IsRead (st1.cap - length st1.buf) c o
      → length st.buf < needed
      → (o.0.failed && ltb (length (st1.buf ++ o.0.bytes)) needed) ≡ false
      → pending o.1.incoming < pending c.incoming
  body_less st st1 c o r h short more = elim h.less [
    | inr less ↦ less
    | inl (ends, empty) ↦
        absurd (ground (arith, length-append st1.buf o.0.bytes, ap length empty, ap length r.same))
  ]

  body_arrival-Reads :
      (fuel : ℕ) (next : ConnState → Conn → Progress (Unit {0}))
      → BodyLoop fuel next
      → (st st1 : ConnState) (c : Conn) (o : Arrival × Conn) → HasRoom limit st st1
      → IsRead (st1.cap - length st1.buf) c o
      → length st.buf < needed
      → pending c.incoming < suc fuel
      → Reads (IsFilled needed st) limit st c (body_arrival next needed st1 o)
  body_arrival-Reads fuel next ih st st1 c o r h short small =
      elim (Bool-cases (o.0.failed && ltb (length (st1.buf ++ o.0.bytes)) needed)) [
        | inl ends ↦ rw ends (inl h.unsent)
        | inr more ↦
            let got_more = HasRead-trans (HasRoom-HasRead c r) (arrived limit st1 c o r.within h) in
            rw more (
              Reads-trans (IsFilled needed st) limit st _ c o.1 _ got_more (
                IsFilled-trans needed limit st _ o.1 _ o.0.bytes
                  (ap (λ (b : Bytes). b ++ o.0.bytes) r.same)
                  (ih _ o.1 got_more.within
                    (omega (arith, body_less st st1 c o r h short more, small)))))
      ]

  pub read_body-Reads :
      (fuel : ℕ) (st : ConnState) (c : Conn)
      → IsWithin limit st
      → pending c.incoming < fuel
      → Reads (IsFilled needed st) limit st c (read_body fuel max needed st c)
  unfolding read_body
  read_body-Reads zero st c v small = absurd (omega arith)
  read_body-Reads (suc fuel) st c v small = elim (Bool-cases (ltb (length st.buf) needed)) [
    | inr full ↦ rw full (
      (ltb→ge _ _ full, [], sym (append-nil st.buf)),
      record { whole = refl; unsent = refl; within = v; least = omega arith },
    )
    | inl short ↦ rw short (elim (Option-cases (grow_for_body max needed st)) [
      | inl over ↦ rw over (refused too_large c c refl)
      | inr (st1, grown) ↦
          let r = grow_for_body-HasRoom limit max needed st st1 le v (ltb→lt _ _ short) grown in
          rw grown (
            body_arrival-Reads fuel (read_body fuel max needed) (read_body-Reads fuel) st st1 c _ r
              (read-IsRead _ c (omega (arith, r.room))) (ltb→lt _ _ short) small)
    ])
  ]
