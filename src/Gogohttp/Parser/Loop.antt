-- ===== src/Gogohttp/Parser/Loop.antt =====
-- The loop of `Parse` in modules/gogohttp/parser.go: it ends, and what it returns lies in bounds.
use web_spa.Base.{
  ℕ, zero, suc, ◌+◌, ◌-◌, ◌≤◌, ◌<◌, ◌≡◌, Bool, true, false, [], ◌∷◌, some, Bytes, length, take,
  drop, arith, Bool-cases, Option-cases, inl, inr, length-drop, ltb→lt, ◌==◌, ltb, ◌⊎◌,
}
use native.Mathlib.Nat.{zero-add}
use web_spa.Gogohttp.Types
use web_spa.Gogohttp.Types.{
  Req, ParseError, line_too_long, max_headers, max_header_bytes, max_request_line, n_headers,
}
use web_spa.Gogohttp.Scan.{find_eol, cr, lf}
use web_spa.Gogohttp.Scan.Eol.{find_eol_bounds}
use web_spa.Gogohttp.Parser.{
  accept, Framing, Outcome, incomplete, exhausted, complete, failed, is_blank, finish, finish_cr,
  header_line, header_step, headers_loop, start_framing, loop_fuel, parse, parse_header,
  parse_request_line,
}
use web_spa.Gogohttp.Parser.HeaderLine.{Parsed-cases, parse_header-n_headers}

-- An outcome of the loop from `pos` with `size` bytes left: not exhausted, and a complete request
-- ends in these bytes and has at most `max_headers` headers.
abbrev pub InBounds : ℕ → ℕ → Outcome → Type 0
InBounds pos size incomplete = Unit
InBounds pos size exhausted = ⊥
InBounds pos size (complete n req) = (pos < n) × (n ≤ pos + size) × (n_headers req ≤ max_headers)
InBounds pos size (failed whole e) = Unit

InBounds-mono :
    (pos size k : ℕ) (o : Outcome)
    → k ≤ size
    → InBounds (pos + k) (size - k) o
    → InBounds pos size o
InBounds-mono pos size k incomplete le h = tt
InBounds-mono pos size k exhausted le h = h
InBounds-mono pos size k (complete n req) le h = omega arith
InBounds-mono pos size k (failed whole e) le h = tt

finish-InBounds :
    (pos size k : ℕ) (st : Framing)
    → 1 ≤ k
    → k ≤ size
    → n_headers st.req ≤ max_headers
    → InBounds pos size (finish (pos + k) st)
unfolding finish
finish-InBounds pos size k st one le room = ground arith

finish_cr-InBounds :
    (pos : ℕ) (rest : Bytes) (st : Framing)
    → n_headers st.req ≤ max_headers
    → InBounds pos (suc (length rest)) (finish_cr pos rest st)
unfolding finish_cr
finish_cr-InBounds pos [] st room = tt
finish_cr-InBounds pos (d ∷ rest) st room = elim (Bool-cases (d == lf)) [
  | inl at_lf ↦
      rw at_lf (finish-InBounds pos (suc (suc (length rest))) 2 st (omega arith) (omega arith) room)
  | inr other ↦ rw other tt
]

module _ (next : ℕ → Bytes → Framing → Outcome) (st : Framing)
    (room : n_headers st.req ≤ max_headers)
    (bounded : (pos : ℕ) (rest : Bytes) (st' : Framing)
      → n_headers st'.req ≡ n_headers st.req + 1
      → n_headers st'.req ≤ max_headers
      → InBounds pos (length rest) (next pos rest st')) where
  header_line-InBounds :
      (pos : ℕ) (rest : Bytes) (eol skip : ℕ)
      → eol + skip ≤ length rest
      → InBounds pos (length rest) (header_line next pos rest st eol skip)
  unfolding header_line
  header_line-InBounds pos rest eol skip le =
      elim (Bool-cases (ltb (n_headers st.req) max_headers)) [
        | inr full ↦ rw full tt
        | inl free ↦ rw free (elim (Parsed-cases (parse_header (take eol rest) st)) [
          | inl (e, bad) ↦ rw bad tt
          | inr (st', good) ↦ rw good (
              InBounds-mono pos (length rest) (eol + skip) _ le (
                rw (← length-drop (eol + skip) rest) (
                  bounded (pos + (eol + skip)) (drop (eol + skip) rest) st'
                    (parse_header-n_headers _ st st' good)
                    (omega (arith, parse_header-n_headers _ st st' good, ltb→lt _ _ free)))))
        ])
      ]

  header_step-InBounds :
      (pos : ℕ) (rest : Bytes) → InBounds pos (length rest) (header_step next pos rest st)
  unfolding header_step
  header_step-InBounds pos [] = tt
  header_step-InBounds pos (c ∷ rest) = elim (Bool-cases (c == cr)) [
    | inl at_cr ↦ rw at_cr (finish_cr-InBounds pos rest st room)
    | inr past_cr ↦ rw past_cr (elim (Bool-cases (c == lf)) [
      | inl at_lf ↦
          rw at_lf (finish-InBounds pos (suc (length rest)) 1 st (omega arith) (omega arith) room)
      | inr past_lf ↦ rw past_lf (elim (Bool-cases (is_blank c)) [
        | inl blank ↦ rw blank tt
        | inr solid ↦ rw solid (elim (Option-cases (find_eol (c ∷ rest))) [
          | inl missing ↦ rw missing tt
          | inr ((eol, skip), found) ↦ rw found (
              header_line-InBounds pos (c ∷ rest) eol skip
                (find_eol_bounds (c ∷ rest) eol skip found).0)
        ])
      ])
    ])
  ]

headers_loop-InBounds :
    (fuel start pos : ℕ) (rest : Bytes) (st : Framing)
    → n_headers st.req ≤ max_headers
    → max_headers < n_headers st.req + fuel
    → InBounds pos (length rest) (headers_loop fuel start pos rest st)
unfolding headers_loop
headers_loop-InBounds zero start pos rest st room enough = absurd (omega arith)
headers_loop-InBounds (suc fuel) start pos rest st room enough =
    elim (Bool-cases (ltb max_header_bytes (pos - start))) [
      | inl long ↦ rw long tt
      | inr short ↦ rw short (
          header_step-InBounds (headers_loop fuel start) st room
            (λ pos' rest' st' one room'.
              headers_loop-InBounds fuel start pos' rest' st' room' (omega arith))
            pos rest)
    ]

-- The call of the loop that `parse` makes for the request line `req`.
abbrev pub loop_from : Bytes → ℕ → Req → Outcome
loop_from buf at req = headers_loop loop_fuel at at (drop at buf) (start_framing req)

-- The request line ends at `eol` and is read as `req`; the loop decides the rest.
pub record StartsLoop (buf : Bytes) (eol skip : ℕ) (req : Req) : Type 0 where
  pub ended : find_eol buf ≡ some (eol, skip)
  pub short : ltb max_request_line eol ≡ false
  pub line : parse_request_line (take eol buf) Types.reset ≡ accept req
  pub looped : parse buf ≡ loop_from buf (eol + skip) req

pub parse-cases :
    (buf : Bytes)
    → (parse buf ≡ incomplete)
      ⊎ ((whole : Bool) × (e : ParseError) × (parse buf ≡ failed whole e))
      ⊎ ((eol : ℕ) × (skip : ℕ) × (req : Req) × StartsLoop buf eol skip req)
unfolding parse
parse-cases buf = elim (Option-cases (find_eol buf)) [
  | inl missing ↦ elim (Bool-cases (ltb max_request_line (length buf))) [
    | inl long ↦ inr (inl (false, line_too_long, rw (missing, parse) (rw long)))
    | inr short ↦ inl (rw (missing, parse) (rw short))
  ]
  | inr ((eol, skip), found) ↦ elim (Bool-cases (ltb max_request_line eol)) [
    | inl long ↦ inr (inl (false, line_too_long, rw (found, parse) (rw long)))
    | inr short ↦ elim (Parsed-cases (parse_request_line (take eol buf) Types.reset)) [
      | inl (e, bad) ↦ inr (inl (true, e, rw (found, parse) (rw short (rw bad))))
      | inr (req, good) ↦ inr (
          inr (
            eol,
            skip,
            req,
            record {
              ended = found;
              short = short;
              line = good;
              looped = rw (found, parse) (rw short (rw good));
            },
          ))
    ]
  ]
]

pub parse_request_line_fresh :
    (line : Bytes) (req : Req)
    → parse_request_line line Types.reset ≡ accept req
    → (req.headers ≡ []) × (req.content_length ≡ Types.absent)
unfolding parse_request_line
parse_request_line_fresh line req h = ground arith

-- The parser always returns: its loop never outruns `max_headers` + 1 rounds. A complete request
-- ends inside the buffer, after at least one byte, and has at most `max_headers` headers.
pub parse-InBounds : (buf : Bytes) → InBounds 0 (length buf) (parse buf)
unfolding start_framing
parse-InBounds buf = elim (parse-cases buf) [
  | inl more ↦ rw more tt
  | inr (inl (whole, e, bad)) ↦ rw bad tt
  | inr (inr (eol, skip, req, s)) ↦
      let empty : req.headers ≡ [] = (parse_request_line_fresh (take eol buf) req s.line).0 in
      rw s.looped (
        InBounds-mono 0 (length buf) (eol + skip) _ (find_eol_bounds buf eol skip s.ended).0 (
          rw (← length-drop (eol + skip) buf) (
            rw zero-add (
              headers_loop-InBounds loop_fuel (eol + skip) (eol + skip) (drop (eol + skip) buf)
                (start_framing req) (ground arith) (ground arith)))))
]
