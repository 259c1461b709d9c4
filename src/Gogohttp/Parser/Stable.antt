-- ===== src/Gogohttp/Parser/Stable.antt =====
-- `Parse` of modules/gogohttp/parser.go on a buffer that grows: the server calls it again with more
-- bytes, and pipelined requests stand behind the first.
use web_spa.Base.{
  ℕ, zero, suc, ◌+◌, ◌-◌, ◌≤◌, ◌≡◌, refl, Bool, true, false, [], ◌∷◌, ◌++◌, some, Bytes, length,
  take, drop, arith, Bool-cases, Option-cases, inl, inr, ltb, ◌==◌, take-append_of_le,
  drop-append_of_le,
}
use web_spa.Gogohttp.Types
use web_spa.Gogohttp.Types.{
  Req, ParseError, max_headers, max_header_bytes, max_request_line, n_headers,
}
use web_spa.Gogohttp.Scan.{find_eol, cr, lf}
use web_spa.Gogohttp.Scan.Eol.{find_eol_bounds, find_eol-append}
use web_spa.Gogohttp.Parser.{
  Framing, Outcome, incomplete, exhausted, complete, failed, is_blank, finish_cr, header_line,
  header_step, headers_loop, start_framing, loop_fuel, parse, parse_header, parse_request_line,
}
use web_spa.Gogohttp.Parser.HeaderLine.{Parsed-cases}

-- An answer with `complete` set: a request, or an error that the bytes so far decide.
abbrev pub is_settled : Outcome → Bool
is_settled incomplete = false
is_settled exhausted = false
is_settled (complete n req) = true
is_settled (failed whole e) = whole

-- A function of the bytes at hand keeps its settled answers when bytes are added.
abbrev IsStable : (Bytes → Outcome) → Type 0
IsStable f = (rest more : Bytes) → is_settled (f rest) ≡ true → f (rest ++ more) ≡ f rest

finish_cr-IsStable : (pos : ℕ) (st : Framing) → IsStable (λ rest. finish_cr pos rest st)
unfolding finish_cr
finish_cr-IsStable pos st [] more h = absurd (ground arith)
finish_cr-IsStable pos st (d ∷ rest) more h = refl

module _ (next : ℕ → Bytes → Framing → Outcome)
    (stable : (pos : ℕ) (st : Framing) → IsStable (λ rest. next pos rest st)) (pos : ℕ)
    (st : Framing) where
  header_line-append :
      (rest more : Bytes) (eol skip : ℕ)
      → eol ≤ length rest
      → eol + skip ≤ length rest
      → is_settled (header_line next pos rest st eol skip) ≡ true
      → header_line next pos (rest ++ more) st eol skip ≡ header_line next pos rest st eol skip
  unfolding header_line
  header_line-append rest more eol skip le le' h =
      rw (take-append_of_le eol rest more le)
        (elim (Bool-cases (ltb (n_headers st.req) max_headers)) [
          | inr full ↦ rw full refl
          | inl free ↦ elim (Parsed-cases (parse_header (take eol rest) st)) [
            | inl (e, bad) ↦ rw bad refl
            | inr (st', good) ↦
                rw (free, good, drop-append_of_le (eol + skip) rest more le')
                  (stable (pos + (eol + skip)) st' (drop (eol + skip) rest) more
                    (rw (free, good) at h))
          ]
        ])

  header_step-IsStable : IsStable (λ rest. header_step next pos rest st)
  unfolding header_step
  header_step-IsStable [] more h = absurd (ground arith)
  header_step-IsStable (c ∷ rest) more h = elim (Bool-cases (c == cr)) [
    | inl at_cr ↦ rw at_cr (finish_cr-IsStable pos st rest more (rw at_cr at h))
    | inr past_cr ↦ elim (Bool-cases (c == lf)) [
      | inl at_lf ↦ rw (past_cr, at_lf) refl
      | inr past_lf ↦ elim (Bool-cases (is_blank c)) [
        | inl blank ↦ rw (past_cr, past_lf, blank) refl
        | inr solid ↦ elim (Option-cases (find_eol (c ∷ rest))) [
          | inl missing ↦ absurd (ground arith)
          | inr ((eol, skip), found) ↦
              let inside = find_eol_bounds (c ∷ rest) eol skip found in
              let found' = find_eol-append (c ∷ rest) more (eol, skip) found in
              rw (past_cr, past_lf, solid, found, found')
                (header_line-append (c ∷ rest) more eol skip (omega arith) inside.0
                  (rw (past_cr, past_lf, solid, found) at h))
        ]
      ]
    ]
  ]

headers_loop-IsStable :
    (fuel start pos : ℕ) (st : Framing) → IsStable (λ rest. headers_loop fuel start pos rest st)
unfolding headers_loop
headers_loop-IsStable zero start pos st rest more h = absurd (ground arith)
headers_loop-IsStable (suc fuel) start pos st rest more h =
    elim (Bool-cases (ltb max_header_bytes (pos - start))) [
      | inl long ↦ rw long refl
      | inr short ↦ rw short (
          header_step-IsStable (headers_loop fuel start)
            (λ pos' st'. headers_loop-IsStable fuel start pos' st') pos st rest more
            (rw short at h))
    ]

parse-append_found :
    (buf more : Bytes) (eol skip : ℕ)
    → find_eol buf ≡ some (eol, skip)
    → is_settled (parse buf) ≡ true
    → parse (buf ++ more) ≡ parse buf
unfolding parse
parse-append_found buf more eol skip found h =
    let inside = find_eol_bounds buf eol skip found in
    let found' = find_eol-append buf more (eol, skip) found in
    rw (found, found', parse)
      (rw (take-append_of_le eol buf more (omega arith))
        (elim (Bool-cases (ltb max_request_line eol)) [
          | inl long ↦ rw long refl
          | inr short ↦ elim (Parsed-cases (parse_request_line (take eol buf) Types.reset)) [
            | inl (e, bad) ↦ rw (short, bad) refl
            | inr (req, good) ↦
                rw (short, good, drop-append_of_le (eol + skip) buf more inside.0)
                  (headers_loop-IsStable loop_fuel (eol + skip) (eol + skip) (start_framing req)
                    (drop (eol + skip) buf) more (rw (short, good) at (rw (found, parse) at h)))
          ]
        ]))

-- A request that is parsed, and an error that is reported with `complete`, stay what they are
-- whatever bytes follow in the buffer.
pub parse-append :
    (buf more : Bytes) → is_settled (parse buf) ≡ true → parse (buf ++ more) ≡ parse buf
parse-append buf more h = elim (Option-cases (find_eol buf)) [
  | inl missing ↦ absurd (unfold parse in (ground arith))
  | inr ((eol, skip), found) ↦ parse-append_found buf more eol skip found h
]
