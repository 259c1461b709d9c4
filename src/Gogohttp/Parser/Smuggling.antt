-- ===== src/Gogohttp/Parser/Smuggling.antt =====
-- Message framing: what `Parse` of modules/gogohttp/parser.go admits as Content-Length and
-- Transfer-Encoding.
use web_spa.Base.{
  ℕ, zero, suc, ◌+◌, ◌-◌, ◌≡◌, refl, sym, subst, Bool, true, false, ◌&&◌, List, [], ◌∷◌, ◌++◌,
  Bytes, take, drop, arith, Bool-cases, Option-cases, inl, inr, ltb, ◌==◌,
}
use web_spa.Gogohttp.Types.{Header, ContentLength, max_headers, max_header_bytes, n_headers}
use web_spa.Gogohttp.Scan.{cr, lf, find_eol}
use web_spa.Gogohttp.Parser.{
  Framing, Outcome, incomplete, exhausted, complete, failed, finish, finish_cr, header_line,
  header_step, headers_loop, start_framing, loop_fuel, parse, parse_header, is_blank,
}
use web_spa.Gogohttp.Parser.HeaderLine.{
  Parsed-cases, IsStored, parse_header-IsStored, apply_header-headers,
}
use web_spa.Gogohttp.Parser.Loop.{parse-cases, parse_request_line_fresh}
use web_spa.Gogohttp.Parser.Flags.{
  is_cl, is_te, IsFramed, FlagsAgree, Agrees, names_differ, apply_header-other, apply_header-cl,
  apply_header-te, push_other, push_cl, push_te,
}

module _ (st st' : Framing) (s : IsStored st st') (agrees : Agrees st) where
  open s.header use {name, value}

  kept_headers : s.between.req.headers ≡ st.req.headers
  kept_headers = apply_header-headers name value st s.between s.applied

  between-Agrees :
      FlagsAgree s.between.has_cl s.between.has_te s.between.req.content_length
        (st.req.headers ++ s.header ∷ [])
  between-Agrees = elim (Bool-cases (is_cl name)) [
    | inl cl ↦
        let (fresh, set, same, n, decoded, length_set) =
          apply_header-cl name value st s.between cl s.applied in
        rw (set, same, length_set)
          (push_cl st.req.headers s.header st.has_te st.req.content_length n cl (not_te cl) decoded
            (subst (λ a. FlagsAgree a st.has_te st.req.content_length st.req.headers) fresh agrees))
    | inr other ↦ elim (Bool-cases (is_te name)) [
      | inl te ↦
          let (says_chunked, same, set, length_set) =
            apply_header-te name value st s.between te s.applied in
          rw (same, set, length_set)
            (push_te st.req.headers s.header st.has_cl st.has_te st.req.content_length other te
              says_chunked agrees)
      | inr plain ↦
          let (same_cl, same_te, same_length) =
            apply_header-other name value st s.between other plain s.applied in
          rw (same_cl, same_te, same_length)
            (push_other st.req.headers s.header st.has_cl st.has_te st.req.content_length other
              plain agrees)
    ]
  ]
    where
      not_te : is_cl name ≡ true → is_te name ≡ false
      not_te cl = elim (Bool-cases (is_te name)) [
        | inl te ↦ absurd (names_differ name cl te)
        | inr other ↦ other
      ]

  -- One stored header keeps the flags in agreement with the headers.
  stored-Agrees : Agrees st'
  stored-Agrees = subst Agrees (sym s.pushed) (rw kept_headers between-Agrees)

-- A complete request is framed by its headers in one way only.
abbrev pub FramedOutcome : Outcome → Type 0
FramedOutcome incomplete = Unit
FramedOutcome exhausted = Unit
FramedOutcome (complete n req) = IsFramed req.content_length req.headers
FramedOutcome (failed whole e) = Unit

Agrees-IsFramed :
    (a b : Bool) (cl : ContentLength) (hs : List Header)
    → (a && b) ≡ false
    → FlagsAgree a b cl hs
    → IsFramed cl hs
Agrees-IsFramed false false cl hs e f = rw f.0 (f.1, f.2)
Agrees-IsFramed true false cl hs e (n, is_n, one, no_te, decodes, _) = rw is_n (one, no_te, decodes)
Agrees-IsFramed false true cl hs e f = rw f.0 (f.1, f.2, f.3)
Agrees-IsFramed true true cl hs e f = absurd (ground arith)

finish-FramedOutcome : (n : ℕ) (st : Framing) → Agrees st → FramedOutcome (finish n st)
unfolding finish
finish-FramedOutcome n st f = elim (Bool-cases (st.has_cl && st.has_te)) [
  | inl both ↦ rw both tt
  | inr one ↦ rw one (Agrees-IsFramed st.has_cl st.has_te _ _ one f)
]

finish_cr-FramedOutcome :
    (pos : ℕ) (rest : Bytes) (st : Framing) → Agrees st → FramedOutcome (finish_cr pos rest st)
unfolding finish_cr
finish_cr-FramedOutcome pos [] st f = tt
finish_cr-FramedOutcome pos (d ∷ rest) st f = elim (Bool-cases (d == lf)) [
  | inl at_lf ↦ rw at_lf (finish-FramedOutcome (pos + 2) st f)
  | inr other ↦ rw other tt
]

module _ (next : ℕ → Bytes → Framing → Outcome)
    (framed : (pos : ℕ) (rest : Bytes) (st : Framing)
      → Agrees st
      → FramedOutcome (next pos rest st))
    (pos : ℕ) (st : Framing) (agrees : Agrees st) where
  header_line-FramedOutcome :
      (rest : Bytes) (eol skip : ℕ) → FramedOutcome (header_line next pos rest st eol skip)
  unfolding header_line
  header_line-FramedOutcome rest eol skip = elim (Bool-cases (ltb (n_headers st.req) max_headers)) [
    | inr full ↦ rw full tt
    | inl free ↦ rw free (elim (Parsed-cases (parse_header (take eol rest) st)) [
      | inl (e, bad) ↦ rw bad tt
      | inr (st', good) ↦
          rw good
            (framed _ _ st' (stored-Agrees st st' (parse_header-IsStored _ st st' good) agrees))
    ])
  ]

  header_step-FramedOutcome : (rest : Bytes) → FramedOutcome (header_step next pos rest st)
  unfolding header_step
  header_step-FramedOutcome [] = tt
  header_step-FramedOutcome (c ∷ rest) = elim (Bool-cases (c == cr)) [
    | inl at_cr ↦ rw at_cr (finish_cr-FramedOutcome pos rest st agrees)
    | inr past_cr ↦ rw past_cr (elim (Bool-cases (c == lf)) [
      | inl at_lf ↦ rw at_lf (finish-FramedOutcome (pos + 1) st agrees)
      | inr past_lf ↦ rw past_lf (elim (Bool-cases (is_blank c)) [
        | inl blank ↦ rw blank tt
        | inr solid ↦ rw solid (elim (Option-cases (find_eol (c ∷ rest))) [
          | inl missing ↦ rw missing tt
          | inr ((eol, skip), found) ↦ rw found (header_line-FramedOutcome (c ∷ rest) eol skip)
        ])
      ])
    ])
  ]

headers_loop-FramedOutcome :
    (fuel start pos : ℕ) (rest : Bytes) (st : Framing)
    → Agrees st
    → FramedOutcome (headers_loop fuel start pos rest st)
unfolding headers_loop
headers_loop-FramedOutcome zero start pos rest st f = tt
headers_loop-FramedOutcome (suc fuel) start pos rest st f =
    elim (Bool-cases (ltb max_header_bytes (pos - start))) [
      | inl long ↦ rw long tt
      | inr short ↦ rw short (
          header_step-FramedOutcome (headers_loop fuel start)
            (headers_loop-FramedOutcome fuel start) pos st f rest)
    ]

-- No complete request is ambiguously framed. Without either header its length is absent. With an
-- explicit length it has one Content-Length header, which spells that length, and no
-- Transfer-Encoding. If it is chunked it has no Content-Length, and each of its Transfer-Encoding
-- headers says "chunked".
pub parse-FramedOutcome : (buf : Bytes) → FramedOutcome (parse buf)
unfolding start_framing
parse-FramedOutcome buf = elim (parse-cases buf) [
  | inl more ↦ rw more tt
  | inr (inl (whole, e, bad)) ↦ rw bad tt
  | inr (inr (eol, skip, req, s)) ↦
      let fresh = parse_request_line_fresh (take eol buf) req s.line in
      rw s.looped (
        headers_loop-FramedOutcome loop_fuel (eol + skip) (eol + skip) (drop (eol + skip) buf)
          (start_framing req) (rw (fresh.0, fresh.1) (refl, refl, refl, refl)))
]
