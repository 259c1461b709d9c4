-- ===== src/Gogohttp/Parser/HeaderLine.antt =====
-- One header line: what `parseHeader` of modules/gogohttp/parser.go stores.
use web_spa.Base.{
  ◌+◌, ◌≡◌, refl, ap, true, Bytes, length, take, drop, all, arith, Bool-cases, inl, inr, ◌⊎◌,
  length-append, ◌∙◌,
}
use web_spa.Gogohttp.Types.{Header, ParseError, n_headers}
use web_spa.Gogohttp.Scan.{is_token_char}
use web_spa.Gogohttp.Parser.{
  Parsed, accept, reject, ◌>>=◌, Framing, apply_header, push_header, store_header, parse_header,
  trim_left, trim_right, index_after_start,
}

pub Parsed-cases {ℓ} :
    {A : Type ℓ} (r : Parsed A) → ((e : ParseError) × (r ≡ reject e)) ⊎ ((a : A) × (r ≡ accept a))
Parsed-cases (accept a) = inr (a, refl)
Parsed-cases (reject e) = inl (e, refl)

pub >>=-accept {ℓ ℓ'} :
    {X : Type ℓ} {Y : Type ℓ'} {y : Y} (first : Parsed X) (next : X → Parsed Y)
    → first >>= next ≡ accept y
    → (x : X) × (first ≡ accept x) × (next x ≡ accept y)
>>=-accept (reject e) next both = absurd (ground arith)
>>=-accept (accept x) next both = (x, refl, both)

-- The framing fields change by `apply_header`, and then the header is stored.
pub record IsStored (st st' : Framing) : Type 0 where
  pub header : Header
  pub between : Framing
  pub named : all is_token_char header.name ≡ true
  pub applied : apply_header header.name header.value st ≡ accept between
  pub pushed : st' ≡ push_header header between

store_header-IsStored :
    (name value : Bytes) (st st' : Framing)
    → store_header name value st ≡ accept st'
    → IsStored st st'
unfolding store_header
store_header-IsStored name value st st' h = elim (Bool-cases (all is_token_char name)) [
  | inl named ↦
      let (between, applied, e) = >>=-accept (apply_header name value st) _ (rw named at h) in
      record {
        header = record { name = name; value = value };
        between = between;
        named = named;
        applied = applied;
        pushed = ground arith;
      }
  | inr bad ↦ absurd (ground arith)
]

pub parse_header-IsStored :
    (line : Bytes) (st st' : Framing) → parse_header line st ≡ accept st' → IsStored st st'
unfolding parse_header
parse_header-IsStored line st st' h =
    let (colon, _, stored) = >>=-accept (index_after_start line b':') _ h in
    store_header-IsStored (take colon line) (trim_right (trim_left (drop (colon + 1) line))) st st'
      stored

pub apply_header-headers :
    (name value : Bytes) (st st' : Framing)
    → apply_header name value st ≡ accept st'
    → st'.req.headers ≡ st.req.headers
unfolding apply_header
apply_header-headers name value st st' h = ground arith

pub parse_header-n_headers :
    (line : Bytes) (st st' : Framing)
    → parse_header line st ≡ accept st'
    → n_headers st'.req ≡ n_headers st.req + 1
parse_header-n_headers line st st' h =
    let s = parse_header-IsStored line st st' h in
    ap (λ (f : Framing). n_headers f.req) s.pushed
    ∙ length-append _ _
    ∙ ap (λ hs. length hs + 1)
        (apply_header-headers s.header.name s.header.value st s.between s.applied)
