-- ===== src/Gogohttp/Parser.antt =====
-- modules/gogohttp/parser.go: the request line, one header line, and `Parse`.
pub mod HeaderLine
pub mod Loop
pub mod Stable
pub mod Flags
pub mod Smuggling
use web_spa.Base.{
  ℕ, zero, suc, ◌+◌, ◌-◌, ◌≡◌, Bool, true, false, not, ◌&&◌, ◌||◌, List, [], ◌∷◌, ◌++◌, Option,
  none, some, Bytes, codes, ◌==◌, leb, ltb, if◌then◌else◌, length, take, drop, all,
}
use web_spa.Gogohttp.Types
use web_spa.Gogohttp.Types.{
  Req, Header, ParseError, ContentLength, Method, unknown, index_byte, malformed, too_many_headers,
  line_too_long, headers_too_long, smuggling, bad_method, bad_version, obs_fold, bad_content_len,
  unsupported_te, max_headers, max_request_line, max_header_bytes, n_headers,
}
use web_spa.Gogohttp.Scan.{
  cr, lf, tab, find_eol, eq_fold_ascii, parse_decimal, is_token_char, method_from_bytes, is_digit,
}

-- A step returns its value or one of the errors of types.go.
pub data Parsed {ℓ} (A : Type ℓ) : Type ℓ where
  reject : ParseError → Parsed A
  accept : A → Parsed A

infixl 5 ◌>>=◌
abbrev pub ◌>>=◌ {ℓ ℓ'} : {X : Type ℓ} {Y : Type ℓ'} → Parsed X → (X → Parsed Y) → Parsed Y
reject e >>= next = reject e
accept x >>= next = next x

-- The position of `c`, which must not be missing or first: `sp <= 0` in the source.
unfoldable pub index_after_start : Bytes → ℕ → Parsed ℕ
index_after_start b c = elim (index_byte b c) [
  | none ↦ reject malformed
  | some i ↦ if i == 0 then reject malformed else accept i
]

-- The path and the query of a target.
unfoldable pub split_target : Bytes → Bytes × Bytes
split_target target = elim (index_byte target b'?') [
  | some q ↦ (take q target, drop (q + 1) target)
  | none ↦ (target, [])
]

-- `HTTP/d.d`: the two digits.
unfoldable pub parse_version : Bytes → Parsed (ℕ × ℕ)
parse_version (h ∷ t ∷ t' ∷ p ∷ slash ∷ major ∷ dot ∷ minor ∷ []) =
    if h == b'H' && (t == b'T' && (t' == b'T' && (p == b'P' && (slash == b'/' && dot == b'.'))))
    then (if ltb major b'0' || (ltb b'9' major || (ltb minor b'0' || ltb b'9' minor))
        then reject bad_version
        else accept (major - b'0', minor - b'0'))
    else reject bad_version
parse_version _ = reject bad_version

abbrev pub known_method : Bytes → Parsed Method
known_method b = elim (method_from_bytes b) [ unknown ↦ reject bad_method | m ↦ accept m ]

-- `parseRequestLine`. The second space is not the first byte of the rest, so the target is not empty.
unfoldable pub parse_request_line : Bytes → Req → Parsed Req
parse_request_line line req = do
  sp1 ← index_after_start line b' '
  let rest = drop (sp1 + 1) line
  sp2 ← index_after_start rest b' '
  m ← known_method (take sp1 line)
  let target = take sp2 rest
  (if length target == 0 then reject malformed else accept tt) >>= λ (u : Unit {0}).
      parse_version (drop (sp2 + 1) rest) >>= λ v. accept (record req {
        method = m;
        path = (split_target target).0;
        query = (split_target target).1;
        major = v.0;
        minor = v.1;
      })

abbrev pub is_blank : ℕ → Bool
is_blank c = c == b' ' || c == tab

-- The first trimming loop of `parseHeader`.
unfoldable pub trim_left : Bytes → Bytes
trim_left [] = []
trim_left (c ∷ b) = if is_blank c then trim_left b else c ∷ b

-- The second one: the blanks at the end go.
unfoldable pub trim_right : Bytes → Bytes
trim_right [] = []
trim_right (c ∷ b) = elim (trim_right b) [
  | [] ↦ if is_blank c then [] else c ∷ []
  | d ∷ r ↦ c ∷ d ∷ r
]

-- What the loop of `Parse` changes: the request and the two flags.
pub record Framing : Type 0 where
  pub req : Req
  pub has_cl : Bool
  pub has_te : Bool

-- The `switch` of `parseHeader` on the length of the name.
unfoldable pub apply_header : Bytes → Bytes → Framing → Parsed Framing
apply_header name value st =
    if length name == 4
    then (if eq_fold_ascii name (codes "Host")
        then accept (record st { req = record (st.req) { host = value } })
        else accept st)
    else if length name == 10
    then (if eq_fold_ascii name (codes "Connection")
        then (if eq_fold_ascii value (codes "close")
            then accept (record st { req = record (st.req) { keep_alive = false } })
            else if eq_fold_ascii value (codes "keep-alive")
            then accept (record st { req = record (st.req) { keep_alive = true } })
            else accept st)
        else accept st)
    else if length name == 14
    then (if eq_fold_ascii name (codes "Content-Length")
        then (if st.has_cl then reject smuggling else elim (parse_decimal value) [
          | none ↦ reject bad_content_len
          | some n ↦ accept (record st {
            req = record (st.req) { content_length = ContentLength.explicit n };
            has_cl = true;
          })
        ])
        else accept st)
    else if length name == 17
    then (if eq_fold_ascii name (codes "Transfer-Encoding")
        then (if eq_fold_ascii value (codes "chunked")
            then accept (record st {
              req = record (st.req) { content_length = ContentLength.chunked };
              has_te = true;
            })
            else reject unsupported_te)
        else accept st)
    else accept st

-- The last lines of `parseHeader`.
abbrev pub push_header : Header → Framing → Framing
push_header h st = record st { req = record (st.req) { headers = st.req.headers ++ h ∷ [] } }

-- `parseHeader` from its test of the name on; the value is trimmed already.
unfoldable pub store_header : Bytes → Bytes → Framing → Parsed Framing
store_header name value st =
    if all is_token_char name
    then (apply_header name value st >>= λ st'.
        accept (push_header (record { name = name; value = value }) st'))
    else reject malformed

-- `parseHeader`.
unfoldable pub parse_header : Bytes → Framing → Parsed Framing
parse_header line st = do
  colon ← index_after_start line b':'
  store_header (take colon line) (trim_right (trim_left (drop (colon + 1) line))) st

-- What `Parse` returns: it wants more bytes, a request that ends before the position, or an error,
-- with the `complete` that goes with it. `exhausted` is no result of the code.
pub data Outcome : Type 0 where
  incomplete exhausted : Outcome
  complete : ℕ → Req → Outcome
  failed : Bool → ParseError → Outcome

-- The empty line that ends the headers.
unfoldable pub finish : ℕ → Framing → Outcome
finish n st = if st.has_cl && st.has_te then failed true smuggling else complete n st.req

-- After a '\r' at the start of a line.
unfoldable pub finish_cr : ℕ → Bytes → Framing → Outcome
finish_cr pos [] st = incomplete
finish_cr pos (d ∷ rest) st = if d == lf then finish (pos + 2) st else failed true malformed

-- One header line of length `eol`: `next` is the next round of the loop.
unfoldable pub header_line : (ℕ → Bytes → Framing → Outcome) → ℕ → Bytes → Framing → ℕ → ℕ → Outcome
header_line next pos rest st eol skip =
    if ltb (n_headers st.req) max_headers
    then elim (parse_header (take eol rest) st) [
      | reject e ↦ failed true e
      | accept st' ↦ next (pos + (eol + skip)) (drop (eol + skip) rest) st'
    ]
    else failed true too_many_headers

-- The body of the loop of `Parse` from its test that `pos` is inside the buffer.
unfoldable pub header_step : (ℕ → Bytes → Framing → Outcome) → ℕ → Bytes → Framing → Outcome
header_step next pos [] st = incomplete
header_step next pos (c ∷ rest) st =
    if c == cr
    then finish_cr pos rest st
    else if c == lf
    then finish (pos + 1) st
    else if is_blank c
    then failed true obs_fold
    else elim (find_eol (c ∷ rest)) [
      | none ↦ incomplete
      | some (eol, skip) ↦ header_line next pos (c ∷ rest) st eol skip
    ]

-- The loop of `Parse`: `rest` is the buffer from `pos` on.
unfoldable pub headers_loop : ℕ → ℕ → ℕ → Bytes → Framing → Outcome
headers_loop zero start pos rest st = exhausted
headers_loop (suc fuel) start pos rest st =
    if ltb max_header_bytes (pos - start)
    then failed true headers_too_long
    else header_step (headers_loop fuel start) pos rest st

-- HTTP/1.1 keeps the connection alive by default, HTTP/1.0 does not.
unfoldable pub start_framing : Req → Framing
start_framing req = record {
  req = record req { keep_alive = req.major == 1 && leb 1 req.minor };
  has_cl = false;
  has_te = false;
}

-- Each round but the last stores a header, and there is room for `max_headers`.
abbrev pub loop_fuel : ℕ
loop_fuel = max_headers + 1

-- `Parse`.
unfoldable pub parse : Bytes → Outcome
parse buf = elim (find_eol buf) [
  | none ↦ if ltb max_request_line (length buf) then failed false line_too_long else incomplete
  | some (eol, skip) ↦
      if ltb max_request_line eol
      then failed false line_too_long
      else elim (parse_request_line (take eol buf) Types.reset) [
        | reject e ↦ failed true e
        | accept req ↦
            headers_loop loop_fuel (eol + skip) (eol + skip) (drop (eol + skip) buf)
              (start_framing req)
      ]
]
