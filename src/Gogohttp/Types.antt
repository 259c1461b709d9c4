-- ===== src/Gogohttp/Types.antt =====
-- modules/gogohttp/types.go: methods, headers, the parsed request and the parser's errors.
use web_spa.Base.{
  ℕ, zero, suc, ◌+◌, ◌*◌, Bool, true, false, ◌&&◌, List, [], ◌∷◌, Option, none, some, Bytes, codes,
  ◌==◌, if◌then◌else◌, length, take, drop,
}

abbrev pub max_headers : ℕ
max_headers = 32

abbrev pub max_request_line : ℕ
max_request_line = 8 * 1024

abbrev pub max_header_bytes : ℕ
max_header_bytes = 64 * 1024

pub data Method : Type 0 where
  unknown get head post put delete options patch connect trace : Method

-- `Method.String`.
unfoldable pub method_string : Method → Bytes
method_string unknown = []
method_string get = codes "GET"
method_string head = codes "HEAD"
method_string post = codes "POST"
method_string put = codes "PUT"
method_string delete = codes "DELETE"
method_string options = codes "OPTIONS"
method_string patch = codes "PATCH"
method_string connect = codes "CONNECT"
method_string trace = codes "TRACE"

pub record Header : Type 0 where
  pub name : Bytes
  pub value : Bytes

-- The `ContentLength` field: -1 is `absent`, -2 is `chunked`, any other value is `explicit`.
pub data ContentLength : Type 0 where
  absent chunked : ContentLength
  explicit : ℕ → ContentLength

-- `headers` holds the first `NHeaders` slots of the array, which are the ones that are read.
pub record Req : Type 0 where
  pub method : Method
  pub path : Bytes
  pub query : Bytes
  pub major : ℕ
  pub minor : ℕ
  pub headers : List Header
  pub content_length : ContentLength
  pub keep_alive : Bool
  pub host : Bytes
  pub body : Bytes

abbrev pub n_headers : Req → ℕ
n_headers req = length req.headers

-- `Req.Reset`: what it leaves does not depend on the request that was there.
abbrev pub reset : Req
reset = record {
  method = unknown;
  path = [];
  query = [];
  major = 0;
  minor = 0;
  headers = [];
  content_length = absent;
  keep_alive = false;
  host = [];
  body = [];
}

pub data ParseError : Type 0 where
  malformed too_many_headers line_too_long headers_too_long smuggling : ParseError
  bad_method bad_version obs_fold bad_content_len unsupported_te : ParseError

-- `indexByte`, and `bytes.IndexByte`, which the parser uses: `none` stands for -1.
unfoldable pub index_byte : Bytes → ℕ → Option ℕ
index_byte [] c = none
index_byte (x ∷ b) c =
    if x == c then some 0 else elim (index_byte b c) [ none ↦ none | some i ↦ some (suc i) ]

-- The loop of `eqBytes`, after its test that the lengths agree.
eq_bytes_from : Bytes → Bytes → Bool
eq_bytes_from (x ∷ a) (y ∷ b) = x == y && eq_bytes_from a b
eq_bytes_from _ _ = true

unfoldable pub eq_bytes : Bytes → Bytes → Bool
unfolding eq_bytes_from
eq_bytes a b = if length a == length b then eq_bytes_from a b else false

-- One round of the loop of `QueryValue`: the pair up to the next '&', and the query after it.
unfoldable pub next_pair : Bytes → Bytes × Bytes
next_pair q = elim (index_byte q b'&') [
  | some amp ↦ (take amp q, drop (amp + 1) q)
  | none ↦ (q, [])
]

-- The value of a pair whose key is `key`.
unfoldable pub pair_value : Bytes → Bytes → Option Bytes
pair_value key pair = elim (index_byte pair b'=') [
  | some eq ↦ if eq_bytes (take eq pair) key then some (drop (eq + 1) pair) else none
  | none ↦ none
]

-- The loop of `QueryValue`, `none` when the fuel runs out.
unfoldable pub query_loop : ℕ → Bytes → Bytes → Option Bytes
query_loop fuel key [] = some []
query_loop zero key (c ∷ q) = none
query_loop (suc fuel) key (c ∷ q) =
    let (pair, rest) = next_pair (c ∷ q) in
    elim (pair_value key pair) [ some v ↦ some v | none ↦ query_loop fuel key rest ]

-- `Req.QueryValue`: each round drops at least one byte, so the length of the query is fuel enough.
unfoldable pub query_value : Req → Bytes → Option Bytes
unfolding query_loop
query_value req key = query_loop (length req.query) key req.query
