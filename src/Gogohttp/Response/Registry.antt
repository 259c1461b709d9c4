-- ===== src/Gogohttp/Response/Registry.antt =====
-- modules/gogohttp/sugar.go: the heads by status, the builder of a registry, and the methods of Resp
-- that set a status. `splitMimeKey` is in cmd/main/main.go.
pub mod Heads
use web_spa.Base.{
  ℕ, zero, suc, ◌+◌, ◌%◌, ◌^◌, Bool, true, false, List, [], ◌∷◌, ◌++◌, Option, none, some, Bytes,
  codes, bytes_eq, set, length, take, drop, if◌then◌else◌,
}
use Prim.Native.String.{String}
use web_spa.Gogohttp.Types.{index_byte}
use web_spa.Gogohttp.Response.{Resp, crlf, lines}

abbrev pub head_id_204 : ℕ
head_id_204 = 2

abbrev pub head_id_301 : ℕ
head_id_301 = 3

abbrev pub head_id_302 : ℕ
head_id_302 = 4

abbrev pub head_id_400 : ℕ
head_id_400 = 6

abbrev pub head_id_401 : ℕ
head_id_401 = 7

abbrev pub head_id_403 : ℕ
head_id_403 = 8

abbrev pub head_id_404 : ℕ
head_id_404 = 9

abbrev pub head_id_405 : ℕ
head_id_405 = 10

abbrev pub head_id_500 : ℕ
head_id_500 = 11

abbrev pub head_id_user_start : ℕ
head_id_user_start = 32

abbrev server : String
server = "Server: Gogogo"

abbrev plain_text : String
plain_text = "Content-Type: text/plain; charset=utf-8"

-- The entries that `DefaultRegistry` assigns, by HeadID.
abbrev pub default_heads : List (ℕ × List String)
default_heads =
    (
      1,
      "HTTP/1.1 101 Switching Protocols" ∷ server ∷ "Upgrade: websocket" ∷ "Connection: Upgrade"
          ∷ [],
    )
    ∷ (head_id_204, "HTTP/1.1 204 No Content" ∷ server ∷ [])
    ∷ (head_id_301, "HTTP/1.1 301 Moved Permanently" ∷ server ∷ [])
    ∷ (head_id_302, "HTTP/1.1 302 Found" ∷ server ∷ [])
    ∷ (5, "HTTP/1.1 304 Not Modified" ∷ server ∷ [])
    ∷ (head_id_400, "HTTP/1.1 400 Bad Request" ∷ server ∷ plain_text ∷ [])
    ∷ (head_id_401, "HTTP/1.1 401 Unauthorized" ∷ server ∷ plain_text ∷ [])
    ∷ (head_id_403, "HTTP/1.1 403 Forbidden" ∷ server ∷ plain_text ∷ [])
    ∷ (head_id_404, "HTTP/1.1 404 Not Found" ∷ server ∷ plain_text ∷ [])
    ∷ (head_id_405, "HTTP/1.1 405 Method Not Allowed" ∷ server ∷ plain_text ∷ [])
    ∷ (head_id_500, "HTTP/1.1 500 Internal Server Error" ∷ server ∷ plain_text ∷ [])
    ∷ (12, "HTTP/1.1 503 Service Unavailable" ∷ server ∷ plain_text ∷ [])
    ∷ []

abbrev pub assign_all : List (ℕ × List String) → List (Option Bytes) → List (Option Bytes)
assign_all [] r = r
assign_all ((id, head) ∷ heads) r = assign_all heads (set r id (some (lines head)))

-- `make([][]byte, n)`.
abbrev nil_entries : ℕ → List (Option Bytes)
nil_entries zero = []
nil_entries (suc n) = none ∷ nil_entries n

-- `DefaultRegistry`.
unfoldable pub default_registry : List (Option Bytes)
default_registry = assign_all default_heads (nil_entries head_id_user_start)

pub record RegistryBuilder : Type 0 where
  pub entries : List (Option Bytes)
  pub mime_ids : List (Bytes × ℕ)

unfoldable pub new_registry_builder : RegistryBuilder
unfolding default_registry
new_registry_builder = record { entries = default_registry; mime_ids = [] }

-- The map of mime keys; a key is written only when it is not there.
abbrev pub id_of : List (Bytes × ℕ) → Bytes → Option ℕ
id_of [] key = none
id_of ((k, id) ∷ ids) key = if bytes_eq k key then some id else id_of ids key

abbrev pub mime_key : Bytes → Bytes → Bytes
mime_key mime [] = mime
mime_key mime (c ∷ encoding) = mime ++ b'|' ∷ c ∷ encoding

abbrev pub mime_head : Bytes → Bytes → Bytes
mime_head mime [] =
    lines ("HTTP/1.1 200 OK" ∷ "Server: Gogogo" ∷ []) ++ (codes "Content-Type: " ++ (mime ++ crlf))
mime_head mime (c ∷ encoding) =
    lines ("HTTP/1.1 200 OK" ∷ "Server: Gogogo" ∷ [])
    ++ (codes "Content-Type: "
        ++ (mime ++ (crlf ++ (codes "Content-Encoding: " ++ ((c ∷ encoding) ++ crlf)))))

-- `uint16(len(rb.entries))`.
abbrev pub next_id : RegistryBuilder → ℕ
next_id rb = length rb.entries % 2 ^ 16

abbrev pub add_new : Bytes → Bytes → RegistryBuilder → Option ℕ → ℕ × RegistryBuilder
add_new mime encoding rb (some id) = (id, rb)
add_new mime encoding rb none = (
  next_id rb,
  record {
    entries = rb.entries ++ some (mime_head mime encoding) ∷ [];
    mime_ids = (mime_key mime encoding, next_id rb) ∷ rb.mime_ids;
  },
)

-- `AddMimeWithEncoding`.
unfoldable pub add_mime_with_encoding : Bytes → Bytes → RegistryBuilder → ℕ × RegistryBuilder
unfolding bytes_eq
add_mime_with_encoding mime encoding rb =
    add_new mime encoding rb (id_of rb.mime_ids (mime_key mime encoding))

-- `AddMime`.
unfoldable pub add_mime : Bytes → RegistryBuilder → ℕ × RegistryBuilder
unfolding add_mime_with_encoding
add_mime mime rb = add_mime_with_encoding mime [] rb

-- `Add`.
unfoldable pub add_head : Bytes → RegistryBuilder → ℕ × RegistryBuilder
add_head head rb = (next_id rb, record rb { entries = rb.entries ++ some head ∷ [] })

-- `MimeID`: 0 if the key is absent.
unfoldable pub mime_id : Bytes → RegistryBuilder → ℕ
unfolding bytes_eq
mime_id mime rb = elim (id_of rb.mime_ids mime) [ none ↦ 0 | some id ↦ id ]

-- `splitMimeKey`.
unfoldable pub split_mime_key : Bytes → Bytes × Bytes
unfolding index_byte
split_mime_key key = elim (index_byte key b'|') [
  | some i ↦ (take i key, drop (i + 1) key)
  | none ↦ (key, [])
]

-- The status methods of `Resp`.
abbrev pub set_head : ℕ → Resp → Resp
set_head id r = record r { head_id = id }

abbrev pub not_found : Resp → Resp
not_found = set_head head_id_404

abbrev pub no_content : Resp → Resp
no_content = set_head head_id_204

abbrev pub server_error : Resp → Resp
server_error = set_head head_id_500

abbrev pub bad_request : Resp → Resp
bad_request = set_head head_id_400

abbrev pub forbidden : Resp → Resp
forbidden = set_head head_id_403

abbrev pub unauthorized : Resp → Resp
unauthorized = set_head head_id_401

abbrev pub method_not_allowed : Resp → Resp
method_not_allowed = set_head head_id_405

-- `Redirect`.
unfoldable pub redirect : Bytes → Bool → Resp → Resp
redirect url permanent r = record r {
  head_id = if permanent then head_id_301 else head_id_302;
  extra_headers = codes "Location: " ++ (url ++ crlf);
}
