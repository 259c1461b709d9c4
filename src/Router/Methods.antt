-- ===== src/Router/Methods.antt =====
-- modules/router/v2_binary.go: the methods of a route, as a mask of nine bits.
pub mod Masks
use Prim.Native.Nat.{bit_and, bit_or}
use web_spa.Base.{
  ℕ, ◌+◌, ◌*◌, Bool, true, false, not, ◌&&◌, ◌||◌, List, [], ◌∷◌, ◌++◌, Bytes, codes, bytes_eq,
  ◌==◌, if◌then◌else◌, length,
}

abbrev pub bit_get : ℕ
bit_get = 1

abbrev pub bit_head : ℕ
bit_head = 2

abbrev named : Bytes → Bytes → Bytes → Bool
named name upper lower = bytes_eq name upper || bytes_eq name lower

-- `methodBitOf`.
unfoldable pub method_bit_of : Bytes → ℕ
unfolding bytes_eq
method_bit_of name =
    if named name (codes "GET") (codes "get")
    then 1
    else if named name (codes "HEAD") (codes "head")
    then 2
    else if named name (codes "POST") (codes "post")
    then 4
    else if named name (codes "PUT") (codes "put")
    then 8
    else if named name (codes "PATCH") (codes "patch")
    then 16
    else if named name (codes "DELETE") (codes "delete")
    then 32
    else if named name (codes "OPTIONS") (codes "options")
    then 64
    else if named name (codes "CONNECT") (codes "connect")
    then 128
    else if named name (codes "TRACE") (codes "trace")
    then 256
    else 0

-- The end of a segment of the list.
unfoldable pub add_method : Bytes → ℕ → ℕ
unfolding method_bit_of
add_method [] bits = bits
add_method (c ∷ name) bits = bit_or bits (method_bit_of (c ∷ name))

-- The loop of `ParseMethods`, with the segment that began at `start`.
unfoldable pub parse_methods_from : Bytes → Bytes → ℕ → ℕ
unfolding add_method
parse_methods_from [] name bits = add_method name bits
parse_methods_from (c ∷ s) name bits =
    let ends = c == b',' || (c == b' ' || c == 9) in
    parse_methods_from s (if ends then [] else name ++ c ∷ [])
      (if ends then add_method name bits else bits)

abbrev pub with_head : ℕ → ℕ
with_head bits = if bit_and bits bit_get == 0 then bits else bit_or bits bit_head

-- `ParseMethods`.
unfoldable pub parse_methods : Bytes → ℕ
unfolding parse_methods_from
parse_methods [] = bit_or bit_get bit_head
parse_methods (c ∷ s) = with_head (parse_methods_from (c ∷ s) [] 0)

-- `add` in `AllowHeaderValue`.
abbrev pub allow_method : ℕ → Bytes → ℕ → Bytes → Bytes
allow_method bits name mask out =
    if bit_and bits mask == 0
    then out
    else (if length out == 0 then [] else out ++ codes ", ") ++ name

-- `AllowHeaderValue`.
unfoldable pub allow_header_value : ℕ → Bytes
allow_header_value bits =
    let o1 = allow_method bits (codes "GET") 1 [] in
    let o2 = allow_method bits (codes "HEAD") 2 o1 in
    let o3 = allow_method bits (codes "POST") 4 o2 in
    let o4 = allow_method bits (codes "PUT") 8 o3 in
    let o5 = allow_method bits (codes "PATCH") 16 o4 in
    let o6 = allow_method bits (codes "DELETE") 32 o5 in
    let o7 = allow_method bits (codes "OPTIONS") 64 o6 in
    let o8 = allow_method bits (codes "CONNECT") 128 o7 in allow_method bits (codes "TRACE") 256 o8
