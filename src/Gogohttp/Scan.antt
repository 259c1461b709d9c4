-- ===== src/Gogohttp/Scan.antt =====
-- modules/gogohttp/parser.go: the scanners and tables that the parser calls.
pub mod Eol
pub mod Fold
pub mod Decimal
use web_spa.Base.{
  ℕ, zero, suc, ◌+◌, ◌-◌, ◌*◌, ◌/◌, ◌^◌, ◌≡◌, Bool, true, false, ◌&&◌, ◌||◌, List, [], ◌∷◌, Option,
  none, some, Bytes, codes, bytes_eq, ◌==◌, leb, ltb, if◌then◌else◌, length, map,
}
use web_spa.Gogohttp.Types.{
  Method, unknown, get, head, post, put, delete, options, patch, connect, trace,
}

abbrev pub cr : ℕ
cr = 13

abbrev pub lf : ℕ
lf = 10

abbrev pub tab : ℕ
tab = 9

-- At a '\n' in position `i`.
abbrev pub eol_at : Bool → ℕ → Option (ℕ × ℕ)
eol_at after_cr i = if after_cr then some (i - 1, 2) else some (i, 1)

-- The loop of `findEOL`: `after_cr` says that the byte before position `i` is a '\r'.
unfoldable pub find_eol_from : Bool → ℕ → Bytes → Option (ℕ × ℕ)
find_eol_from after_cr i [] = none
find_eol_from after_cr i (c ∷ b) =
    let later = find_eol_from (c == cr) (i + 1) b in if c == lf then eol_at after_cr i else later

-- `findEOL`: where the terminator begins, and its length.
unfoldable pub find_eol : Bytes → Option (ℕ × ℕ)
find_eol b = find_eol_from false 0 b

-- `ca |= 0x20` in `'A'..'Z'`, where bit 5 is clear.
unfoldable pub fold_ascii : ℕ → ℕ
fold_ascii c = if leb b'A' c && leb c b'Z' then c + 0x20 else c

-- The loop of `eqFoldASCII`, after its test that the lengths agree.
eq_fold_from : Bytes → Bytes → Bool
unfolding fold_ascii
eq_fold_from (x ∷ a) (y ∷ b) = fold_ascii x == fold_ascii y && eq_fold_from a b
eq_fold_from _ _ = true

unfoldable pub eq_fold_ascii : Bytes → Bytes → Bool
unfolding eq_fold_from
eq_fold_ascii a b = if length a == length b then eq_fold_from a b else false

-- The largest value that the overflow guard lets through, `1<<62 - 1`.
abbrev pub decimal_max : ℕ
decimal_max = 2 ^ 62 - 1

abbrev pub is_digit : ℕ → Bool
is_digit c = leb b'0' c && leb c b'9'

-- The loop of `parseDecimal`.
unfoldable pub parse_decimal_from : ℕ → Bytes → Option ℕ
parse_decimal_from n [] = some n
parse_decimal_from n (c ∷ b) =
    let rest = parse_decimal_from (n * 10 + (c - b'0')) b in
    if ltb c b'0' || ltb b'9' c
    then none
    else (if ltb ((decimal_max - (c - b'0')) / 10) n then none else rest)

unfoldable pub parse_decimal : Bytes → Option ℕ
unfolding parse_decimal_from
parse_decimal [] = none
parse_decimal (c ∷ b) = parse_decimal_from 0 (c ∷ b)

abbrev pub one_of : Bytes → ℕ → Bool
one_of [] c = false
one_of (x ∷ xs) c = x == c || one_of xs c

-- `isTokenChar`, as its `init` fills it.
unfoldable pub is_token_char : ℕ → Bool
is_token_char c =
    (leb b'a' c && leb c b'z')
    || (leb b'A' c && leb c b'Z')
    || (leb b'0' c && leb c b'9')
    || one_of (codes "!#$%&'*+-.^_`|~") c

abbrev select_eq {ℓ} : {A : Type ℓ} → Bytes → Bytes → A → A → A
select_eq b name x y = if bytes_eq b name then x else y

-- `methodFromBytes`.
unfoldable pub method_from_bytes : Bytes → Method
method_from_bytes b =
    if length b == 3
    then select_eq b (codes "GET") get (select_eq b (codes "PUT") put unknown)
    else if length b == 4
    then select_eq b (codes "POST") post (select_eq b (codes "HEAD") head unknown)
    else if length b == 5
    then select_eq b (codes "PATCH") patch (select_eq b (codes "TRACE") trace unknown)
    else if length b == 6
    then select_eq b (codes "DELETE") delete unknown
    else if length b == 7
    then select_eq b (codes "OPTIONS") options (select_eq b (codes "CONNECT") connect unknown)
    else unknown
