-- ===== src/Fastdb/Tables.antt =====
-- modules/fastdb/invalidate.go: the tables that a query reads from. The text is ASCII, where
-- strings.ToLower works byte by byte.
use web_spa.Base.{
  ℕ, zero, suc, ◌+◌, ◌-◌, Bool, true, false, ◌&&◌, ◌||◌, List, [], ◌∷◌, ◌++◌, Option, none, some,
  Bytes, bytes_eq, codes, ◌==◌, leb, ltb, if◌then◌else◌, length, take, drop, get_elem?, map,
}
use web_spa.Gogohttp.Types.{index_byte}
use web_spa.Gogohttp.Scan.{fold_ascii, eq_fold_ascii}

abbrev pub is_ident_byte : ℕ → Bool
is_ident_byte b =
    b == b'_'
    || ((leb b'a' b && leb b b'z') || ((leb b'A' b && leb b b'Z') || (leb b'0' b && leb b b'9')))

abbrev pub is_space_byte : ℕ → Bool
is_space_byte b = b == b' ' || (b == 9 || (b == 10 || b == 13))

unfoldable pub contains_string : Bytes → List Bytes → Bool
contains_string s [] = false
contains_string s (x ∷ slice) = bytes_eq x s || contains_string s slice

-- `strings.HasPrefix`.
unfoldable pub has_prefix : Bytes → Bytes → Bool
has_prefix [] s = true
has_prefix (c ∷ word) [] = false
has_prefix (c ∷ word) (x ∷ s) = c == x && has_prefix word s

-- `strings.Index`, with -1 as `none`.
unfoldable pub index : Bytes → Bytes → Option ℕ
unfolding has_prefix
index word [] = if has_prefix word [] then some 0 else none
index word (x ∷ s) =
    let later = index word s in
    if has_prefix word (x ∷ s) then some 0 else (elim later [ none ↦ none | some j ↦ some (suc j) ])

-- Whether there is a byte at the place, and it is one of an identifier.
abbrev pub ident_at : Option ℕ → Bool
ident_at none = false
ident_at (some b) = is_ident_byte b

-- Whether the word at `k` touches an identifier.
abbrev pub touches : Bytes → ℕ → ℕ → Bool
touches s k n = (ltb 0 k && ident_at (get_elem? s (k - 1))) || ident_at (get_elem? s (k + n))

-- The loop of `nextKeyword`.
unfoldable pub keyword_loop : ℕ → Bytes → ℕ → Bytes → Option ℕ
unfolding index
keyword_loop zero s i word = none
keyword_loop (suc fuel) s i word = elim (leb (i + length word) (length s)) [
  | false ↦ none
  | true ↦ elim (index word (drop i s)) [
    | none ↦ none
    | some j ↦ elim (touches s (i + j) (length word)) [
      | true ↦ keyword_loop fuel s (i + j + 1) word
      | false ↦ some (i + j)
    ]
  ]
]

-- Each round of the loop goes at least one byte on.
unfoldable pub next_keyword : Bytes → ℕ → Bytes → Option ℕ
unfolding keyword_loop
next_keyword s off word = keyword_loop (suc (length s)) s off word

-- Both keywords have four bytes.
abbrev pub first_of : Option ℕ → Option ℕ → Option ℕ
first_of none b = b
first_of (some a) none = some a
first_of (some a) (some b) = if ltb a b then some a else some b

unfoldable pub find_from_or_join : Bytes → ℕ → Option ℕ
unfolding next_keyword
find_from_or_join s off =
    first_of (next_keyword s off (codes "from")) (next_keyword s off (codes "join"))

-- How many bytes at the front pass the test: the loops `for i < len(s) && test(s[i])`.
unfoldable pub span : (ℕ → Bool) → Bytes → ℕ
span p [] = 0
span p (x ∷ s) = let rest = span p s in if p x then suc rest else 0

unfoldable pub contains_cte : Bytes → Bool
unfolding span eq_fold_ascii
contains_cte sql =
    let s = drop (span is_space_byte sql) sql in
    if ltb (length s) 5
    then false
    else eq_fold_ascii (take 5 s) (codes "with ")
      || (eq_fold_ascii (take 5 s) (codes "with" ++ 9 ∷ [])
          || eq_fold_ascii (take 5 s) (codes "with" ++ 10 ∷ []))

-- `name[dot+1:]`.
unfoldable pub strip_schema : Bytes → Bytes
unfolding index_byte
strip_schema name = elim (index_byte name b'.') [ none ↦ name | some dot ↦ drop (dot + 1) name ]

unfoldable pub add_table : Bytes → List Bytes → List Bytes
unfolding contains_string
add_table name out = if length name == 0 || contains_string name out then out else out ++ name ∷ []

-- The brackets and quotes after a keyword at which the extraction gives up.
abbrev pub is_complex : ℕ → Bool
is_complex c = c == b'(' || (c == b'"' || (c == b'[' || c == b'`'))

-- What a round of the loop of `extractTables` comes to: `return nil`, `break`, or the next round.
pub data Round : Type 0 where
  give_up stop : Round
  go : ℕ → List Bytes → Round

-- From the place after the keyword and the space: the identifier there.
unfoldable pub take_table : Bytes → Bytes → ℕ → List Bytes → Round
unfolding strip_schema add_table span
take_table sql s i out = elim (get_elem? s i) [
  | none ↦ stop
  | some c ↦
      if is_complex c
      then give_up
      else let n = span is_ident_byte (drop i s) in
        if n == 0 then go i out else go (i + n) (add_table (strip_schema (take n (drop i sql))) out)
]

abbrev pub table_round : Bytes → Bytes → ℕ → List Bytes → Round
table_round sql s i out = elim (find_from_or_join s i) [
  | none ↦ stop
  | some idx ↦ take_table sql s (idx + 4 + span is_space_byte (drop (idx + 4) s)) out
]

-- The loop; `none` is the nil slice.
unfoldable pub tables_loop : ℕ → Bytes → Bytes → ℕ → List Bytes → Option (List Bytes)
unfolding find_from_or_join take_table
tables_loop zero sql s i out = some out
tables_loop (suc fuel) sql s i out = elim (table_round sql s i out) [
  | give_up ↦ none
  | stop ↦ some out
  | go i' out' ↦ tables_loop fuel sql s i' out'
]

-- A slice that nothing was appended to is nil.
abbrev pub non_nil : Option (List Bytes) → Option (List Bytes)
non_nil none = none
non_nil (some []) = none
non_nil (some (x ∷ xs)) = some (x ∷ xs)

-- `extractTables`: each round goes past a keyword, so the length is fuel enough.
unfoldable pub extract_tables : Bytes → Option (List Bytes)
unfolding contains_cte tables_loop fold_ascii
extract_tables sql =
    if contains_cte sql
    then none
    else non_nil (tables_loop (suc (length sql)) sql (map fold_ascii sql) 0 [])
