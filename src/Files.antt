-- ===== src/Files.antt =====
-- cmd/main/files.go: the byte range that a file route serves.
pub mod Bounds
mod Tests
use web_spa.Base.{
  ℕ, zero, suc, ◌+◌, ◌-◌, ◌*◌, ◌^◌, Bool, true, false, not, ◌&&◌, ◌||◌, List, [], ◌∷◌, ◌++◌, Option,
  none, some, Bytes, codes, ◌==◌, leb, ltb, if◌then◌else◌, length, take, drop,
}
use web_spa.Gogohttp.Types.{index_byte}
use web_spa.Fastdb.Tables.{has_prefix}

-- An integer as its sign and its size; a size of 0 has either sign.
pub record Signed : Type 0 where
  pub negative : Bool
  pub size : ℕ

-- The digits of `strconv.ParseInt`, with the value so far.
unfoldable pub digits_from : ℕ → Bytes → Option ℕ
digits_from n [] = some n
digits_from n (c ∷ s) =
    let rest = digits_from (n * 10 + (c - b'0')) s in
    if leb b'0' c && leb c b'9' then rest else none

unfoldable pub digits : Bytes → Option ℕ
unfolding digits_from
digits [] = none
digits (c ∷ s) = digits_from 0 (c ∷ s)

-- Within 64 bits.
abbrev pub in_int64 : Bool → Option ℕ → Option Signed
in_int64 negative none = none
in_int64 negative (some n) =
    if ltb n (2 ^ 63 + (if negative then 1 else 0))
    then some (record { negative = negative; size = n })
    else none

-- `strconv.ParseInt(s, 10, 64)`.
unfoldable pub parse_int : Bytes → Option Signed
unfolding digits
parse_int [] = none
parse_int (c ∷ s) =
    if c == b'-'
    then in_int64 true (digits s)
    else if c == b'+'
    then in_int64 false (digits s)
    else in_int64 false (digits (c ∷ s))

-- `n <= 0` and `n < 0`.
abbrev pub not_positive : Signed → Bool
not_positive n = n.negative || n.size == 0

abbrev pub is_negative : Signed → Bool
is_negative n = n.negative && ltb 0 n.size

-- The inclusive end of a range, `total - 1` where `total` may be 0.
pub data End : Type 0 where
  minus_one : End
  at : ℕ → End

abbrev pub before : ℕ → End
before zero = minus_one
before (suc n) = at n

pub record Range : Type 0 where
  pub start : ℕ
  pub end : End

-- `bytes=-N`.
abbrev pub suffix_range : Option Signed → ℕ → Option Range
suffix_range none total = none
suffix_range (some n) total =
    if not_positive n
    then none
    else let n' = if ltb total n.size then total else n.size in
      some (record { start = total - n'; end = before total })

-- `bytes=N-`.
abbrev pub open_range : Option Signed → ℕ → Option Range
open_range none total = none
open_range (some s) total =
    if is_negative s || leb total s.size
    then none
    else some (record { start = s.size; end = before total })

-- `e < s` for an `s` that is not negative.
abbrev pub below : Signed → ℕ → Bool
below e s = is_negative e || ltb e.size s

-- `bytes=N-M`.
abbrev pub closed_range : Option Signed → Option Signed → ℕ → Option Range
closed_range none e total = none
closed_range (some s) none total = none
closed_range (some s) (some e) total =
    if is_negative s || (below e s.size || leb total s.size)
    then none
    else some
        (record { start = s.size; end = if leb total e.size then before total else at e.size })

abbrev pub spec_range : Bytes → Bytes → ℕ → Option Range
spec_range [] [] total = none
spec_range [] (d ∷ end) total = suffix_range (parse_int (d ∷ end)) total
spec_range (c ∷ start) [] total = open_range (parse_int (c ∷ start)) total
spec_range (c ∷ start) (d ∷ end) total =
    closed_range (parse_int (c ∷ start)) (parse_int (d ∷ end)) total

abbrev pub up_to : Option ℕ → Bytes → Bytes
up_to none spec = spec
up_to (some comma) spec = take comma spec

-- Of several ranges the first.
abbrev pub first_spec : Bytes → Bytes
first_spec spec = up_to (index_byte spec b',') spec

abbrev pub split_range : Bytes → Option ℕ → ℕ → Option Range
split_range spec none total = none
split_range spec (some dash) total = spec_range (take dash spec) (drop (dash + 1) spec) total

-- `parseByteRange`, of a file with `total` bytes; `none` where `ok` is false.
unfoldable pub parse_byte_range : Bytes → ℕ → Option Range
unfolding has_prefix index_byte parse_int
parse_byte_range header total =
    if not (has_prefix (codes "bytes=") header)
    then none
    else let spec = first_spec (drop 6 header) in split_range spec (index_byte spec b'-') total
