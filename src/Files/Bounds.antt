-- ===== src/Files/Bounds.antt =====
-- The byte ranges of cmd/main/files.go against the size of the file.
use web_spa.Base.{
  ℕ, zero, suc, ◌+◌, ◌-◌, ◌≤◌, ◌<◌, ◌≡◌, refl, ap, ◌∙◌, subst, inl, inr, false, ◌&&◌, ◌||◌, [], ◌∷◌,
  ◌++◌, Option, none, some, Bytes, codes, ◌==◌, leb, ltb, take, drop, arith, Bool-cases,
}
use web_spa.Gogohttp.Types.{index_byte}
use web_spa.Fastdb.Tables.{has_prefix}
use web_spa.Files.{
  Signed, minus_one, at, before, Range, suffix_range, open_range, closed_range, spec_range,
  first_spec, split_range, parse_int, parse_byte_range,
}

-- A range of at least one byte, within the file.
abbrev pub Within : ℕ → Range → Type 0
Within total r = (last : ℕ) × (r.end ≡ at last) × (r.start ≤ last) × (last < total)

abbrev AllWithin : ℕ → Option Range → Type 0
AllWithin total none = Unit
AllWithin total (some r) = Within total r

before_pos : (total : ℕ) → 0 < total → before total ≡ at (total - 1)
before_pos zero h = absurd (omega arith)
before_pos (suc n) h = ground arith

suffix_range-Within :
    (n : Option Signed) (total : ℕ) → 0 < total → AllWithin total (suffix_range n total)
suffix_range-Within none total h = tt
suffix_range-Within (some n) total h = elim (Bool-cases (n.negative || n.size == 0)) [
  | inl refused ↦ rw refused tt
  | inr taken ↦ rw taken (total - 1, before_pos total h, ground arith, omega arith)
]

open_range-Within : (s : Option Signed) (total : ℕ) → AllWithin total (open_range s total)
open_range-Within none total = tt
open_range-Within (some s) total =
    elim (Bool-cases ((s.negative && ltb 0 s.size) || leb total s.size)) [
      | inl refused ↦ rw refused tt
      | inr taken ↦
          rw taken (total - 1, before_pos total (ground arith), ground arith, ground arith)
    ]

closed_range-Within : (s e : Option Signed) (total : ℕ) → AllWithin total (closed_range s e total)
closed_range-Within none e total = tt
closed_range-Within (some s) none total = tt
closed_range-Within (some s) (some e) total =
    elim (Bool-cases (
      (s.negative && ltb 0 s.size)
      || (((e.negative && ltb 0 e.size) || ltb e.size s.size) || leb total s.size))) [
        | inl refused ↦ rw refused tt
        | inr taken ↦ elim (Bool-cases (leb total e.size)) [
          | inl cut ↦
              rw (taken, cut)
                (total - 1, before_pos total (ground arith), ground arith, ground arith)
          | inr whole ↦ rw (taken, whole) (e.size, refl, ground arith, ground arith)
        ]
      ]

spec_range-Within :
    (start end : Bytes) (total : ℕ) → 0 < total → AllWithin total (spec_range start end total)
spec_range-Within [] [] total h = tt
spec_range-Within [] (d ∷ end) total h = suffix_range-Within (parse_int (d ∷ end)) total h
spec_range-Within (c ∷ start) [] total h = open_range-Within (parse_int (c ∷ start)) total
spec_range-Within (c ∷ start) (d ∷ end) total h =
    closed_range-Within (parse_int (c ∷ start)) (parse_int (d ∷ end)) total

split_range-Within :
    (spec : Bytes) (dash : Option ℕ) (total : ℕ)
    → 0 < total
    → AllWithin total (split_range spec dash total)
split_range-Within spec none total h = tt
split_range-Within spec (some dash) total h =
    spec_range-Within (take dash spec) (drop (dash + 1) spec) total h

all_ranges :
    (header : Bytes) (total : ℕ) → 0 < total → AllWithin total (parse_byte_range header total)
unfolding parse_byte_range
all_ranges header total h = elim (Bool-cases (has_prefix (codes "bytes=") header)) [
  | inl named ↦
      rw (named, parse_byte_range)
        (split_range-Within (first_spec (drop 6 header))
          (index_byte (first_spec (drop 6 header)) b'-') total h)
  | inr other ↦ rw (other, parse_byte_range) tt
]

-- Whatever the Range header says, a range that is served of a file that is not empty has at least
-- one byte and lies in the file.
pub parse_byte_range-Within :
    (header : Bytes) (total : ℕ) {r : Range}
    → 0 < total
    → parse_byte_range header total ≡ some r
    → Within total r
parse_byte_range-Within header total h e = subst (AllWithin total) e (all_ranges header total h)

no_comma : (t : Bytes) → index_byte t b',' ≡ none → index_byte (b'-' ∷ t) b',' ≡ none
unfolding index_byte
no_comma t h = rw (h, index_byte) refl

dash_first : (t : Bytes) → index_byte (b'-' ∷ t) b'-' ≡ some 0
unfolding index_byte
dash_first t = refl

-- Of an empty file, `bytes=-N` with any positive N is answered with the range from 0 to -1, which
-- is no range.
pub parse_byte_range-empty :
    (c : ℕ) (s : Bytes) (n : Signed)
    → index_byte (c ∷ s) b',' ≡ none
    → parse_int (c ∷ s) ≡ some n
    → n.negative ≡ false
    → 0 < n.size
    → parse_byte_range (codes "bytes=-" ++ c ∷ s) 0 ≡ some (record { start = 0; end = minus_one })
unfolding parse_byte_range has_prefix
parse_byte_range-empty c s n plain number positive some_bytes =
    let whole : first_spec (b'-' ∷ c ∷ s) ≡ b'-' ∷ c ∷ s = rw (no_comma (c ∷ s) plain) refl in
    ap (λ spec. split_range spec (index_byte spec b'-') 0) whole
    ∙ ap (λ dash. split_range (b'-' ∷ c ∷ s) dash 0) (dash_first (c ∷ s))
    ∙ ap (λ n'. suffix_range n' 0) number
    ∙ (ground arith)
