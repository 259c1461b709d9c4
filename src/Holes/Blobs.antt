-- ===== src/Holes/Blobs.antt =====
-- The blobs of holes and middleware names of cmd/build/v2_compiler.go as cmd/main/holes.go and
-- modules/router/v2_binary.go read them back.
use web_spa.Base.{
  ℕ, zero, suc, ◌+◌, ◌*◌, ◌/◌, ◌%◌, ◌^◌, ◌≤◌, ◌<◌, ◌≡◌, refl, ap, ◌∙◌, Bool, true, false, List, [],
  ◌∷◌, ◌++◌, none, some, Bytes, ◌==◌, ltb, if◌then◌else◌, length, take, drop, arith, length-append,
  take-length, drop-length, append_assoc, lt→ltb, ltb→lt, ltb→ge, ge→ltb, Bool-cases, ◌⊎◌, Option,
  fnv_1a, inl, inr,
}
use web_spa.Holes.{
  Holes, Templates, find_template, get_or_parse_template, prepend, invalid_blob, Hole, HoleRecord,
  parsed, u16_bytes, u32_bytes, u16_at, u32_at, hole_bytes, holes_bytes, append_hole_blob,
  hole_tables, read_holes_from, read_holes, names_bytes, append_middleware, middleware_names_at,
}
use web_spa.Holes.Offsets.{drop-reserve}
use web_spa.Holes.Names.{names_short, names_bytes-count, names_from-names_bytes}

-- A template that parses and is not in the cache, or that the cache has for its hash: no other one
-- of the same hash is there.
abbrev pub Resolves : (Bytes → Bool) → Templates → Bytes → Type 0
Resolves ok cache t =
    (find_template (fnv_1a t) cache ≡ some t)
    ⊎ ((find_template (fnv_1a t) cache ≡ none) × (ok t ≡ true))

-- The cache after a template was asked for.
abbrev pub cached : Templates → Bytes → Option Bytes → Templates
cached cache t none = (fnv_1a t, t) ∷ cache
cached cache t (some u) = cache

abbrev pub cache_after : Templates → Bytes → Templates
cache_after cache t = cached cache t (find_template (fnv_1a t) cache)

get_or_parse_template-Resolves :
    (ok : Bytes → Bool) (cache : Templates) (t : Bytes)
    → Resolves ok cache t
    → get_or_parse_template ok cache t ≡ (cache_after cache t, some t)
unfolding get_or_parse_template
get_or_parse_template-Resolves ok cache t (inl found) = rw found refl
get_or_parse_template-Resolves ok cache t (inr (new, parses)) = rw (new, parses) refl

-- What the format can hold: 16-bit lengths and a 32-bit position. And each template resolves in the
-- cache as the holes before it leave it.
abbrev pub Fits : (Bytes → Bool) → Templates → List Hole → Type 0
Fits ok cache [] = Unit
Fits ok cache (h ∷ holes) =
    ((h.position < 2 ^ 32)
      × (length h.sql < 65536)
      × (length h.template < 65536)
      × Resolves ok cache h.template)
    × Fits ok (cache_after cache h.template) holes

abbrev pub record_of : Hole → HoleRecord
record_of h = record {
  position = h.position;
  sql = h.sql;
  template = h.template;
  tables = hole_tables h.sql;
}

abbrev pub records : List Hole → List HoleRecord
records [] = []
records (h ∷ holes) = record_of h ∷ records holes

-- The last hole has fewer than two bytes of text, together with what follows in the section.
abbrev pub short_end : List Hole → Bytes → Bool
short_end [] later = false
short_end (h ∷ []) later = ltb (length h.sql + length h.template + length later) 2
short_end (h ∷ g ∷ holes) later = short_end (g ∷ holes) later

abbrev IsHole : (Bytes → Bool) → Templates → Hole → Type 0
IsHole ok cache h = Fits ok cache (h ∷ [])

length-hole_bytes : (h : Hole) → length (hole_bytes h) ≡ 8 + length h.sql + length h.template
unfolding hole_bytes u16_bytes u32_bytes
length-hole_bytes h = omega (
  arith,
  length-append h.sql ((length h.template % 256) ∷ (length h.template / 256 % 256) ∷ h.template),
)

read_hole :
    (ok : Bytes → Bool) (n : ℕ) (h : Hole) (rest : Bytes) (cache : Templates) {o : Holes}
    → IsHole ok cache h
    → 2 ≤ length h.sql + length h.template + length rest
    → (read_holes_from ok n rest (cache_after cache h.template)).1 ≡ o
    → (read_holes_from ok (suc n) (hole_bytes h ++ rest) cache).1 ≡ prepend ok (record_of h) o
unfolding read_holes_from hole_bytes u16_bytes u32_bytes u16_at u32_at
read_hole ok n h rest cache (fits, _) long later =
    let position : h.position % 256
          + 256 * (h.position / 256 % 256)
          + 65536 * (h.position / 65536 % 256)
          + 16777216 * (h.position / 16777216 % 256)
        ≡ h.position =
      omega arith in
    let sql_len : length h.sql % 256 + 256 * (length h.sql / 256 % 256) ≡ length h.sql =
      omega arith in
    let tpl_len : length h.template % 256 + 256 * (length h.template / 256 % 256)
        ≡ length h.template =
      omega arith in
    let tail = (length h.template % 256) ∷ (length h.template / 256 % 256) ∷ h.template in
    rw
      (
        sql_len,
        append_assoc h.sql tail rest,
        take-length h.sql (tail ++ rest),
        drop-length h.sql (tail ++ rest),
        tpl_len,
        take-length h.template rest,
        drop-length h.template rest,
        position,
        get_or_parse_template-Resolves ok cache h.template fits.3,
        later,
      )
      (ground (arith, length-append h.sql (tail ++ rest), length-append h.template rest))

short_hole :
    (ok : Bytes → Bool) (n : ℕ) (h : Hole) (rest : Bytes) (cache : Templates)
    → length h.sql + length h.template + length rest < 2
    → (read_holes_from ok (suc n) (hole_bytes h ++ rest) cache).1 ≡ invalid_blob
unfolding read_holes_from
short_hole ok n h rest cache short =
    let few : ltb (length (hole_bytes h ++ rest)) 10 ≡ true =
      lt→ltb _ _ (omega (arith, length-append (hole_bytes h) rest, length-hole_bytes h)) in
    rw few refl

prepend-if :
    (ok : Bytes → Bool) (h : HoleRecord) (hs : List HoleRecord) (b : Bool)
    → prepend ok h (if b then invalid_blob else parsed hs)
      ≡ (if b then invalid_blob else parsed (h ∷ hs))
prepend-if ok h hs true = refl
prepend-if ok h hs false = refl

no_holes :
    (ok : Bytes → Bool) (blob : Bytes) (cache : Templates)
    → (read_holes_from ok zero blob cache).1 ≡ parsed []
unfolding read_holes_from
no_holes ok blob cache = refl

read_holes_from-holes_bytes :
    (ok : Bytes → Bool) (holes : List Hole) (later : Bytes) (cache : Templates)
    → Fits ok cache holes
    → (read_holes_from ok (length holes) (holes_bytes holes ++ later) cache).1
      ≡ (if short_end holes later then invalid_blob else parsed (records holes))
unfolding holes_bytes
read_holes_from-holes_bytes ok [] later cache fits = no_holes ok later cache
read_holes_from-holes_bytes ok (h ∷ []) later cache (fits, _) =
    ap (λ b. (read_holes_from ok 1 b cache).1) (append_assoc (hole_bytes h) [] later)
    ∙ elim (Bool-cases (short_end (h ∷ []) later)) [
      | inl short ↦ rw short (short_hole ok 0 h later cache (ltb→lt _ _ short))
      | inr long ↦
          rw long (read_hole ok 0 h later cache (fits, tt) (ltb→ge _ _ long) (no_holes ok later _))
    ]
read_holes_from-holes_bytes ok (h ∷ g ∷ holes) later cache (fits, others) =
    let rest : Bytes = holes_bytes (g ∷ holes) ++ later in
    ap (λ b. (read_holes_from ok (suc (suc (length holes))) b cache).1)
      (append_assoc (hole_bytes h) (holes_bytes (g ∷ holes)) later)
    ∙ (read_hole ok (suc (length holes)) h rest cache (fits, tt)
          (omega (
            arith,
            length-append (holes_bytes (g ∷ holes)) later,
            length-append (hole_bytes g) (holes_bytes holes),
            length-hole_bytes g,
          ))
          (read_holes_from-holes_bytes ok (g ∷ holes) later _ others)
        ∙ prepend-if ok (record_of h) (records (g ∷ holes)) (short_end (g ∷ holes) later))

read_holes-bytes :
    (ok : Bytes → Bool) (holes : List Hole) (later : Bytes) (cache : Templates)
    → length holes < 65536
    → Fits ok cache holes
    → (read_holes ok ((u16_bytes (length holes) ++ holes_bytes holes) ++ later) cache).1
      ≡ (if short_end holes later then invalid_blob else parsed (records holes))
unfolding read_holes u16_bytes u16_at
read_holes-bytes ok holes later cache few fits =
    let n : length holes % 256 + 256 * (length holes / 256 % 256) ≡ length holes = omega arith in
    let enough : ltb (suc (suc (length (holes_bytes holes ++ later)))) 2 ≡ false =
      ge→ltb _ _ (omega arith) in
    rw n (rw enough (read_holes_from-holes_bytes ok holes later cache fits))

-- Fewer than 65536 holes of a route, with texts below 65536 bytes and positions below 2^32, in a
-- section below 2^32 bytes, whose templates parse and meet no other template of the same hash in the
-- cache, are read back from their offset, with the tables of each query. There is one exception:
-- when the last hole has fewer than two bytes of text together with what follows in the section, the
-- blob is rejected.
pub read_holes-append_hole_blob :
    (ok : Bytes → Bool) (cache : Templates) (holes : List Hole) (blobs later : Bytes)
    → length holes < 65536
    → Fits ok cache holes
    → length blobs < 2 ^ 32
    → (read_holes ok
        (drop (append_hole_blob holes blobs).1 ((append_hole_blob holes blobs).0 ++ later))
        cache).1
      ≡ (if short_end holes later then invalid_blob else parsed (records holes))
unfolding append_hole_blob
read_holes-append_hole_blob ok cache holes blobs later few fits small =
    ap (λ b. (read_holes ok b cache).1)
      (drop-reserve blobs (u16_bytes (length holes) ++ holes_bytes holes) later small)
    ∙ read_holes-bytes ok holes later cache few fits

-- Of the middleware names of a route, none of them empty or longer than 255 bytes, the server reads
-- back the first n modulo 256, whatever follows in the section: all of them below 256 names, and no
-- list at all at a multiple of 256.
pub middleware_names_at-append_middleware :
    (names : List Bytes) (blobs later : Bytes)
    → names_short names ≡ true
    → 0 < length names
    → length blobs < 2 ^ 32
    → middleware_names_at
        ((append_middleware names blobs).0 ++ later)
        (append_middleware names blobs).1
        (append_middleware names blobs).2
      ≡ (if length names % 256 == 0 then none else some (take (length names % 256) names))
unfolding middleware_names_at append_middleware
middleware_names_at-append_middleware names blobs later short some_names fits =
    let count = names_bytes-count names short in
    let here : (length names == 0) ≡ false = ground arith in
    let offset : length blobs % 2 ^ 32 ≡ length blobs = omega arith in
    rw
      (
        count,
        here,
        offset,
        append_assoc blobs (names_bytes names).0 later,
        drop-length blobs ((names_bytes names).0 ++ later),
        names_from-names_bytes (length names % 256) names later short (omega arith),
      )
      refl
