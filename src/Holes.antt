-- ===== src/Holes.antt =====
-- The blobs of the manifest: cmd/build/v2_compiler.go writes the holes, the file paths and the
-- middleware names of a route; cmd/main/holes.go, cmd/main/files.go and modules/router/v2_binary.go
-- read them. A template's source stands for the template that it parses to.
pub mod Blobs
pub mod Names
pub mod Offsets
mod Tests
use web_spa.Base.{
  ℕ, zero, suc, ◌+◌, ◌-◌, ◌*◌, ◌/◌, ◌%◌, ◌^◌, ◌≡◌, Bool, true, false, not, ◌&&◌, ◌||◌, List, [],
  ◌∷◌, ◌++◌, Option, none, some, Bytes, ◌==◌, leb, ltb, if◌then◌else◌, length, take, drop, fnv_1a,
}
use web_spa.Fastdb.Tables.{extract_tables}

-- `build.Hole`.
pub record Hole : Type 0 where
  pub position : ℕ
  pub sql : Bytes
  pub template : Bytes

-- `none` for the tables stands for nil.
pub record HoleRecord : Type 0 where
  pub position : ℕ
  pub sql : Bytes
  pub template : Bytes
  pub tables : Option (List Bytes)

pub data Holes : Type 0 where
  parsed : List HoleRecord → Holes
  invalid_blob bad_template : Holes

-- `PutUint16` and `PutUint32`, after the conversion to the width.
unfoldable pub u16_bytes : ℕ → Bytes
u16_bytes n = (n % 256) ∷ (n / 256 % 256) ∷ []

unfoldable pub u32_bytes : ℕ → Bytes
u32_bytes n = (n % 256) ∷ (n / 256 % 256) ∷ (n / 65536 % 256) ∷ (n / 16777216 % 256) ∷ []

-- `Uint16` and `Uint32` at the front of a slice; the readers test the length first.
unfoldable pub u16_at : Bytes → ℕ
u16_at (a ∷ b ∷ s) = a + 256 * b
u16_at _ = 0

unfoldable pub u32_at : Bytes → ℕ
u32_at (a ∷ b ∷ c ∷ d ∷ s) = a + 256 * b + 65536 * c + 16777216 * d
u32_at _ = 0

-- One round of the loop of `appendHoleBlob`.
unfoldable pub hole_bytes : Hole → Bytes
unfolding u16_bytes u32_bytes
hole_bytes h =
    u32_bytes h.position
    ++ (u16_bytes (length h.sql) ++ (h.sql ++ (u16_bytes (length h.template) ++ h.template)))

unfoldable pub holes_bytes : List Hole → Bytes
unfolding hole_bytes
holes_bytes [] = []
holes_bytes (h ∷ holes) = hole_bytes h ++ holes_bytes holes

-- Offset 0 is reserved, so that the first blob stands at 1.
abbrev pub reserve : Bytes → Bytes
reserve [] = 0 ∷ []
reserve (x ∷ blobs) = x ∷ blobs

-- `appendHoleBlob`: the section of blobs with the new one, and its offset.
unfoldable pub append_hole_blob : List Hole → Bytes → Bytes × ℕ
unfolding holes_bytes
append_hole_blob holes blobs = (
  reserve blobs ++ (u16_bytes (length holes) ++ holes_bytes holes),
  length (reserve blobs) % 2 ^ 32,
)

-- `appendFileBlob`.
unfoldable pub append_file_blob : Bytes → Bytes → Bytes × ℕ
unfolding u16_bytes
append_file_blob path blobs =
    (reserve blobs ++ (u16_bytes (length path) ++ path), length (reserve blobs) % 2 ^ 32)

-- `readFileBlob`; `none` is an error.
unfoldable pub read_file_blob : Bytes → Option Bytes
unfolding u16_at
read_file_blob blob =
    if ltb (length blob) 2
    then none
    else if ltb (length blob) (2 + u16_at blob)
    then none
    else some (take (u16_at blob) (drop 2 blob))

-- An empty query touches no table; a query that is too complex has none.
abbrev pub hole_tables : Bytes → Option (List Bytes)
hole_tables [] = some []
hole_tables (c ∷ sql) = extract_tables (c ∷ sql)

-- `templateCache`: templates by the hash of the source that was asked for.
abbrev pub Templates : Type 0
Templates = List (ℕ × Bytes)

unfoldable pub find_template : ℕ → Templates → Option Bytes
find_template key [] = none
find_template key ((k, t) ∷ cache) =
    let later = find_template key cache in if k == key then some t else later

-- `Template.Parse` says whether a source parses.
module _ (template_ok : Bytes → Bool) where
  abbrev pub parse_new : Templates → Bytes → Option Bytes → Templates × Option Bytes
  parse_new cache source (some t) = (cache, some t)
  parse_new cache source none =
      if template_ok source then ((fnv_1a source, source) ∷ cache, some source) else (cache, none)

  -- `getOrParseTemplate`: the key is a hash, and the sources are not compared.
  unfoldable pub get_or_parse_template : Templates → Bytes → Templates × Option Bytes
  unfolding find_template fnv_1a
  get_or_parse_template cache source = parse_new cache source (find_template (fnv_1a source) cache)

  -- What is put after a record.
  abbrev pub prepend : HoleRecord → Holes → Holes
  prepend h (parsed hs) = parsed (h ∷ hs)
  prepend h invalid_blob = invalid_blob
  prepend h bad_template = bad_template

  abbrev pub with_template :
      ℕ → Bytes → Templates → Option Bytes → Templates × Holes → Templates × Holes
  with_template position sql cache none later = (cache, bad_template)
  with_template position sql cache (some t) later = (
    later.0,
    prepend (record { position = position; sql = sql; template = t; tables = hole_tables sql })
        later.1,
  )

  -- The loop of `readHoles`, for the holes left and the blob from `pos` on.
  unfoldable pub read_holes_from : ℕ → Bytes → Templates → Templates × Holes
  unfolding u16_at u32_at get_or_parse_template
  read_holes_from zero blob cache = (cache, parsed [])
  read_holes_from (suc n) blob cache =
      let position = u32_at blob in
      let sql_len = u16_at (drop 4 blob) in
      let sql = take sql_len (drop 6 blob) in
      let rest = drop sql_len (drop 6 blob) in
      let tpl_len = u16_at rest in
      let template = take tpl_len (drop 2 rest) in
      let found = get_or_parse_template cache template in
      let later = read_holes_from n (drop tpl_len (drop 2 rest)) found.0 in
      if ltb (length blob) 10
      then (cache, invalid_blob)
      else if ltb (length blob) (6 + sql_len + 2)
      then (cache, invalid_blob)
      else if ltb (length rest) (2 + tpl_len)
      then (cache, invalid_blob)
      else with_template position sql found.0 found.1 later

  -- `readHoles`.
  unfoldable pub read_holes : Bytes → Templates → Templates × Holes
  unfolding read_holes_from
  read_holes blob cache =
      if ltb (length blob) 2
      then (cache, parsed [])
      else read_holes_from (u16_at blob) (drop 2 blob) cache

-- `appendMiddleware`: names of at most 255 bytes, with their lengths, and how many of them.
unfoldable pub names_bytes : List Bytes → Bytes × ℕ
names_bytes [] = ([], 0)
names_bytes (name ∷ names) =
    let (rest, count) = names_bytes names in
    if length name == 0
    then (rest, count)
    else let name' = if ltb 255 (length name) then take 255 name else name in
      (length name' ∷ (name' ++ rest), suc count)

-- The count is cut to eight bits.
unfoldable pub append_middleware : List Bytes → Bytes → Bytes × ℕ × ℕ
unfolding names_bytes
append_middleware names blobs =
    let (added, count) = names_bytes names in
    if count == 0 then (blobs, 0, 0) else (blobs ++ added, length blobs % 2 ^ 32, count % 256)

abbrev pub prepend_name : Bytes → Option (List Bytes) → Option (List Bytes)
prepend_name name none = none
prepend_name name (some names) = some (name ∷ names)

-- The loop of `MiddlewareNamesAt` from `pos` on; `none` is nil.
unfoldable pub names_from : ℕ → Bytes → Option (List Bytes)
names_from zero blob = some []
names_from (suc n) [] = none
names_from (suc n) (len ∷ blob) =
    let later = names_from n (drop len blob) in
    if ltb (length blob) len then none else prepend_name (take len blob) later

-- `MiddlewareNamesAt`.
unfoldable pub middleware_names_at : Bytes → ℕ → ℕ → Option (List Bytes)
unfolding names_from
middleware_names_at blobs off count = if count == 0 then none else names_from count (drop off blobs)
