-- ===== src/Router/Manifest/Load.antt =====
-- `Load` of modules/router/v2_binary.go on the bytes of the file, and the `Write` of
-- cmd/build/v2_compiler.go. The JSON text of the mime table is a parameter.
use web_spa.Base.{
  ℕ, zero, suc, ◌+◌, ◌-◌, ◌*◌, not, List, [], ◌∷◌, ◌++◌, Option, none, some, Bytes, codes, bytes_eq,
  ◌==◌, ltb, if◌then◌else◌, length, take, drop,
}
use web_spa.Holes.{u32_bytes, u32_at}
use web_spa.Router.Trie.{insert as insert_route, Trie, Step, advance, failed, fault, new_trie}
use web_spa.Router.Manifest.{RouteEntry, Manifest, slice}
use web_spa.Router.Manifest.Codec.{entry_bytes, entry_at}

-- An error of `Load`, and a panic, are values.
pub data Loaded : Type 0 where
  loaded : Manifest → Loaded
  bad_file crashed : Loaded

abbrev pub magic : Bytes
magic = codes "GOGOV5" ++ 0 ∷ 0 ∷ []

-- The decoding of the table.
unfoldable pub entries_at : ℕ → Bytes → List RouteEntry
unfolding entry_at
entries_at zero s = []
entries_at (suc n) s = entry_at s ∷ entries_at n (drop 64 s)

-- A path of the table as a pattern.
abbrev pub as_pattern : Bytes → Bytes
as_pattern [] = codes "/"
as_pattern (c ∷ path) = if c == b'/' then c ∷ path else b'/' ∷ c ∷ path

abbrev pub after_insert : (Trie → Option (Option Trie)) → Step (Unit {0}) → Option (Option Trie)
after_insert next (advance t u) = next t
after_insert next (failed t e) = some none
after_insert next fault = none

abbrev pub insert_path :
    (Trie → Option (Option Trie)) → Trie → ℕ → Option Bytes → Option (Option Trie)
insert_path next t i none = none
insert_path next t i (some path) = after_insert next (insert_route t (as_pattern path) (i + 1))

-- The loop that builds the trie: a panic is `none` outside, an error `none` inside.
unfoldable pub build_trie : Bytes → List RouteEntry → ℕ → Trie → Option (Option Trie)
unfolding slice
build_trie paths [] i t = some (some t)
build_trie paths (e ∷ table) i t =
    insert_path (build_trie paths table (i + 1)) t i (slice paths e.path_offset e.path_len)

abbrev pub with_trie : Manifest → Option (Option Trie) → Loaded
with_trie m none = crashed
with_trie m (some none) = bad_file
with_trie m (some (some t)) = loaded (record m { trie = t })

-- `s[from:to]`.
abbrev pub sub : Bytes → ℕ → ℕ → Bytes
sub s from to = take (to - from) (drop from s)

-- The four sizes of the trailer.
pub record Sizes : Type 0 where
  pub json : ℕ
  pub paths : ℕ
  pub holes : ℕ
  pub middleware : ℕ

abbrev pub sizes_at : Bytes → Sizes
sizes_at s =
    let size = length s in
    record {
      json = u32_at (drop (size - 4) s);
      paths = u32_at (drop (size - 8) s);
      holes = u32_at (drop (size - 12) s);
      middleware = u32_at (drop (size - 16) s);
    }

abbrev pub total : Sizes → ℕ
total z = z.json + z.paths + z.holes + z.middleware

module _ (decode : Bytes → Option (List Bytes)) where
  -- An empty text leaves the mime table nil.
  abbrev pub mimes_of : Bytes → Option (List Bytes)
  mimes_of [] = some []
  mimes_of (c ∷ json) = decode (c ∷ json)

  abbrev pub load_mimes : Manifest → Option (List Bytes) → Loaded
  load_mimes m none = bad_file
  load_mimes m (some mimes) =
      with_trie (record m { mime_table = mimes }) (build_trie m.paths m.table 0 new_trie)

  -- The sections lie before the trailer, and are found backwards from it.
  abbrev pub load_sections : ℕ → Bytes → ℕ → List RouteEntry → Sizes → Loaded
  load_sections pointer s table_end table z =
      let size = length s in
      let json_start = size - 16 - z.json in
      let mw_start = json_start - z.middleware in
      let holes_start = mw_start - z.holes in
      let paths_start = holes_start - z.paths in
      if ltb size (table_end + total z + 16)
      then bad_file
      else load_mimes
          (record {
            pointer = pointer;
            table = table;
            payloads = sub s table_end paths_start;
            paths = sub s paths_start holes_start;
            hole_blobs = sub s holes_start mw_start;
            middleware_blobs = sub s mw_start json_start;
            mime_table = [];
            trie = new_trie;
          })
          (mimes_of (sub s json_start (json_start + z.json)))

  abbrev pub load_table : ℕ → Bytes → ℕ → Loaded
  load_table pointer s n =
      let table_end = 12 + 64 * n in
      if ltb (length s) table_end
      then bad_file
      else (if ltb (length s) (table_end + 16)
          then bad_file
          else load_sections pointer s table_end (entries_at n (drop 12 s)) (sizes_at s))

  -- `Load` on the bytes of the file; `pointer` stands for the address of the manifest.
  unfoldable pub load : ℕ → Bytes → Loaded
  unfolding bytes_eq entries_at build_trie u32_at
  load pointer s =
      if ltb (length s) 12
      then bad_file
      else (if not (bytes_eq (take 8 s) magic)
          then bad_file
          else load_table pointer s (u32_at (drop 8 s)))

-- The parts that `Write` puts into the file.
pub record Parts : Type 0 where
  pub nodes : List RouteEntry
  pub payloads : Bytes
  pub paths : Bytes
  pub hole_blobs : Bytes
  pub mw_blobs : Bytes
  pub mime_json : Bytes

unfoldable pub entries_bytes : List RouteEntry → Bytes
unfolding entry_bytes
entries_bytes [] = []
entries_bytes (e ∷ table) = entry_bytes e ++ entries_bytes table

abbrev pub trailer : Parts → Bytes
trailer c =
    u32_bytes (length c.mw_blobs)
    ++ (u32_bytes (length c.hole_blobs)
        ++ (u32_bytes (length c.paths) ++ u32_bytes (length c.mime_json)))

-- What `Write` writes, for nodes in order.
unfoldable pub write_parts : Parts → Bytes
unfolding entries_bytes u32_bytes
write_parts c =
    magic
    ++ (u32_bytes (length c.nodes)
        ++ (entries_bytes c.nodes
            ++ (c.payloads
                ++ (c.paths ++ (c.hole_blobs ++ (c.mw_blobs ++ (c.mime_json ++ trailer c)))))))
