-- ===== src/Compiler.antt =====
-- cmd/build/v2_compiler.go: the routes that the build puts into a manifest. The compressors of
-- modules/compress are parameters.
pub mod Payloads
mod Tests
use Prim.Native.Nat.{bit_or, bit_xor}
use web_spa.Base.{
  ℕ, zero, suc, ◌+◌, ◌*◌, ◌%◌, ◌^◌, Bool, true, false, not, ◌&&◌, ◌||◌, List, [], ◌∷◌, ◌++◌, Option,
  none, some, Bytes, codes, ◌==◌, ltb, leb, if◌then◌else◌, length,
}
use web_spa.Fastdb.Tables.{has_prefix}
use web_spa.Gogohttp.Parser.{trim_left, trim_right}
use web_spa.Gogohttp.Response.Registry.{id_of, mime_key}
use web_spa.Router.Methods.{parse_methods, bit_get, bit_head}
use web_spa.Router.Manifest.{Variant, RouteEntry}
use web_spa.Router.Manifest.Load.{Parts, write_parts}
use web_spa.Holes.{Hole, append_middleware, append_file_blob, append_hole_blob}

pub record V2Compiler : Type 0 where
  pub nodes : List RouteEntry
  pub payloads : Bytes
  pub paths : Bytes
  pub hole_blobs : Bytes
  pub mw_blobs : Bytes
  pub mimes : List Bytes
  pub mime_idx : List (Bytes × ℕ)

-- `NewV2Compiler`.
abbrev pub new_v2_compiler : V2Compiler
new_v2_compiler = record {
  nodes = [];
  payloads = [];
  paths = [];
  hole_blobs = [];
  mw_blobs = [];
  mimes = [];
  mime_idx = [];
}

-- The names of a spec that are not empty after trimming; `seg` is the segment read so far.
abbrev add_name : Bytes → List Bytes → List Bytes
add_name [] out = out
add_name (c ∷ seg) out = (c ∷ seg) ∷ out

unfoldable pub split_names : Bytes → Bytes → List Bytes
unfolding trim_left trim_right
split_names [] seg = add_name (trim_right (trim_left seg)) []
split_names (c ∷ spec) seg =
    let ends = c == b',' in
    let later = split_names spec (if ends then [] else seg ++ c ∷ []) in
    if ends then add_name (trim_right (trim_left seg)) later else later

-- `parseMiddleware`.
unfoldable pub parse_middleware : Bytes → List Bytes
unfolding split_names
parse_middleware [] = []
parse_middleware (c ∷ spec) = split_names (c ∷ spec) []

hash_from : ℕ → Bytes → ℕ
hash_from h [] = h
hash_from h (b ∷ s) = hash_from (bit_xor h b * 1099511628211 % 2 ^ 64) s

-- `hashPath`.
unfoldable pub hash_path : Bytes → ℕ
unfolding hash_from
hash_path path = hash_from 14695981039346656037 path

abbrev no_variant : Variant
no_variant = record { head_id = 0; data_offset = 0; data_len = 0 }

-- The entry of a route, before its variants and blobs.
unfoldable pub new_entry : V2Compiler → Bytes → ℕ → ℕ → RouteEntry
unfolding hash_path
new_entry c path action_id methods = record {
  path_hash = hash_path path;
  path_offset = length c.paths % 2 ^ 32;
  path_len = length path % 2 ^ 16;
  action_id = action_id;
  identity = no_variant;
  gzip = no_variant;
  brotli = no_variant;
  hole_offset = 0;
  methods = methods;
  mw_count = 0;
  mw_offset = 0;
}

abbrev intern_new : V2Compiler → Bytes → Option ℕ → V2Compiler × ℕ
intern_new c key (some id) = (c, id)
intern_new c key none =
    let id = length c.mimes % 2 ^ 16 in
    (record c { mimes = c.mimes ++ key ∷ []; mime_idx = (key, id) ∷ c.mime_idx }, id)

-- `internMime`.
unfoldable pub intern_mime : V2Compiler → Bytes → Bytes → V2Compiler × ℕ
intern_mime c m encoding =
    intern_new c (mime_key m encoding) (id_of c.mime_idx (mime_key m encoding))

-- A body in the payloads, as a variant.
unfoldable pub add_variant : V2Compiler → Bytes → Bytes → Bytes → V2Compiler × Variant
unfolding intern_mime
add_variant c m encoding body =
    let (c', id) = intern_mime c m encoding in
    (
      record c' { payloads = c'.payloads ++ body },
      record {
        head_id = id;
        data_offset = length c'.payloads % 2 ^ 32;
        data_len = length body % 2 ^ 32;
      },
    )

-- `isCompressible`.
unfoldable pub is_compressible : Bytes → Bool
unfolding has_prefix
is_compressible m =
    has_prefix (codes "text/") m
    || (has_prefix (codes "application/json") m
        || (has_prefix (codes "application/javascript") m
            || (has_prefix (codes "application/xml") m
                || (has_prefix (codes "application/wasm") m
                    || has_prefix (codes "image/svg+xml") m))))

-- The compressors.
pub record Compressors : Type 0 where
  pub gzip : Bytes → Bytes
  pub brotli : Bytes → Bytes

-- `fillStaticVariants`: the compiler and the entry.
unfoldable pub fill_static_variants :
    Compressors → V2Compiler → RouteEntry → Bytes → Bytes → V2Compiler × RouteEntry
unfolding add_variant is_compressible
fill_static_variants z c entry body m =
    let (c1, v) = add_variant c m [] body in
    let entry1 : RouteEntry = record entry { identity = v } in
    let (c2, g) = add_variant c1 m (codes "gzip") (z.gzip body) in
    let (c3, b) = add_variant c2 m (codes "br") (z.brotli body) in
    if is_compressible m && ltb 0 (length body)
    then (c3, record entry1 { gzip = g; brotli = b })
    else (c1, entry1)

abbrev pub push_node : V2Compiler × RouteEntry → V2Compiler
push_node (c, e) = record c { nodes = c.nodes ++ e ∷ [] }

abbrev pub add_path : Bytes → V2Compiler → V2Compiler
add_path path c = record c { paths = c.paths ++ path }

-- The mask of `MethodBitGET | MethodBitHEAD`.
abbrev pub get_and_head : ℕ
get_and_head = bit_or bit_get bit_head

-- `AddStaticRoute`.
unfoldable pub add_static_route : Compressors → Bytes → Bytes → Bytes → V2Compiler → V2Compiler
unfolding new_entry fill_static_variants
add_static_route z path body m c =
    let entry = new_entry c path 0 get_and_head in
    push_node (
      if ltb 0 (length body)
      then fill_static_variants z (add_path path c) entry body m
      else (add_path path c, entry))

-- `AddActionRoute`.
unfoldable pub add_action_route : Bytes → Bytes → Bytes → ℕ → V2Compiler → V2Compiler
unfolding new_entry parse_middleware parse_methods append_middleware
add_action_route path methods middleware action_id c =
    let (blobs, off, count) = append_middleware (parse_middleware middleware) c.mw_blobs in
    push_node (
      add_path path (record c { mw_blobs = blobs }),
      record (new_entry c path action_id (parse_methods methods)) {
        mw_offset = off;
        mw_count = count;
      },
    )

-- What the pipeline hands over for a page: the embedded bytes, or none, and the holes.
pub record ProcessResult : Type 0 where
  pub action_id : ℕ
  pub file_path : Bytes
  pub embedded : Option Bytes
  pub holes : List Hole

abbrev or_empty : Option Bytes → Bytes
or_empty none = []
or_empty (some b) = b

-- A page with holes has its body as it is, and the blob of its holes.
abbrev pub add_page : V2Compiler → RouteEntry → Bytes → ProcessResult → V2Compiler × RouteEntry
add_page c entry m res =
    let (c1, v) = add_variant c m [] (or_empty res.embedded) in
    let (blobs, off) = append_hole_blob res.holes c1.hole_blobs in
    (record c1 { hole_blobs = blobs }, record entry { identity = v; hole_offset = off })

abbrev pub add_embedded :
    Compressors → V2Compiler → RouteEntry → Bytes → Option Bytes → V2Compiler × RouteEntry
add_embedded z c entry m none = (c, entry)
add_embedded z c entry m (some body) = fill_static_variants z c entry body m

abbrev pub add_file : V2Compiler → RouteEntry → ProcessResult → V2Compiler × RouteEntry
add_file c entry res =
    let (blobs, off) = append_file_blob res.file_path c.hole_blobs in
    (record c { hole_blobs = blobs }, record entry { hole_offset = off })

-- `addPipelineEntry`; `m` is what `mimeFor` says of the source path.
unfoldable pub add_pipeline_entry :
    Compressors → Bytes → Bytes → ProcessResult → V2Compiler → V2Compiler
unfolding new_entry add_variant fill_static_variants append_file_blob append_hole_blob
add_pipeline_entry z path m res c =
    let entry = new_entry c path res.action_id get_and_head in
    let c1 = add_path path c in
    push_node (
      if res.action_id == 7
      then add_file c1 entry res
      else (if res.action_id == 0
          then (if ltb 0 (length res.holes)
              then add_page c1 entry m res
              else add_embedded z c1 entry m res.embedded)
          else (c1, entry)))

-- `sort.Slice` by the hash of the path.
unfoldable pub insert_by_hash : RouteEntry → List RouteEntry → List RouteEntry
insert_by_hash e [] = e ∷ []
insert_by_hash e (x ∷ nodes) =
    let later = insert_by_hash e nodes in
    if leb e.path_hash x.path_hash then e ∷ x ∷ nodes else x ∷ later

unfoldable pub sort_nodes : List RouteEntry → List RouteEntry
unfolding insert_by_hash
sort_nodes [] = []
sort_nodes (e ∷ nodes) = insert_by_hash e (sort_nodes nodes)

-- `Write`, as the bytes of the file; `encode` is the JSON text of the mime keys.
unfoldable pub write_manifest : (List Bytes → Bytes) → V2Compiler → Bytes
unfolding sort_nodes write_parts
write_manifest encode c = write_parts (record {
  nodes = sort_nodes c.nodes;
  payloads = c.payloads;
  paths = c.paths;
  hole_blobs = c.hole_blobs;
  mw_blobs = c.mw_blobs;
  mime_json = encode c.mimes;
})
