-- ===== src/OutputCache.antt =====
-- cmd/main/output_cache.go: the finished pages by route and URL bindings, and how a page is
-- composed through the cache. A manifest stands for its pointer.
pub mod Keys
pub mod Encoding
pub mod Pages
mod Tests
use web_spa.Base.{
  fnv_1a, ℕ, zero, suc, ◌+◌, ◌-◌, ◌*◌, ◌%◌, ◌^◌, ◌≡◌, ◌↔◌, ap, arith, Bool, true, false, not, ◌&&◌,
  ◌||◌, List, [], ◌∷◌, ◌++◌, Option, none, some, Bytes, codes, bytes_eq, ◌==◌, ltb, leb,
  if◌then◌else◌, length, get_elem?,
}
use web_spa.Lru.{KeyEq, Entry, Lru, has_table, find, move_to_front, put_entry, drop_table, flush}
use web_spa.Router.Trie.{Param}
use web_spa.Holes.{HoleRecord}
use web_spa.Gogohttp.Types.{Header, Req}
use web_spa.Gogohttp.Scan.{eq_fold_ascii}

pub record OutputKey : Type 0 where
  pub manifest : ℕ
  pub off : ℕ
  pub params : ℕ

abbrev pub same_key : OutputKey → OutputKey → Bool
same_key a b = a.manifest == b.manifest && (a.off == b.off && a.params == b.params)

pub same_key_iff : (a b : OutputKey) → (same_key a b ≡ true) ↔ (a ≡ b)
same_key_iff a b = (λ h. ground arith, λ h. ground arith)

instance abbrev pub output_key : KeyEq OutputKey
output_key = record { eqb = same_key; eqb_iff = same_key_iff }

pub record VariantBody : Type 0 where
  pub body : Bytes
  pub head : ℕ

-- `variants[EncIdentity]`, `variants[EncGzip]` and `variants[EncBrotli]`.
pub record Variants : Type 0 where
  pub identity : VariantBody
  pub gzip : VariantBody
  pub brotli : VariantBody

-- `tables` is `none` where it is nil.
pub record OutputEntry : Type 0 where
  pub variants : Variants
  pub tables : Option (List Bytes)

pub record OutputCache : Type 0 where
  pub lru : Lru OutputKey Variants
  pub hits : ℕ
  pub misses : ℕ

unfoldable pub new_output_cache : OutputCache
new_output_cache = record {
  lru = record {
    items = [];
    reverse = [];
    max_entries = 4096;
    max_bytes = 32 * 2 ^ 20;
    cur_bytes = 0;
    evictions = 0;
  };
  hits = 0;
  misses = 0;
}

-- `Get`.
unfoldable pub get : OutputKey → OutputCache → OutputCache × Option (Entry OutputKey Variants)
unfolding find
get k oc = elim (find k oc.lru.items) [
  | none ↦ (record oc { misses = oc.misses + 1 }, none)
  | some e ↦ (record oc { lru = move_to_front e oc.lru; hits = oc.hits + 1 }, some e)
]

unfoldable pub tables_bytes : List Bytes → ℕ
tables_bytes [] = 0
tables_bytes (t ∷ ts) = length t + tables_bytes ts

-- `entrySize`.
unfoldable pub entry_size : Variants → List Bytes → ℕ
unfolding tables_bytes
entry_size v tables =
    length v.identity.body + length v.gzip.body + length v.brotli.body + tables_bytes tables

abbrev pub output_entry : OutputKey → Variants → List Bytes → Entry OutputKey Variants
output_entry k v tables = record {
  key = k;
  value = v;
  tables = tables;
  bytes = entry_size v tables;
}

-- `Put`; a nil entry is not a value here, and nil tables are refused.
unfoldable pub put : OutputKey → OutputEntry → OutputCache → OutputCache
put k entry oc = elim entry.tables [
  | none ↦ oc
  | some tables ↦ record oc { lru = put_entry (output_entry k entry.variants tables) oc.lru }
]

-- `Invalidate`; no name stands for all tables.
unfoldable pub invalidate : Bytes → OutputCache → OutputCache
invalidate [] oc = record oc { lru = flush oc.lru }
invalidate (c ∷ table) oc = record oc { lru = drop_table (c ∷ table) oc.lru }

-- What `hashBindings` writes into its hash.
unfoldable pub binding_bytes : List Param → Bytes
binding_bytes [] = []
binding_bytes (b ∷ bindings) = b.name ++ (b'=' ∷ (b.value ++ (0 ∷ binding_bytes bindings)))

-- `hashBindings`: FNV-1a with 64 bits, and 0 where there are no bindings.
unfoldable pub hash_bindings : List Param → ℕ
unfolding binding_bytes fnv_1a
hash_bindings [] = 0
hash_bindings (b ∷ bindings) = fnv_1a (binding_bytes (b ∷ bindings))

unfoldable pub any_nil : List HoleRecord → Bool
any_nil [] = false
any_nil (h ∷ holes) = elim h.tables [ none ↦ true | some ts ↦ any_nil holes ]

-- The inner loop; `out` holds what `seen` holds.
unfoldable pub add_tables : List Bytes → List Bytes → List Bytes
add_tables [] out = out
add_tables (t ∷ ts) out = add_tables ts (if has_table t out then out else out ++ t ∷ [])

abbrev pub tables_or_nil : Option (List Bytes) → List Bytes
tables_or_nil none = []
tables_or_nil (some ts) = ts

unfoldable pub union_from : List HoleRecord → List Bytes → List Bytes
unfolding add_tables
union_from [] out = out
union_from (h ∷ holes) out = union_from holes (add_tables (tables_or_nil h.tables) out)

-- `unionTables`.
unfoldable pub union_tables : List HoleRecord → Option (List Bytes)
unfolding any_nil union_from
union_tables holes = if any_nil holes then none else some (union_from holes [])

-- Whether the text starts with the token.
unfoldable pub starts_with : Bytes → Bytes → Bool
starts_with [] v = true
starts_with (c ∷ tok) [] = false
starts_with (c ∷ tok) (x ∷ v) = c == x && starts_with tok v

-- Whether what stands at a place of the text, if anything, ends a token.
abbrev pub ends_before : Option ℕ → Bool
ends_before none = true
ends_before (some c) = c == b',' || (c == b' ' || c == 9)

abbrev pub ends_after : Option ℕ → Bool
ends_after none = true
ends_after (some c) = c == b',' || (c == b' ' || (c == 9 || c == b';'))

-- The loop of `containsToken` on the text from `i` on, with the byte before it.
unfoldable pub token_from : Option ℕ → Bytes → Bytes → Bool
unfolding starts_with
token_from before [] tok =
    starts_with tok [] && (ends_before before && ends_after (get_elem? [] (length tok)))
token_from before (x ∷ v) tok =
    (starts_with tok (x ∷ v) && (ends_before before && ends_after (get_elem? (x ∷ v) (length tok))))
    || token_from (some x) v tok

-- `containsToken`.
unfoldable pub contains_token : Bytes → Bytes → Bool
unfolding token_from
contains_token v tok = token_from none v tok

-- The first Accept-Encoding header decides.
unfoldable pub accepts : List Header → Bool × Bool
unfolding contains_token eq_fold_ascii
accepts [] = (false, false)
accepts (h ∷ headers) =
    let rest = accepts headers in
    if not (eq_fold_ascii h.name (codes "Accept-Encoding"))
    then rest
    else (contains_token h.value (codes "br"), contains_token h.value (codes "gzip"))

-- `acceptsCompressedEncodings`: brotli, then gzip.
unfoldable pub accepts_compressed_encodings : Req → Bool × Bool
unfolding accepts
accepts_compressed_encodings req = accepts req.headers

-- `pickHoleVariant`.
unfoldable pub pick_hole_variant : Variants → Req → VariantBody
unfolding accepts_compressed_encodings
pick_hole_variant v req =
    let (br, gz) = accepts_compressed_encodings req in
    if br && ltb 0 (length v.brotli.body)
    then v.brotli
    else if gz && ltb 0 (length v.gzip.body)
    then v.gzip
    else v.identity

-- What the server's state gives the composition: the parsed holes of a route, the compressors of
-- modules/compress, and the heads of the compressed pages.
pub record Site : Type 0 where
  pub holes : OutputKey → Option (List HoleRecord)
  pub gzip : Bytes → Bytes
  pub brotli : Bytes → Bytes
  pub head_gzip : ℕ
  pub head_brotli : ℕ

abbrev pub page_variants : Site → ℕ → Bytes → Variants
page_variants site head body = record {
  identity = record { body = body; head = head };
  gzip = record { body = site.gzip body; head = site.head_gzip };
  brotli = record { body = site.brotli body; head = site.head_brotli };
}

-- After a miss, with what `composeHoleBody` returned and the tables of the holes.
abbrev pub store_page :
    Site
    → OutputKey
    → ℕ
    → Bytes
    → Option (List Bytes)
    → Req
    → OutputCache
    → OutputCache × Option VariantBody
store_page site k head body none req oc = (oc, some (record { body = body; head = head }))
store_page site k head body (some tables) req oc =
    let v = page_variants site head body in
    (put k (record { variants = v; tables = some tables }) oc, some (pick_hole_variant v req))

abbrev pub page_tables : Option (List HoleRecord) → Option (List Bytes)
page_tables none = none
page_tables (some holes) = union_tables holes

-- With the cache after the lookup, and what it found.
abbrev pub answer_page :
    Site
    → OutputKey
    → ℕ
    → Option Bytes
    → Req
    → OutputCache
    → Option (Entry OutputKey Variants)
    → OutputCache × Option VariantBody
answer_page site k head body req oc (some e) = (oc, some (pick_hole_variant e.value req))
answer_page site k head none req oc none = (oc, none)
answer_page site k head (some b) req oc none =
    store_page site k head b (page_tables (site.holes k)) req oc

-- `composeHoleBodyCached`, where there is a cache: `body` is what `composeHoleBody` would return,
-- `none` its error, and `head` the head of the identity variant.
unfoldable pub compose_hole_body_cached :
    Site → OutputKey → ℕ → Option Bytes → Req → OutputCache → OutputCache × Option VariantBody
unfolding get put union_tables pick_hole_variant
compose_hole_body_cached site k head body req oc =
    let (oc', found) = get k oc in answer_page site k head body req oc' found
