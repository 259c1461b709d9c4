-- ===== src/OutputCache/Pages.antt =====
-- The cache of finished pages of cmd/main/output_cache.go: its operations in sequence, and the pages
-- that are composed through it.
use web_spa.Base.{
  ℕ, ◌+◌, ◌≤◌, ◌≡◌, refl, sym, ap, ◌∙◌, subst, ◌⊎◌, inl, inr, Bool, true, false, ◌||◌, List, [],
  ◌∷◌, ◌++◌, Option, none, some, Bytes, bytes_eq, bytes_eq→eq, if◌then◌else◌, arith, Bool-cases,
  Option-cases,
}
use web_spa.Lru.{Entry, Lru, has_table, find, put_entry, flush}
use web_spa.Lru.Valid.{find_own}
use web_spa.Lru.Bounds.{find-put_entry}
use web_spa.Lru.Lookup.{find-drop_table, unless_listed}
use web_spa.Lru.Sound.{
  IsSound, put_entry-IsSound, drop_table-IsSound, flush-IsSound, move_to_front-IsSound,
}
use web_spa.Gogohttp.Types.{Req}
use web_spa.Holes.{HoleRecord}
use web_spa.OutputCache.{
  OutputKey, output_key, Variants, OutputEntry, OutputCache, new_output_cache, get, put, invalidate,
  entry_size, output_entry, any_nil, add_tables, tables_or_nil, union_from, union_tables,
  pick_hole_variant, Site, page_variants, page_tables, compose_hole_body_cached,
}

pub data Op : Type 0 where
  fetch : OutputKey → Op
  store : OutputKey → OutputEntry → Op
  changed : Bytes → Op

unfoldable pub step : Op → OutputCache → OutputCache
step (fetch k) oc = (get k oc).0
step (store k entry) oc = put k entry oc
step (changed table) oc = invalidate table oc

unfoldable pub run : List Op → OutputCache → OutputCache
unfolding step
run [] oc = oc
run (op ∷ ops) oc = run ops (step op oc)

get-IsSound : (k : OutputKey) (oc : OutputCache) → IsSound oc.lru → IsSound (get k oc).0.lru
unfolding get
get-IsSound k oc s = elim (Option-cases (find k oc.lru.items)) [
  | inl miss ↦ rw (miss, get) s
  | inr (e, hit) ↦ rw (hit, get) (move_to_front-IsSound e oc.lru (find_own k oc.lru.items e hit) s)
]

put-IsSound :
    (k : OutputKey) (v : Variants) (tables : Option (List Bytes)) (oc : OutputCache)
    → IsSound oc.lru
    → IsSound (put k (record { variants = v; tables = tables }) oc).lru
unfolding put
put-IsSound k v none oc s = s
put-IsSound k v (some tables) oc s = put_entry-IsSound (output_entry k v tables) oc.lru s

step-IsSound : (op : Op) (oc : OutputCache) → IsSound oc.lru → IsSound (step op oc).lru
unfolding step invalidate
step-IsSound (fetch k) oc s = get-IsSound k oc s
step-IsSound (store k entry) oc s = put-IsSound k entry.variants entry.tables oc s
step-IsSound (changed []) oc s = flush-IsSound oc.lru
step-IsSound (changed (c ∷ table)) oc s = drop_table-IsSound (c ∷ table) oc.lru s

run-IsSound : (ops : List Op) (oc : OutputCache) → IsSound oc.lru → IsSound (run ops oc).lru
unfolding run
run-IsSound [] oc s = s
run-IsSound (op ∷ ops) oc s = run-IsSound ops (step op oc) (step-IsSound op oc s)

-- After any sequence of operations on a new cache: no key stands twice, the bytes are counted
-- right, the index has a key under a table exactly when the key's page depends on the table, and
-- both limits hold.
pub run-new_output_cache-IsSound : (ops : List Op) → IsSound (run ops new_output_cache).lru
unfolding new_output_cache flush
run-new_output_cache-IsSound ops = run-IsSound ops new_output_cache empty
  where
    empty : IsSound new_output_cache.lru
    empty = flush-IsSound new_output_cache.lru

get_found : (k : OutputKey) (oc : OutputCache) → (get k oc).1 ≡ find k oc.lru.items
unfolding get
get_found k oc = elim (Option-cases (find k oc.lru.items)) [
  | inl miss ↦ rw (miss, get) refl
  | inr (e, hit) ↦ rw (hit, get) refl
]

-- What a lookup finds after a write to a table: the page that was found before, unless it depends
-- on the table; nothing when all tables may have changed.
pub get-invalidate :
    (table : Bytes) (k : OutputKey) (oc : OutputCache)
    → IsSound oc.lru
    → (get k (invalidate table oc)).1
      ≡ (if bytes_eq table [] then none else unless_listed table (get k oc).1)
unfolding invalidate flush find bytes_eq
get-invalidate [] k oc s = get_found k (invalidate [] oc)
get-invalidate (c ∷ table) k oc s =
    get_found k (invalidate (c ∷ table) oc)
    ∙ find-drop_table (c ∷ table) k oc.lru s.valid
    ∙ ap (unless_listed (c ∷ table)) (sym (get_found k oc))

has_table-append :
    (t : Bytes) (xs ys : List Bytes) → has_table t (xs ++ ys) ≡ (has_table t xs || has_table t ys)
unfolding has_table
has_table-append t [] ys = refl
has_table-append t (x ∷ xs) ys = ground (arith, has_table-append t xs ys)

has_table-add_tables :
    (t : Bytes) (ts out : List Bytes)
    → has_table t (add_tables ts out) ≡ (has_table t out || has_table t ts)
unfolding add_tables has_table
has_table-add_tables t [] out = ground arith
has_table-add_tables t (x ∷ ts) out = elim (Bool-cases (has_table x out)) [
  | inl seen ↦
      rw (seen, has_table-add_tables t ts out)
        (ground (
          arith,
          λ (e : bytes_eq x t ≡ true). subst (λ y. has_table y out ≡ true) (bytes_eq→eq x t e) seen,
        ))
  | inr new ↦
      rw (new, has_table-add_tables t ts (out ++ x ∷ []), has_table-append t out (x ∷ []))
        (ground arith)
]

-- Whether the query of one of the holes reads from the table.
abbrev pub reads : Bytes → List HoleRecord → Bool
reads t [] = false
reads t (h ∷ holes) = has_table t (tables_or_nil h.tables) || reads t holes

has_table-union_from :
    (t : Bytes) (holes : List HoleRecord) (out : List Bytes)
    → has_table t (union_from holes out) ≡ (has_table t out || reads t holes)
unfolding union_from
has_table-union_from t [] out = ground arith
has_table-union_from t (h ∷ holes) out =
    has_table-union_from t holes (add_tables (tables_or_nil h.tables) out)
    ∙ ap (λ b. b || reads t holes) (has_table-add_tables t (tables_or_nil h.tables) out)
    ∙ (ground arith)

-- A page has no tables exactly when one of its holes has none; its tables are else those that any
-- of its holes reads from.
pub union_tables_lem :
    (holes : List HoleRecord)
    → ((union_tables holes ≡ none) × (any_nil holes ≡ true))
      ⊎ ((ts : List Bytes) × (union_tables holes ≡ some ts)
          × (any_nil holes ≡ false)
          × ((t : Bytes) → has_table t ts ≡ reads t holes))
unfolding union_tables has_table
union_tables_lem holes = elim (Bool-cases (any_nil holes)) [
  | inl complex ↦ inl (rw complex refl, complex)
  | inr plain ↦
      inr (union_from holes [], rw plain refl, plain, λ t. has_table-union_from t holes [])
]

get_miss :
    (k : OutputKey) (oc : OutputCache)
    → find k oc.lru.items ≡ none
    → get k oc ≡ (record oc { misses = oc.misses + 1 }, none)
unfolding get
get_miss k oc miss = rw (miss, get) refl

compose_miss :
    (site : Site) (k : OutputKey) (head : ℕ) (body : Bytes) (req : Req) (oc : OutputCache)
    (tables : List Bytes)
    → find k oc.lru.items ≡ none
    → page_tables (site.holes k) ≡ some tables
    → (compose_hole_body_cached site k head (some body) req oc).0.lru
      ≡ put_entry (output_entry k (page_variants site head body) tables) oc.lru
unfolding compose_hole_body_cached put
compose_miss site k head body req oc tables miss known = rw (get_miss k oc miss, known) refl

compose_hit :
    (site : Site) (k : OutputKey) (head : ℕ) (body : Option Bytes) (req : Req) (oc : OutputCache)
    (e : Entry OutputKey Variants)
    → find k oc.lru.items ≡ some e
    → (compose_hole_body_cached site k head body req oc).1 ≡ some (pick_hole_variant e.value req)
unfolding compose_hole_body_cached
compose_hit site k head body req oc e hit = rw (get_found k oc, hit) refl

-- A page that is not in the cache, whose holes all have tables, and that fits, is composed once:
-- the next request for it, in whatever encoding, is answered from what was composed, and what a
-- new composition would return plays no part.
pub compose_hole_body_cached_again :
    (site : Site) (k : OutputKey) (head head' : ℕ) (body : Bytes) (body' : Option Bytes)
    (req req' : Req) (oc : OutputCache) {tables : List Bytes}
    → IsSound oc.lru
    → find k oc.lru.items ≡ none
    → page_tables (site.holes k) ≡ some tables
    → 1 ≤ oc.lru.max_entries
    → entry_size (page_variants site head body) tables ≤ oc.lru.max_bytes
    → (compose_hole_body_cached site k head' body' req'
        (compose_hole_body_cached site k head (some body) req oc).0).1
      ≡ some (pick_hole_variant (page_variants site head body) req')
compose_hole_body_cached_again site k head head' body body' req req' oc {tables} s miss known room
      fits =
    let e = output_entry k (page_variants site head body) tables in
    compose_hit site k head' body' req' (compose_hole_body_cached site k head (some body) req oc).0
      e
      (ap (λ (c : Lru OutputKey Variants). find k c.items)
          (compose_miss site k head body req oc tables miss known)
        ∙ find-put_entry e oc.lru s.valid room fits)
