-- ===== src/Fastdb/Cache/Ops.antt =====
-- The query cache of modules/fastdb/cache.go under any sequence of its operations; the mutex makes
-- each of them one step.
use mathlib.Core.Option.{none-ne-some, some-injective}
use web_spa.Base.{
  ℕ, ◌*◌, ◌^◌, ◌≤◌, ◌≡◌, refl, sym, ap, ◌∙◌, subst, List, [], ◌∷◌, Option, none, some, Bytes,
  bytes_eq, bytes_eq→eq, length, arith, Bool-cases, Option-cases, inl, inr,
}
use web_spa.Lru.Sound.{
  IsSound, put_entry-IsSound, drop_table-IsSound, flush-IsSound, move_to_front-IsSound,
}
use web_spa.Lru.{keys_of, Entry, find, move_to_front, flush}
use web_spa.Lru.Entries.{total_bytes}
use web_spa.Lru.Valid.{find_own}
use web_spa.Lru.Bounds.{limits-put_entry, limits-drop_table}
use web_spa.Fastdb.Cache.{
  nat_key, Row, Stored, Cache, CacheConfig, cache_entry, or_default, new_cache, hash_sql, bypassed,
  hit_of, get, put, invalidate_table, flush_all, tables_for, lookup,
}

pub data Op : Type 0 where
  look : Bytes → Op
  fetch : ℕ → Bytes → List Bytes → Op
  store : ℕ → Bytes → List Bytes → List Row → Op
  write : ℕ → Bytes → Op
  wipe : Op

unfoldable pub step : Op → Cache → Cache
step (look sql) c = (tables_for sql c).0
step (fetch now sql tables) c = (get now sql tables c).0
step (store now sql tables rows) c = put now sql tables rows c
step (write now table) c = invalidate_table now table c
step wipe c = flush_all c

unfoldable pub run : List Op → Cache → Cache
unfolding step
run [] c = c
run (op ∷ ops) c = run ops (step op c)

pub hit_of-some :
    (sql : Bytes) (o : Option (Entry ℕ Stored)) (e : Entry ℕ Stored)
    → hit_of sql o ≡ some e
    → (o ≡ some e) × (e.value.sql ≡ sql)
hit_of-some sql none e h = absurd (none-ne-some e h)
hit_of-some sql (some x) e h = elim (Bool-cases (bytes_eq x.value.sql sql)) [
  | inl same ↦
      let is_x = some-injective _ _ (rw same at h) in
      (ap some is_x, ap (λ (y : Entry ℕ Stored). y.value.sql) (sym is_x) ∙ bytes_eq→eq _ _ same)
  | inr other ↦ absurd (none-ne-some e (rw other at h))
]

pub new_cache-IsSound : (cfg : CacheConfig) → IsSound (new_cache cfg).lru
unfolding new_cache find keys_of total_bytes
new_cache-IsSound cfg = record {
  valid = record { distinct = tt; counted = refl; index = λ t k. refl };
  few = omega arith;
  small = omega arith;
}

get-IsSound :
    (now : ℕ) (sql : Bytes) (tables : List Bytes) (c : Cache)
    → IsSound c.lru
    → IsSound (get now sql tables c).0.lru
unfolding get
get-IsSound now sql tables c s = elim (Bool-cases (bypassed now tables c.tables)) [
  | inl away ↦ rw away s
  | inr usual ↦ elim (Option-cases (hit_of sql (find (hash_sql sql) c.lru.items))) [
    | inl miss ↦ rw (usual, miss) s
    | inr (e, hit) ↦
        rw (usual, hit)
          (move_to_front-IsSound e c.lru (find_own _ c.lru.items e (hit_of-some sql _ e hit).0) s)
  ]
]

put-IsSound :
    (now : ℕ) (sql : Bytes) (tables : List Bytes) (rows : List Row) (c : Cache)
    → IsSound c.lru
    → IsSound (put now sql tables rows c).lru
unfolding put
put-IsSound now sql tables rows c s = elim (Bool-cases (bypassed now tables c.tables)) [
  | inl away ↦ rw away s
  | inr usual ↦ rw usual (put_entry-IsSound (cache_entry sql tables rows) c.lru s)
]

pub step-IsSound : (op : Op) (c : Cache) → IsSound c.lru → IsSound (step op c).lru
unfolding step tables_for invalidate_table flush_all
step-IsSound (look sql) c s = elim (Option-cases (lookup sql c.sql_tables)) [
  | inl new ↦ rw (new, step, tables_for) s
  | inr (ts, known) ↦ rw (known, step, tables_for) s
]
step-IsSound (fetch now sql tables) c s = get-IsSound now sql tables c s
step-IsSound (store now sql tables rows) c s = put-IsSound now sql tables rows c s
step-IsSound (write now table) c s = drop_table-IsSound table c.lru s
step-IsSound wipe c s = flush-IsSound c.lru

run-IsSound : (ops : List Op) (c : Cache) → IsSound c.lru → IsSound (run ops c).lru
unfolding run
run-IsSound [] c s = s
run-IsSound (op ∷ ops) c s = run-IsSound ops (step op c) (step-IsSound op c s)

-- The limits of a cache, which no operation changes.
abbrev limits : Cache → ℕ × ℕ
limits c = (c.lru.max_entries, c.lru.max_bytes)

limits-step : (op : Op) (c : Cache) → limits (step op c) ≡ limits c
unfolding step tables_for invalidate_table flush_all flush get put move_to_front
limits-step (look sql) c = elim (Option-cases (lookup sql c.sql_tables)) [
  | inl new ↦ rw (new, step, tables_for) refl
  | inr (ts, known) ↦ rw (known, step, tables_for) refl
]
limits-step (fetch now sql tables) c = elim (Bool-cases (bypassed now tables c.tables)) [
  | inl away ↦ rw (away, step) refl
  | inr usual ↦ elim (Option-cases (hit_of sql (find (hash_sql sql) c.lru.items))) [
    | inl miss ↦ rw (usual, miss, step) refl
    | inr (e, hit) ↦ rw (usual, hit, step) refl
  ]
]
limits-step (store now sql tables rows) c = elim (Bool-cases (bypassed now tables c.tables)) [
  | inl away ↦ rw (away, step) refl
  | inr usual ↦
      rw (usual, step)
        (let (n, b) = limits-put_entry (cache_entry sql tables rows) c.lru in λ i. (n i, b i))
]
limits-step (write now table) c = let (n, b) = limits-drop_table table c.lru in λ i. (n i, b i)
limits-step wipe c = refl

limits-run : (ops : List Op) (c : Cache) → limits (run ops c) ≡ limits c
unfolding run
limits-run [] c = refl
limits-run (op ∷ ops) c = limits-run ops (step op c) ∙ limits-step op c

-- After any sequence of operations on a new cache: no key stands twice, the bytes are counted
-- right, the index has a key under a table exactly when the key's entry depends on the table, and
-- the number of entries and their bytes are at most those configured, or the defaults.
pub run-new_cache-IsSound :
    (cfg : CacheConfig) (ops : List Op)
    → IsSound (run ops (new_cache cfg)).lru
      × (length (run ops (new_cache cfg)).lru.items ≤ or_default cfg.max_entries 4096)
      × ((run ops (new_cache cfg)).lru.cur_bytes ≤ or_default cfg.max_bytes (8 * 2 ^ 20))
unfolding new_cache
run-new_cache-IsSound cfg ops =
    let s = run-IsSound ops (new_cache cfg) (new_cache-IsSound cfg) in
    let same = limits-run ops (new_cache cfg) in
    (
      s,
      subst (λ m. length (run ops (new_cache cfg)).lru.items ≤ m) (ap (λ (p : ℕ × ℕ). p.0) same)
          s.few,
      subst (λ m. (run ops (new_cache cfg)).lru.cur_bytes ≤ m) (ap (λ (p : ℕ × ℕ). p.1) same)
          s.small,
    )
