-- ===== src/Fastdb/Cache/Hits.antt =====
-- What the query cache of modules/fastdb/cache.go answers, beside a memory without limits and
-- without hashes.
use mathlib.Core.Option.{none-ne-some, some-injective}
use web_spa.Base.{
  ℕ, ◌≤◌, ◌≡◌, refl, sym, ap, ◌∙◌, false, List, [], ◌∷◌, Option, none, some, Bytes, bytes_eq,
  bytes_eq_refl, bytes_eq→eq, ◌==◌, if◌then◌else◌, arith, Bool-cases, Option-cases, inl, inr,
}
use web_spa.Lru.{Entry, has_table, find, move_to_front, flush}
use web_spa.Lru.Valid.{find_own, find-front}
use web_spa.Lru.Bounds.{find-put_entry}
use web_spa.Lru.Lookup.{find-put_entry-some, find-drop_table, unless_listed}
use web_spa.Lru.Sound.{IsSound}
use web_spa.Fastdb.Cache.{
  nat_key, Row, Stored, Cache, CacheConfig, cache_entry, new_cache, hash_sql, bypassed, hit_of, get,
  put, invalidate_table, flush_all, tables_for, estimate_bytes, lookup,
}
use web_spa.Fastdb.Cache.Ops.{
  Op, look, fetch, store, write, wipe, step, run, hit_of-some, step-IsSound, new_cache-IsSound,
}

-- The entry that answers a query.
abbrev held : Bytes → Cache → Option (Entry ℕ Stored)
held sql c = hit_of sql (find (hash_sql sql) c.lru.items)

abbrev rows_of : Option (Entry ℕ Stored) → Option (List Row)
rows_of none = none
rows_of (some e) = some e.value.rows

get_rows :
    (now : ℕ) (sql : Bytes) (tables : List Bytes) (c : Cache)
    → (get now sql tables c).1
      ≡ (if bypassed now tables c.tables then none else rows_of (held sql c))
unfolding get
get_rows now sql tables c = elim (Bool-cases (bypassed now tables c.tables)) [
  | inl away ↦ rw away refl
  | inr usual ↦ elim (Option-cases (held sql c)) [
    | inl miss ↦ rw (usual, miss) refl
    | inr (e, hit) ↦ rw (usual, hit) refl
  ]
]

-- Rows that fit an entry of a sound cache are answered right after they are stored, under their SQL
-- text alone, if neither the tables of the store nor those of the lookup are bypassed at their times.
pub get-put :
    (now now' : ℕ) (sql : Bytes) (tables tables' : List Bytes) (rows : List Row) (c : Cache)
    → IsSound c.lru
    → bypassed now tables c.tables ≡ false
    → bypassed now' tables' c.tables ≡ false
    → 1 ≤ c.lru.max_entries
    → estimate_bytes sql rows ≤ c.lru.max_bytes
    → (get now' sql tables' (put now sql tables rows c)).1 ≡ some rows
unfolding put
get-put now now' sql tables tables' rows c s usual usual' room fits =
    let e = cache_entry sql tables rows in
    get_rows now' sql tables' (put now sql tables rows c)
    ∙ (rw (usual, usual', find-put_entry e c.lru s.valid room fits, bytes_eq_refl sql) refl)

-- What is remembered of the queries: the tables and the rows of each.
abbrev pub Memory : Type 0
Memory = Bytes → Option (List Bytes × List Row)

abbrev pub forget : Bytes → Option (List Bytes × List Row) → Option (List Bytes × List Row)
forget t none = none
forget t (some (ts, rows)) = if has_table t ts then none else some (ts, rows)

-- A store is remembered unless its tables are bypassed; a write to a table makes the queries that
-- depend on it forgotten.
abbrev pub remember : Op → Cache → Memory → Memory
remember (look sql) c m q = m q
remember (fetch now sql tables) c m q = m q
remember (store now sql tables rows) c m q =
    if bytes_eq sql q
    then (if bypassed now tables c.tables then m q else some (tables, rows))
    else m q
remember (write now table) c m q = forget table (m q)
remember wipe c m q = none

unfoldable pub remember_all : List Op → Cache → Memory → Memory
remember_all [] c m = m
remember_all (op ∷ ops) c m = remember_all ops (step op c) (remember op c m)

-- Each entry that answers a query is what is remembered of it.
abbrev Agrees : Cache → Memory → Type 0
Agrees c m =
    (q : Bytes) (e : Entry ℕ Stored) → held q c ≡ some e → m q ≡ some (e.tables, e.value.rows)

held-get :
    (now : ℕ) (sql : Bytes) (tables : List Bytes) (c : Cache) (q : Bytes)
    → held q (get now sql tables c).0 ≡ held q c
unfolding get move_to_front
held-get now sql tables c q = elim (Bool-cases (bypassed now tables c.tables)) [
  | inl away ↦ rw away refl
  | inr usual ↦ elim (Option-cases (held sql c)) [
    | inl miss ↦ rw (usual, miss) refl
    | inr (e, hit) ↦
        rw (usual, hit)
          (ap (hit_of q) (
            find-front e c.lru.items (hash_sql q)
              (find_own _ c.lru.items e (hit_of-some sql _ e hit).0)))
  ]
]

hit_of-intro :
    (q : Bytes) (o : Option (Entry ℕ Stored)) (e : Entry ℕ Stored)
    → o ≡ some e
    → e.value.sql ≡ q
    → hit_of q o ≡ some e
hit_of-intro q o e found same = rw (found, same, bytes_eq_refl q) refl

Agrees-put :
    (now : ℕ) (sql : Bytes) (tables : List Bytes) (rows : List Row) (c : Cache) (m : Memory)
    → IsSound c.lru
    → Agrees c m
    → Agrees (put now sql tables rows c) (remember (store now sql tables rows) c m)
unfolding put
Agrees-put now sql tables rows c m s a q x h = elim (Bool-cases (bypassed now tables c.tables)) [
  | inl away ↦ rw away (skipped (a q x (rw (put, away) at h)))
  | inr usual ↦ rw usual (
      let (found, same) = hit_of-some q _ x (rw (put, usual) at h) in
      stored same
        (find-put_entry-some (cache_entry sql tables rows) c.lru (hash_sql q) s.valid found))
]
  where
    skipped :
        m q ≡ some (x.tables, x.value.rows)
        → (if bytes_eq sql q then m q else m q) ≡ some (x.tables, x.value.rows)
    skipped known = elim (Bool-cases (bytes_eq sql q)) [ inl e ↦ rw e known | inr e ↦ rw e known ]

    stored :
        x.value.sql ≡ q
        → (if hash_sql sql == hash_sql q
            then some (cache_entry sql tables rows)
            else find (hash_sql q) c.lru.items)
          ≡ some x
        → (if bytes_eq sql q then some (tables, rows) else m q) ≡ some (x.tables, x.value.rows)
    stored same shown = elim (Bool-cases (hash_sql sql == hash_sql q)) [
      | inl alike ↦
          let is_x : cache_entry sql tables rows ≡ x = some-injective _ _ (rw alike at shown) in
          let this : sql ≡ q = ap (λ (y : Entry ℕ Stored). y.value.sql) is_x ∙ same in
          rw (this, bytes_eq_refl q)
            (ap (λ (y : Entry ℕ Stored). some (y.tables, y.value.rows)) is_x)
      | inr other ↦ elim (Bool-cases (bytes_eq sql q)) [
        | inl this ↦ absurd (ground (arith, ap hash_sql (bytes_eq→eq sql q this)))
        | inr another ↦ rw another (a q x (hit_of-intro q _ x (rw other at shown) same))
      ]
    ]

Agrees-write :
    (now : ℕ) (table : Bytes) (c : Cache) (m : Memory)
    → IsSound c.lru
    → Agrees c m
    → Agrees (invalidate_table now table c) (remember (write now table) c m)
unfolding invalidate_table
Agrees-write now table c m s a q x h =
    let (found, same) = hit_of-some q _ x h in
    let (there, free) =
      kept (find (hash_sql q) c.lru.items)
        (sym (find-drop_table table (hash_sql q) c.lru s.valid) ∙ found) in
    rw (a q x (hit_of-intro q _ x there same), free) refl
  where
    kept :
        (o : Option (Entry ℕ Stored))
        → unless_listed table o ≡ some x
        → (o ≡ some x) × (has_table table x.tables ≡ false)
    kept none e = absurd (none-ne-some x e)
    kept (some y) e = elim (Bool-cases (has_table table y.tables)) [
      | inl listed ↦ absurd (none-ne-some x (rw listed at e))
      | inr free ↦
          let is_x = some-injective _ _ (rw free at e) in
          (ap some is_x, ap (λ (z : Entry ℕ Stored). has_table table z.tables) (sym is_x) ∙ free)
    ]

Agrees-step :
    (op : Op) (c : Cache) (m : Memory)
    → IsSound c.lru
    → Agrees c m
    → Agrees (step op c) (remember op c m)
unfolding step tables_for flush_all flush find
Agrees-step (look sql) c m s a q x h = elim (Option-cases (lookup sql c.sql_tables)) [
  | inl new ↦ a q x (rw (new, step, tables_for) at h)
  | inr (ts, known) ↦ a q x (rw (known, step, tables_for) at h)
]
Agrees-step (fetch now sql tables) c m s a q x h = a q x (sym (held-get now sql tables c q) ∙ h)
Agrees-step (store now sql tables rows) c m s a q x h = Agrees-put now sql tables rows c m s a q x h
Agrees-step (write now table) c m s a q x h = Agrees-write now table c m s a q x h
Agrees-step wipe c m s a q x h = absurd (none-ne-some x h)

Agrees-run :
    (ops : List Op) (c : Cache) (m : Memory)
    → IsSound c.lru
    → Agrees c m
    → Agrees (run ops c) (remember_all ops c m)
unfolding run remember_all
Agrees-run [] c m s a = a
Agrees-run (op ∷ ops) c m s a =
    Agrees-run ops (step op c) (remember op c m) (step-IsSound op c s) (Agrees-step op c m s a)

Agrees-new_cache : (cfg : CacheConfig) → Agrees (new_cache cfg) (λ q. none)
unfolding new_cache find
Agrees-new_cache cfg q e h = absurd (none-ne-some e h)

-- After any sequence of operations on a new cache, whatever it answers for a query is what an
-- unlimited memory holds for that SQL text: the rows of its last store that was not bypassed, with
-- no later write to a table that the store named and no later flush. Queries with the same hash are
-- not confused.
pub get-run-remember_all :
    (cfg : CacheConfig) (ops : List Op) (now : ℕ) (sql : Bytes) (tables : List Bytes)
    {rows : List Row}
    → (get now sql tables (run ops (new_cache cfg))).1 ≡ some rows
    → (ts : List Bytes) × (remember_all ops (new_cache cfg) (λ q. none) sql ≡ some (ts, rows))
get-run-remember_all cfg ops now sql tables {rows} h =
    let c = run ops (new_cache cfg) in
    let shown : (if bypassed now tables c.tables then none else rows_of (held sql c)) ≡ some rows =
      sym (get_rows now sql tables c) ∙ h in
    elim (Bool-cases (bypassed now tables c.tables)) [
      | inl away ↦ absurd (none-ne-some rows (rw away at shown))
      | inr usual ↦ answered (rw usual at shown) (
          Agrees-run ops (new_cache cfg) (λ q. none) (new_cache-IsSound cfg) (Agrees-new_cache cfg)
            sql)
    ]
  where
    answered :
        rows_of (held sql (run ops (new_cache cfg))) ≡ some rows
        → ((e : Entry ℕ Stored)
            → held sql (run ops (new_cache cfg)) ≡ some e
            → remember_all ops (new_cache cfg) (λ q. none) sql ≡ some (e.tables, e.value.rows))
        → (ts : List Bytes) × (remember_all ops (new_cache cfg) (λ q. none) sql ≡ some (ts, rows))
    answered shown known = elim (Option-cases (held sql (run ops (new_cache cfg)))) [
      | inl miss ↦ absurd (none-ne-some rows (rw miss at shown))
      | inr (e, hit) ↦ (
        e.tables,
        known e hit ∙ ap (λ r. some (e.tables, r)) (some-injective _ _ (rw hit at shown)),
      )
    ]
