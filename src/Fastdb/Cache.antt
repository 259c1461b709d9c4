-- ===== src/Fastdb/Cache.antt =====
-- modules/fastdb/cache.go: query rows by the hash of their SQL text, with the write rate of each
-- table. Times are nanoseconds on one clock, and `now` is an argument; the zero time is 0.
pub mod Ops
pub mod Hits
pub mod Bypass
use Prim.Native.Nat.{bit_xor}
use web_spa.Base.{
  ℕ, zero, suc, ◌+◌, ◌-◌, ◌*◌, ◌%◌, ◌^◌, ◌≡◌, Bool, true, false, not, ◌&&◌, ◌||◌, List, [], ◌∷◌,
  Option, none, some, Bytes, bytes_eq, ◌==◌, ==_iff, ltb, if◌then◌else◌, length,
}
use web_spa.Lru.{KeyEq, Entry, Lru, find, move_to_front, put_entry, drop_table, flush}
use web_spa.Fastdb.Tables.{extract_tables}

instance abbrev pub nat_key : KeyEq ℕ
nat_key = record { eqb = ◌==◌; eqb_iff = ==_iff }

-- A column's value; integers and floats are their 64 bits.
pub data Value : Type 0 where
  text blob : Bytes → Value
  integer float : ℕ → Value
  null : Value

abbrev pub Row : Type 0
Row = List (Bytes × Value)

-- What an entry holds beyond what the list and the index use.
pub record Stored : Type 0 where
  pub sql : Bytes
  pub rows : List Row

pub record TableStats : Type 0 where
  pub window_start : ℕ
  pub writes : ℕ
  pub bypassed_until : ℕ

-- Non-positive values stand as 0.
pub record CacheConfig : Type 0 where
  pub max_entries : ℕ
  pub max_bytes : ℕ
  pub bypass_write_threshold : ℕ
  pub bypass_window : ℕ
  pub bypass_cooldown : ℕ

pub record Cache : Type 0 where
  pub lru : Lru ℕ Stored
  pub tables : List (Bytes × TableStats)
  pub bypass_write_threshold : ℕ
  pub bypass_window : ℕ
  pub bypass_cooldown : ℕ
  pub sql_tables : List (Bytes × List Bytes)
  pub hits : ℕ
  pub misses : ℕ

abbrev second : ℕ
second = 1000000000

abbrev pub or_default : ℕ → ℕ → ℕ
or_default value default = if value == 0 then default else value

unfoldable pub new_cache : CacheConfig → Cache
new_cache cfg = record {
  lru = record {
    items = [];
    reverse = [];
    max_entries = or_default cfg.max_entries 4096;
    max_bytes = or_default cfg.max_bytes (8 * 2 ^ 20);
    cur_bytes = 0;
    evictions = 0;
  };
  tables = [];
  bypass_write_threshold = or_default cfg.bypass_write_threshold 200;
  bypass_window = or_default cfg.bypass_window second;
  bypass_cooldown = or_default cfg.bypass_cooldown (5 * second);
  sql_tables = [];
  hits = 0;
  misses = 0;
}

unfoldable pub lookup {ℓ} : {A : Type ℓ} → Bytes → List (Bytes × A) → Option A
lookup k [] = none
lookup k ((j, v) ∷ m) = if bytes_eq j k then some v else lookup k m

unfoldable pub insert {ℓ} : {A : Type ℓ} → Bytes → A → List (Bytes × A) → List (Bytes × A)
insert k v [] = (k, v) ∷ []
insert k v ((j, w) ∷ m) = if bytes_eq j k then (k, v) ∷ m else (j, w) ∷ insert k v m

-- An empty list in the memo stands for a query that is not cached.
abbrev pub memo_tables : List Bytes → Option (List Bytes)
memo_tables [] = none
memo_tables (t ∷ ts) = some (t ∷ ts)

abbrev pub to_memo : Option (List Bytes) → List Bytes
to_memo none = []
to_memo (some ts) = ts

-- `tablesFor`.
unfoldable pub tables_for : Bytes → Cache → Cache × Option (List Bytes)
unfolding lookup insert
tables_for sql c = elim (lookup sql c.sql_tables) [
  | some ts ↦ (c, memo_tables ts)
  | none ↦
      let t = extract_tables sql in
      (record c { sql_tables = insert sql (to_memo t) c.sql_tables }, t)
]

-- `hashSQL`: FNV-1a with 64 bits.
fnv_from : ℕ → Bytes → ℕ
fnv_from h [] = h
fnv_from h (b ∷ s) = fnv_from (bit_xor h b * 1099511628211 % 2 ^ 64) s

unfoldable pub hash_sql : Bytes → ℕ
unfolding fnv_from
hash_sql sql = fnv_from 14695981039346656037 sql

-- `now.Before(st.bypassedUntil)`.
abbrev pub in_bypass : ℕ → Option TableStats → Bool
in_bypass now none = false
in_bypass now (some st) = ltb now st.bypassed_until

-- The loop at the head of `Get` and `Put`.
unfoldable pub bypassed : ℕ → List Bytes → List (Bytes × TableStats) → Bool
unfolding lookup
bypassed now [] stats = false
bypassed now (t ∷ ts) stats = in_bypass now (lookup t stats) || bypassed now ts stats

abbrev pub hit_of : Bytes → Option (Entry ℕ Stored) → Option (Entry ℕ Stored)
hit_of sql none = none
hit_of sql (some e) = if bytes_eq e.value.sql sql then some e else none

-- `Get`.
unfoldable pub get : ℕ → Bytes → List Bytes → Cache → Cache × Option (List Row)
unfolding bypassed find
get now sql tables c =
    if bypassed now tables c.tables
    then (c, none)
    else elim (hit_of sql (find (hash_sql sql) c.lru.items)) [
      | none ↦ (record c { misses = c.misses + 1 }, none)
      | some e ↦ (record c { lru = move_to_front e c.lru; hits = c.hits + 1 }, some e.value.rows)
    ]

abbrev pub value_bytes : Value → ℕ
value_bytes (text x) = length x
value_bytes (blob x) = length x
value_bytes _ = 8

unfoldable pub row_bytes : Row → ℕ
row_bytes [] = 0
row_bytes ((k, v) ∷ r) = length k + value_bytes v + row_bytes r

unfoldable pub rows_bytes : List Row → ℕ
unfolding row_bytes
rows_bytes [] = 0
rows_bytes (r ∷ rows) = row_bytes r + rows_bytes rows

-- `estimateBytes`.
unfoldable pub estimate_bytes : Bytes → List Row → ℕ
unfolding rows_bytes
estimate_bytes sql rows = length sql + rows_bytes rows

abbrev pub cache_entry : Bytes → List Bytes → List Row → Entry ℕ Stored
cache_entry sql tables rows = record {
  key = hash_sql sql;
  value = record { sql = sql; rows = rows };
  tables = tables;
  bytes = estimate_bytes sql rows;
}

-- `Put`.
unfoldable pub put : ℕ → Bytes → List Bytes → List Row → Cache → Cache
unfolding bypassed
put now sql tables rows c =
    if bypassed now tables c.tables
    then c
    else record c { lru = put_entry (cache_entry sql tables rows) c.lru }

-- The statistics of a table before its first write.
abbrev pub stats_or_new : ℕ → Option TableStats → TableStats
stats_or_new now none = record { window_start = now; writes = 0; bypassed_until = 0 }
stats_or_new now (some st) = st

abbrev pub count_write : ℕ → ℕ → TableStats → TableStats
count_write now window st =
    if ltb window (now - st.window_start)
    then record st { window_start = now; writes = 1 }
    else record st { writes = st.writes + 1 }

abbrev pub start_bypass : ℕ → ℕ → ℕ → TableStats → TableStats
start_bypass now threshold cooldown st =
    if ltb threshold st.writes && not (ltb now st.bypassed_until)
    then record st { bypassed_until = now + cooldown }
    else st

-- The write-rate part of `invalidateTable`.
unfoldable pub record_write : ℕ → Cache → Option TableStats → TableStats
record_write now c old =
    start_bypass now c.bypass_write_threshold c.bypass_cooldown
      (count_write now c.bypass_window (stats_or_new now old))

-- `invalidateTable`.
unfoldable pub invalidate_table : ℕ → Bytes → Cache → Cache
unfolding record_write lookup insert
invalidate_table now table c = record c {
  tables = insert table (record_write now c (lookup table c.tables)) c.tables;
  lru = drop_table table c.lru;
}

-- `FlushAll`.
unfoldable pub flush_all : Cache → Cache
flush_all c = record c { lru = flush c.lru }

pub record CacheStats : Type 0 where
  pub hits : ℕ
  pub misses : ℕ
  pub evictions : ℕ
  pub entries : ℕ
  pub bytes : ℕ
  pub bypassed_tables : List Bytes

unfoldable pub bypassed_tables : ℕ → List (Bytes × TableStats) → List Bytes
bypassed_tables now [] = []
bypassed_tables now ((t, st) ∷ m) =
    let rest = bypassed_tables now m in if ltb now st.bypassed_until then t ∷ rest else rest

-- `Stats`.
unfoldable pub stats : ℕ → Cache → CacheStats
unfolding bypassed_tables
stats now c = record {
  hits = c.hits;
  misses = c.misses;
  evictions = c.lru.evictions;
  entries = length c.lru.items;
  bytes = c.lru.cur_bytes;
  bypassed_tables = bypassed_tables now c.tables;
}
