-- ===== src/Lru.antt =====
-- What the two caches share, modules/fastdb/cache.go and cmd/main/output_cache.go: entries in the
-- order of their last use, the index from tables to keys, and the eviction by number and bytes.
-- The map of entries and the linked list of their pointers are one list here, the most recent entry
-- first; the tail of the linked list is the last of them.
pub mod Entries
pub mod Index
pub mod Valid
pub mod Bounds
pub mod Lookup
pub mod Sound
mod Tests
use web_spa.Base.{
  ℕ, zero, suc, ◌+◌, ◌-◌, ◌≡◌, Bool, true, false, not, ◌&&◌, ◌||◌, List, [], ◌∷◌, Option, none,
  some, Bytes, bytes_eq, ltb, if◌then◌else◌, length, ◌↔◌,
}

-- Keys are compared by Go's `==`.
pub record KeyEq (K : Type 0) : Type 0 where
  pub eqb : K → K → Bool
  pub eqb_iff : (a b : K) → (eqb a b ≡ true) ↔ (a ≡ b)

-- An entry as the list and the index see it.
pub record Entry (K V : Type 0) : Type 0 where
  pub key : K
  pub value : V
  pub tables : List Bytes
  pub bytes : ℕ

-- `reverse` is the index; a table has one set of keys.
pub record Lru (K V : Type 0) : Type 0 where
  pub items : List (Entry K V)
  pub reverse : List (Bytes × List K)
  pub max_entries : ℕ
  pub max_bytes : ℕ
  pub cur_bytes : ℕ
  pub evictions : ℕ

unfoldable pub has_table : Bytes → List Bytes → Bool
has_table t [] = false
has_table t (x ∷ xs) = bytes_eq x t || has_table t xs

module _ {K : Type 0} ⦃key : KeyEq K⦄ where
  -- `_, ok := set[k]`.
  unfoldable pub has_key : K → List K → Bool
  has_key k [] = false
  has_key k (x ∷ xs) = key.eqb x k || has_key k xs

  -- `delete(set, k)`.
  unfoldable pub delete_key : K → List K → List K
  delete_key k [] = []
  delete_key k (x ∷ xs) = let rest = delete_key k xs in if key.eqb x k then rest else x ∷ rest

  -- `reverse[t]`.
  unfoldable pub keys_of : Bytes → List (Bytes × List K) → Option (List K)
  keys_of t [] = none
  keys_of t ((x, s) ∷ rev) = if bytes_eq x t then some s else keys_of t rev

  -- `delete(reverse, t)`.
  unfoldable pub delete_table : Bytes → List (Bytes × List K) → List (Bytes × List K)
  delete_table t [] = []
  delete_table t ((x, s) ∷ rev) =
      let rest = delete_table t rev in if bytes_eq x t then rest else (x, s) ∷ rest

  abbrev pub set_keys : Bytes → List K → List (Bytes × List K) → List (Bytes × List K)
  set_keys t s rev = (t, s) ∷ delete_table t rev

  -- `s[key] = struct{}{}`, in the set of the table or in a new one.
  unfoldable pub link : K → Bytes → List (Bytes × List K) → List (Bytes × List K)
  link k t rev = elim (keys_of t rev) [
    | none ↦ set_keys t (k ∷ []) rev
    | some s ↦ set_keys t (if has_key k s then s else k ∷ s) rev
  ]

  -- A set that is left empty goes.
  abbrev pub keep_set : Bytes → List K → List (Bytes × List K) → List (Bytes × List K)
  keep_set t [] rev = delete_table t rev
  keep_set t (x ∷ xs) rev = set_keys t (x ∷ xs) rev

  -- `delete(s, e.key)`, and the set goes when it is empty.
  unfoldable pub unlink : K → Bytes → List (Bytes × List K) → List (Bytes × List K)
  unlink k t rev = elim (keys_of t rev) [ none ↦ rev | some s ↦ keep_set t (delete_key k s) rev ]

  unfoldable pub link_all : K → List Bytes → List (Bytes × List K) → List (Bytes × List K)
  link_all k [] rev = rev
  link_all k (t ∷ ts) rev = link_all k ts (link k t rev)

  unfoldable pub unlink_all : K → List Bytes → List (Bytes × List K) → List (Bytes × List K)
  unlink_all k [] rev = rev
  unlink_all k (t ∷ ts) rev = unlink_all k ts (unlink k t rev)

module _ {K V : Type 0} ⦃key : KeyEq K⦄ where
  -- `entries[k]`.
  unfoldable pub find : K → List (Entry K V) → Option (Entry K V)
  find k [] = none
  find k (e ∷ items) = if key.eqb e.key k then some e else find k items

  -- The entries without that of `k`.
  unfoldable pub remove : K → List (Entry K V) → List (Entry K V)
  remove k [] = []
  remove k (e ∷ items) = let rest = remove k items in if key.eqb e.key k then rest else e ∷ rest

  -- The tail of the list.
  unfoldable pub oldest : List (Entry K V) → Option (Entry K V)
  oldest [] = none
  oldest (e ∷ []) = some e
  oldest (e ∷ f ∷ items) = oldest (f ∷ items)

  -- `moveToFrontLocked`.
  unfoldable pub move_to_front : Entry K V → Lru K V → Lru K V
  move_to_front e c = record c { items = e ∷ remove e.key c.items }

  -- `removeLocked`.
  unfoldable pub remove_locked : Entry K V → Lru K V → Lru K V
  remove_locked e c = record c {
    items = remove e.key c.items;
    reverse = unlink_all e.key e.tables c.reverse;
    cur_bytes = c.cur_bytes - e.bytes;
  }

  abbrev pub over_limit : Lru K V → Bool
  over_limit c = ltb c.max_entries (length c.items) || ltb c.max_bytes c.cur_bytes

  -- The loop at the end of `Put`; each round removes an entry.
  unfoldable pub evict : ℕ → Lru K V → Lru K V
  evict zero c = c
  evict (suc fuel) c = elim (over_limit c) [
    | false ↦ c
    | true ↦ elim (oldest c.items) [
      | none ↦ c
      | some e ↦ evict fuel (record (remove_locked e c) { evictions = c.evictions + 1 })
    ]
  ]

  abbrev pub drop_found : Option (Entry K V) → Lru K V → Lru K V
  drop_found none c = c
  drop_found (some existing) c = remove_locked existing c

  -- An existing entry of the key goes first.
  abbrev pub drop_existing : K → Lru K V → Lru K V
  drop_existing k c = drop_found (find k c.items) c

  -- The store in `Put`: map, index, `pushFrontLocked`, bytes.
  unfoldable pub push : Entry K V → Lru K V → Lru K V
  push e c = record c {
    items = e ∷ c.items;
    reverse = link_all e.key e.tables c.reverse;
    cur_bytes = c.cur_bytes + e.bytes;
  }

  -- `Put` from its look at an existing entry on.
  unfoldable pub put_entry : Entry K V → Lru K V → Lru K V
  put_entry e c = let c' = push e (drop_existing e.key c) in evict (length c'.items) c'

  -- The loop of the invalidation over the keys of a table.
  unfoldable pub drop_keys : List K → Lru K V → Lru K V
  drop_keys [] c = c
  drop_keys (k ∷ ks) c = drop_keys ks (drop_existing k c)

  -- The invalidation of a table, without the statistics.
  unfoldable pub drop_table : Bytes → Lru K V → Lru K V
  drop_table t c = elim (keys_of t c.reverse) [
    | none ↦ c
    | some ks ↦ let c' = drop_keys ks c in record c' { reverse = delete_table t c'.reverse }
  ]

  -- The flush of all entries.
  unfoldable pub flush : Lru K V → Lru K V
  flush c = record c { items = []; reverse = []; cur_bytes = 0 }
