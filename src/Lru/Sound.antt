-- ===== src/Lru/Sound.antt =====
-- The caches of modules/fastdb/cache.go and cmd/main/output_cache.go between two operations: the
-- invariant and the limits.
use web_spa.Base.{◌≤◌, ◌≡◌, sym, ap, subst, some, Bytes, length, arith}
use web_spa.Lru.{KeyEq, Entry, Lru, find, move_to_front, put_entry, drop_table, flush}
use web_spa.Lru.Entries.{total_bytes, length-remove_lt}
use web_spa.Lru.Valid.{
  IsValid, put_entry-IsValid, drop_table-IsValid, flush-IsValid, move_to_front-IsValid,
}
use web_spa.Lru.Bounds.{limits-put_entry, limits-drop_table, put_entry_within, items-drop_table}
use web_spa.Lru.Lookup.{without_table_le}

module _ {K V : Type 0} ⦃key : KeyEq K⦄ where
  pub record IsSound (c : Lru K V) : Type 0 where
    pub valid : IsValid c
    pub few : length c.items ≤ c.max_entries
    pub small : c.cur_bytes ≤ c.max_bytes

  pub put_entry-IsSound : (e : Entry K V) (c : Lru K V) → IsSound c → IsSound (put_entry e c)
  put_entry-IsSound e c s =
      let (n, b) = limits-put_entry e c in
      let (few, small) = put_entry_within e c s.valid in
      record {
        valid = put_entry-IsValid e c s.valid;
        few = subst (λ m. length (put_entry e c).items ≤ m) (sym n) few;
        small = subst (λ m. (put_entry e c).cur_bytes ≤ m) (sym b) small;
      }

  pub drop_table-IsSound : (t : Bytes) (c : Lru K V) → IsSound c → IsSound (drop_table t c)
  drop_table-IsSound t c s =
      let v = drop_table-IsValid t c s.valid in
      let (n, b) = limits-drop_table t c in
      let (fewer, smaller) = without_table_le t c.items in
      let same = items-drop_table t c s.valid in
      record {
        valid = v;
        few = omega (arith, ap length same, n, fewer, s.few);
        small = omega (arith, v.counted, ap total_bytes same, b, smaller, s.valid.counted, s.small);
      }

  pub flush-IsSound : (c : Lru K V) → IsSound (flush c)
  unfolding flush
  flush-IsSound c = record { valid = flush-IsValid c; few = omega arith; small = omega arith }

  pub move_to_front-IsSound :
      (e : Entry K V) (c : Lru K V)
      → find e.key c.items ≡ some e
      → IsSound c
      → IsSound (move_to_front e c)
  unfolding move_to_front
  move_to_front-IsSound e c found s = record {
    valid = move_to_front-IsValid e c s.valid found;
    few = omega (arith, length-remove_lt e.key c.items e found, s.few);
    small = s.small;
  }
