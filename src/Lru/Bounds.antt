-- ===== src/Lru/Bounds.antt =====
-- The caches of modules/fastdb/cache.go and cmd/main/output_cache.go as plain lists of entries.
use mathlib.Core.Option.{none-ne-some}
use web_spa.Base.{
  ℕ, zero, suc, ◌+◌, ◌-◌, ◌≤◌, ◌≡◌, refl, sym, ap, ◌∙◌, subst, true, false, ◌&&◌, ◌||◌, List, [],
  ◌∷◌, ◌++◌, none, some, Bytes, arith, Bool-cases, Option-cases, inl, inr, if◌then◌else◌, length,
  leb, ltb,
}
use web_spa.Lru.{
  KeyEq, Entry, Lru, has_table, has_key, keys_of, find, remove, oldest, remove_locked, over_limit,
  evict, drop_existing, push, put_entry, drop_keys, drop_table,
}
use web_spa.Lru.Entries.{
  eqb_refl, eqb_sym, Distinct, total_bytes, find-key, remove_of_absent, length-remove_lt,
}
use web_spa.Lru.Index.{in_set}
use web_spa.Lru.Valid.{
  IsValid, referenced, lists_table, oldest-split, put_entry-IsValid, remove_oldest-IsValid,
  drop_existing-IsValid, find-drop_existing, push-IsValid,
}

module _ {K V : Type 0} ⦃key : KeyEq K⦄ where
  -- The longest prefix with at most `n` entries of at most `b` bytes together.
  unfoldable pub fit_prefix : ℕ → ℕ → List (Entry K V) → List (Entry K V)
  fit_prefix n b [] = []
  fit_prefix n b (e ∷ items) =
      let rest = fit_prefix (n - 1) (b - e.bytes) items in
      if leb 1 n && leb e.bytes b then e ∷ rest else []

  -- The entries that do not depend on the table.
  unfoldable pub without_table : Bytes → List (Entry K V) → List (Entry K V)
  without_table t [] = []
  without_table t (e ∷ items) =
      let rest = without_table t items in if has_table t e.tables then rest else e ∷ rest

  fit_prefix-all :
      (n b : ℕ) (items : List (Entry K V))
      → length items ≤ n
      → total_bytes items ≤ b
      → fit_prefix n b items ≡ items
  unfolding fit_prefix total_bytes
  fit_prefix-all n b [] h k = refl
  fit_prefix-all n b (e ∷ items) h k = ground (arith, fit_prefix-all (n - 1) (b - e.bytes) items)

  total_bytes-snoc :
      (items : List (Entry K V)) (e : Entry K V)
      → total_bytes (items ++ e ∷ []) ≡ total_bytes items + e.bytes
  unfolding total_bytes
  total_bytes-snoc [] e = omega arith
  total_bytes-snoc (x ∷ items) e = omega (arith, total_bytes-snoc items e)

  -- An entry at the end of a list that does not fit is not in the prefix.
  fit_prefix-snoc :
      (n b : ℕ) (items : List (Entry K V)) (e : Entry K V)
      → (ltb n (length (items ++ e ∷ [])) || ltb b (total_bytes (items ++ e ∷ []))) ≡ true
      → fit_prefix n b (items ++ e ∷ []) ≡ fit_prefix n b items
  unfolding fit_prefix total_bytes
  fit_prefix-snoc n b [] e h = ground arith
  fit_prefix-snoc n b (x ∷ items) e h =
      ground (arith, fit_prefix-snoc (n - 1) (b - x.bytes) items e)

  pub fit_prefix-within :
      (n b : ℕ) (items : List (Entry K V))
      → (length (fit_prefix n b items) ≤ n) × (total_bytes (fit_prefix n b items) ≤ b)
  unfolding fit_prefix total_bytes
  fit_prefix-within n b [] = omega arith
  fit_prefix-within n b (e ∷ items) = ground (arith, fit_prefix-within (n - 1) (b - e.bytes) items)

  oldest_of_cons :
      (e : Entry K V) (items : List (Entry K V)) → (o : Entry K V) × (oldest (e ∷ items) ≡ some o)
  unfolding oldest
  oldest_of_cons e [] = (e, refl)
  oldest_of_cons e (x ∷ items) = oldest_of_cons x items

  fit_prefix-empty :
      (n b : ℕ) (items : List (Entry K V)) → length items ≤ 0 → items ≡ fit_prefix n b items
  unfolding fit_prefix
  fit_prefix-empty n b [] h = refl
  fit_prefix-empty n b (e ∷ items) h = absurd (omega arith)

  oldest-none : (items : List (Entry K V)) → oldest items ≡ none → length items ≤ 0
  oldest-none [] h = omega arith
  oldest-none (e ∷ items) h =
      let (o, last) = oldest_of_cons e items in absurd (none-ne-some o (sym h ∙ last))

  -- A round of the eviction does not change the longest prefix.
  fit_prefix-oldest :
      (c : Lru K V) (e : Entry K V)
      → IsValid c
      → over_limit c ≡ true
      → oldest c.items ≡ some e
      → fit_prefix c.max_entries c.max_bytes (remove e.key c.items)
        ≡ fit_prefix c.max_entries c.max_bytes c.items
  fit_prefix-oldest c e v over last =
      let split = (oldest-split c.items e v.distinct last).1 in
      let too_large : (ltb c.max_entries (length c.items) || ltb c.max_bytes (total_bytes c.items))
          ≡ true =
        ap (λ b. ltb c.max_entries (length c.items) || ltb c.max_bytes b) (sym v.counted) ∙ over in
      sym (
        ap (fit_prefix c.max_entries c.max_bytes) split
        ∙ fit_prefix-snoc c.max_entries c.max_bytes (remove e.key c.items) e (
            subst (λ l. (ltb c.max_entries (length l) || ltb c.max_bytes (total_bytes l)) ≡ true)
              split too_large))

  -- The loop of the eviction leaves the longest prefix that is within the limits.
  pub items-evict :
      (fuel : ℕ) (c : Lru K V)
      → IsValid c
      → length c.items ≤ fuel
      → (evict fuel c).items ≡ fit_prefix c.max_entries c.max_bytes c.items
  unfolding evict remove_locked
  items-evict zero c v h = fit_prefix-empty c.max_entries c.max_bytes c.items h
  items-evict (suc fuel) c v h = elim (Bool-cases (over_limit c)) [
    | inr fits ↦
        rw (fits, evict)
          (sym (
            fit_prefix-all c.max_entries c.max_bytes c.items (ground arith)
              (ground (arith, v.counted))))
    | inl over ↦
        rw (over, evict)
          (elim (Option-cases (oldest c.items)) [
            | inl none_left ↦
                rw none_left (
                  fit_prefix-empty c.max_entries c.max_bytes c.items
                    (oldest-none c.items none_left))
            | inr (e, last) ↦ rw last (
                items-evict fuel _ (remove_oldest-IsValid c e v last) (
                  omega (
                    arith,
                    length-remove_lt e.key c.items e (oldest-split c.items e v.distinct last).0,
                  ))
                ∙ fit_prefix-oldest c e v over last)
          ])
  ]

  pub items-drop_existing : (k : K) (c : Lru K V) → (drop_existing k c).items ≡ remove k c.items
  unfolding remove_locked
  items-drop_existing k c = elim (Option-cases (find k c.items)) [
    | inl absent ↦ rw absent (sym (remove_of_absent k c.items absent))
    | inr (e, found) ↦ rw found (ap (λ j. remove j c.items) (find-key k c.items found))
  ]

  limits-drop_existing :
      (k : K) (c : Lru K V)
      → ((drop_existing k c).max_entries ≡ c.max_entries)
        × ((drop_existing k c).max_bytes ≡ c.max_bytes)
  unfolding remove_locked
  limits-drop_existing k c = elim (Option-cases (find k c.items)) [
    | inl absent ↦ rw absent (refl, refl)
    | inr (e, found) ↦ rw found (refl, refl)
  ]

  limits-evict :
      (fuel : ℕ) (c : Lru K V)
      → ((evict fuel c).max_entries ≡ c.max_entries) × ((evict fuel c).max_bytes ≡ c.max_bytes)
  unfolding evict remove_locked
  limits-evict zero c = (refl, refl)
  limits-evict (suc fuel) c = elim (Bool-cases (over_limit c)) [
    | inr fits ↦ rw (fits, evict) (refl, refl)
    | inl over ↦
        rw (over, evict)
          (elim (Option-cases (oldest c.items)) [
            | inl empty ↦ rw empty (refl, refl)
            | inr (e, last) ↦ rw last (limits-evict fuel _)
          ])
  ]

  -- No operation changes the limits.
  pub limits-put_entry :
      (e : Entry K V) (c : Lru K V)
      → ((put_entry e c).max_entries ≡ c.max_entries) × ((put_entry e c).max_bytes ≡ c.max_bytes)
  unfolding put_entry push
  limits-put_entry e c =
      let (n, b) =
        limits-evict (length (push e (drop_existing e.key c)).items)
          (push e (drop_existing e.key c)) in
      let (n', b') = limits-drop_existing e.key c in (n ∙ n', b ∙ b')

  limits-drop_keys :
      (ks : List K) (c : Lru K V)
      → ((drop_keys ks c).max_entries ≡ c.max_entries) × ((drop_keys ks c).max_bytes ≡ c.max_bytes)
  unfolding drop_keys
  limits-drop_keys [] c = (refl, refl)
  limits-drop_keys (k ∷ ks) c =
      let (n, b) = limits-drop_keys ks (drop_existing k c) in
      let (n', b') = limits-drop_existing k c in (n ∙ n', b ∙ b')

  pub limits-drop_table :
      (t : Bytes) (c : Lru K V)
      → ((drop_table t c).max_entries ≡ c.max_entries) × ((drop_table t c).max_bytes ≡ c.max_bytes)
  unfolding drop_table
  limits-drop_table t c = elim (Option-cases (keys_of t c.reverse)) [
    | inl absent ↦ rw (absent, drop_table) (refl, refl)
    | inr (ks, listed) ↦ rw (listed, drop_table) (limits-drop_keys ks c)
  ]

  -- A write leaves its entry in front of the others, without what no longer fits at the end.
  pub items-put_entry :
      (e : Entry K V) (c : Lru K V)
      → IsValid c
      → (put_entry e c).items ≡ fit_prefix c.max_entries c.max_bytes (e ∷ remove e.key c.items)
  unfolding put_entry push
  items-put_entry e c v =
      let (n, b) = limits-drop_existing e.key c in
      items-evict (suc (length (drop_existing e.key c).items)) (push e (drop_existing e.key c))
        (push-IsValid (drop_existing e.key c) e (drop_existing-IsValid e.key c v)
          (find-drop_existing e.key e.key c ∙ (rw (eqb_refl e.key) refl)))
        (omega arith)
      ∙ (λ i. fit_prefix (n i) (b i) (e ∷ items-drop_existing e.key c i))

  pub put_entry_within :
      (e : Entry K V) (c : Lru K V)
      → IsValid c
      → (length (put_entry e c).items ≤ c.max_entries) × ((put_entry e c).cur_bytes ≤ c.max_bytes)
  put_entry_within e c v =
      let (n, b) = fit_prefix-within c.max_entries c.max_bytes (e ∷ remove e.key c.items) in
      let counted = (put_entry-IsValid e c v).counted in
      let same = items-put_entry e c v in
      (
        subst (λ l. length l ≤ c.max_entries) (sym same) n,
        subst (λ m. m ≤ c.max_bytes) (sym (counted ∙ ap total_bytes same)) b,
      )

  -- An entry that fits is there after the write.
  pub find-put_entry :
      (e : Entry K V) (c : Lru K V)
      → IsValid c
      → 1 ≤ c.max_entries
      → e.bytes ≤ c.max_bytes
      → find e.key (put_entry e c).items ≡ some e
  unfolding fit_prefix find
  find-put_entry e c v h k = ap (find e.key) (items-put_entry e c v) ∙ fit_front
    where
      fit_front :
          find e.key (fit_prefix c.max_entries c.max_bytes (e ∷ remove e.key c.items)) ≡ some e
      fit_front = ground (arith, eqb_refl e.key)

  -- The entries whose key is not in the set.
  remove_all : List K → List (Entry K V) → List (Entry K V)
  remove_all ks [] = []
  remove_all ks (e ∷ items) =
      let rest = remove_all ks items in if has_key e.key ks then rest else e ∷ rest

  remove_all-nil : (items : List (Entry K V)) → remove_all [] items ≡ items
  unfolding remove_all has_key
  remove_all-nil [] = refl
  remove_all-nil (e ∷ items) = ap (◌∷◌ e) (remove_all-nil items)

  remove_all-remove :
      (k : K) (ks : List K) (items : List (Entry K V))
      → remove_all ks (remove k items) ≡ remove_all (k ∷ ks) items
  unfolding remove_all has_key remove
  remove_all-remove k ks [] = refl
  remove_all-remove k ks (e ∷ items) = ground (arith, eqb_sym k e.key, remove_all-remove k ks items)

  items-drop_keys : (ks : List K) (c : Lru K V) → (drop_keys ks c).items ≡ remove_all ks c.items
  unfolding drop_keys
  items-drop_keys [] c = sym (remove_all-nil c.items)
  items-drop_keys (k ∷ ks) c =
      items-drop_keys ks (drop_existing k c)
      ∙ ap (remove_all ks) (items-drop_existing k c)
      ∙ remove_all-remove k ks c.items

  -- Where the set holds the keys of the entries that depend on the table.
  remove_all-without_table :
      (t : Bytes) (ks : List K) (items : List (Entry K V))
      → Distinct items
      → ((k : K) (x : Entry K V) → find k items ≡ some x → has_key k ks ≡ has_table t x.tables)
      → remove_all ks items ≡ without_table t items
  unfolding remove_all without_table find
  remove_all-without_table t ks [] d h = refl
  remove_all-without_table t ks (e ∷ items) (fresh, d) h =
      let own : has_key e.key ks ≡ has_table t e.tables = h e.key e (rw (eqb_refl e.key) refl) in
      let rest = remove_all-without_table t ks items d (λ k x found. h k x (later k x found)) in
      rw (own, rest) refl
    where
      later :
          (k : K) (x : Entry K V)
          → find k items ≡ some x
          → (if key.eqb e.key k then some e else find k items) ≡ some x
      later k x found = elim (Bool-cases (key.eqb e.key k)) [
        | inl same ↦ absurd (
            none-ne-some x
              (sym (subst (λ j. find j items ≡ none) ((key.eqb_iff _ _).0 same) fresh) ∙ found))
        | inr other ↦ rw other found
      ]

  -- Without a set for the table nothing depends on it.
  without_table-all :
      (t : Bytes) (items : List (Entry K V))
      → Distinct items
      → ((k : K) → referenced t k items ≡ false)
      → items ≡ without_table t items
  unfolding remove_all without_table has_key
  without_table-all t items d h =
      sym (remove_all-nil items)
      ∙ remove_all-without_table t [] items d
          (λ k x found. sym (sym (ap (lists_table t) found) ∙ h k))

  -- The invalidation of a table removes the entries that depend on it, and no other.
  pub items-drop_table :
      (t : Bytes) (c : Lru K V) → IsValid c → (drop_table t c).items ≡ without_table t c.items
  unfolding drop_table
  items-drop_table t c v = elim (Option-cases (keys_of t c.reverse)) [
    | inl absent ↦
        rw (absent, drop_table)
          (without_table-all t c.items v.distinct (λ k. sym (v.index t k) ∙ ap (in_set k) absent))
    | inr (ks, listed) ↦
        rw (listed, drop_table)
          (items-drop_keys ks c
            ∙ remove_all-without_table t ks c.items v.distinct
                (λ k x found. sym (ap (in_set k) listed) ∙ v.index t k ∙ ap (lists_table t) found))
  ]
