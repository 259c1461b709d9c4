-- ===== src/Lru/Valid.antt =====
-- The caches of modules/fastdb/cache.go and cmd/main/output_cache.go: the invariant that ties the
-- entries, the byte count and the index together.
use mathlib.Core.Option.{some-injective, none-ne-some}
use web_spa.Base.{
  ℕ, zero, suc, ◌+◌, ◌≡◌, refl, sym, ap, ◌∙◌, subst, Bool, true, false, not, ◌&&◌, ◌||◌, List, [],
  ◌∷◌, ◌++◌, Option, none, some, Bytes, bytes_eq, bytes_eq→eq, arith, Bool-cases, Option-cases, inl,
  inr, if◌then◌else◌,
}
use web_spa.Lru.{
  KeyEq, Entry, Lru, has_table, has_key, keys_of, unlink_all, find, remove, oldest, move_to_front,
  remove_locked, over_limit, evict, drop_existing, push, put_entry, drop_keys, drop_table, flush,
}
use web_spa.Lru.Entries.{
  eqb_refl, Distinct, total_bytes, find-key, find-remove, Distinct-remove, total_bytes-remove,
}
use web_spa.Lru.Index.{in_set, indexed, indexed-delete_table, indexed-link_all, indexed-unlink_all}

module _ {K V : Type 0} ⦃key : KeyEq K⦄ where
  abbrev pub lists_table : Bytes → Option (Entry K V) → Bool
  lists_table t none = false
  lists_table t (some e) = has_table t e.tables

  -- Whether the entry of a key, if there is one, depends on the table.
  abbrev pub referenced : Bytes → K → List (Entry K V) → Bool
  referenced t k items = lists_table t (find k items)

  pub record IsValid (c : Lru K V) : Type 0 where
    pub distinct : Distinct c.items
    pub counted : c.cur_bytes ≡ total_bytes c.items
    pub index : (t : Bytes) (k : K) → indexed t k c.reverse ≡ referenced t k c.items

  referenced-remove :
      (t : Bytes) (k k' : K) (items : List (Entry K V))
      → referenced t k (remove k' items) ≡ (referenced t k items && not (key.eqb k' k))
  referenced-remove t k k' items =
      ap (lists_table t) (find-remove k k' items) ∙ (elim (Bool-cases (key.eqb k' k)) [
        | inl same ↦ rw same (ground arith)
        | inr other ↦ rw other (ground arith)
      ])

  -- Taking the keys out of the index under the tables of an entry is all that its removal asks for.
  index-remove :
      (c : Lru K V) (e : Entry K V) (t : Bytes) (k : K)
      → indexed t k c.reverse ≡ referenced t k c.items
      → find e.key c.items ≡ some e
      → indexed t k (unlink_all e.key e.tables c.reverse) ≡ referenced t k (remove e.key c.items)
  index-remove c e t k h found =
      indexed-unlink_all t e.tables k e.key c.reverse ∙ (elim (Bool-cases (key.eqb e.key k)) [
        | inl same ↦
            let here : find k c.items ≡ some e =
              subst (λ j. find j c.items ≡ some e) ((key.eqb_iff _ _).0 same) found in
            let own : referenced t k c.items ≡ has_table t e.tables = ap (lists_table t) here in
            ground (arith, referenced-remove t k e.key c.items)
        | inr other ↦ ground (arith, referenced-remove t k e.key c.items)
      ])

  pub remove_locked-IsValid :
      (c : Lru K V) (e : Entry K V)
      → IsValid c
      → find e.key c.items ≡ some e
      → IsValid (remove_locked e c)
  unfolding remove_locked
  remove_locked-IsValid c e v found = record {
    distinct = Distinct-remove e.key c.items v.distinct;
    counted = omega (arith, v.counted, total_bytes-remove e.key c.items e v.distinct found);
    index = λ t k. index-remove c e t k (v.index t k) found;
  }

  -- The entry that a key finds is found by its own key.
  pub find_own :
      (k : K) (items : List (Entry K V)) (e : Entry K V)
      → find k items ≡ some e
      → find e.key items ≡ some e
  find_own k items e h = subst (λ j. find j items ≡ some e) (sym (find-key k items h)) h

  pub drop_existing-IsValid : (k : K) (c : Lru K V) → IsValid c → IsValid (drop_existing k c)
  drop_existing-IsValid k c v = elim (Option-cases (find k c.items)) [
    | inl absent ↦ rw absent v
    | inr (e, found) ↦ rw found (remove_locked-IsValid c e v (find_own k c.items e found))
  ]

  -- An entry is found after the removal of a key as before, unless it is the one removed.
  pub find-drop_existing :
      (k k' : K) (c : Lru K V)
      → find k (drop_existing k' c).items ≡ (if key.eqb k' k then none else find k c.items)
  unfolding remove_locked
  find-drop_existing k k' c = elim (Option-cases (find k' c.items)) [
    | inl absent ↦ rw absent (elim (Bool-cases (key.eqb k' k)) [
      | inl same ↦ rw same (subst (λ j. find j c.items ≡ none) ((key.eqb_iff _ _).0 same) absent)
      | inr other ↦ rw other refl
    ])
    | inr (e, found) ↦ rw found (
        subst (λ j. find k (remove j c.items) ≡ (if key.eqb k' k then none else find k c.items))
          (sym (find-key k' c.items found)) (find-remove k k' c.items))
  ]

  pub push-IsValid :
      (c : Lru K V) (e : Entry K V) → IsValid c → find e.key c.items ≡ none → IsValid (push e c)
  unfolding push total_bytes find
  push-IsValid c e v fresh = record {
    distinct = (fresh, v.distinct);
    counted = omega (arith, v.counted);
    index = λ t k.
        indexed-link_all t e.tables k e.key c.reverse ∙ (elim (Bool-cases (key.eqb e.key k)) [
          | inl same ↦
              let absent : find k c.items ≡ none =
                subst (λ j. find j c.items ≡ none) ((key.eqb_iff _ _).0 same) fresh in
              let none_listed : referenced t k c.items ≡ false = ap (lists_table t) absent in
              rw same (ground (arith, v.index t k))
          | inr other ↦ rw other (ground (arith, v.index t k))
        ]);
  }

  apart :
      (x e : Entry K V) (items : List (Entry K V))
      → find x.key items ≡ none
      → find e.key items ≡ some e
      → key.eqb x.key e.key ≡ false
  apart x e items fresh found = elim (Bool-cases (key.eqb x.key e.key)) [
    | inl same ↦ absurd (
        none-ne-some e
          (sym (subst (λ j. find j items ≡ none) ((key.eqb_iff _ _).0 same) fresh) ∙ found))
    | inr other ↦ other
  ]

  -- The last entry is the one that its key finds.
  pub oldest-split :
      (items : List (Entry K V)) (e : Entry K V)
      → Distinct items
      → oldest items ≡ some e
      → (find e.key items ≡ some e) × (items ≡ remove e.key items ++ e ∷ [])
  unfolding oldest find remove
  oldest-split [] e d h = absurd (none-ne-some e h)
  oldest-split (x ∷ []) e d h =
      let same : x ≡ e = some-injective _ _ h in rw (same, eqb_refl e.key) (refl, refl)
  oldest-split (x ∷ y ∷ items) e (fresh, d) h =
      let (found, split) = oldest-split (y ∷ items) e d h in
      let other : key.eqb x.key e.key ≡ false = apart x e (y ∷ items) fresh found in
      rw other (found, ap (◌∷◌ x) split)

  pub remove_oldest-IsValid :
      (c : Lru K V) (e : Entry K V)
      → IsValid c
      → oldest c.items ≡ some e
      → IsValid (record (remove_locked e c) { evictions = c.evictions + 1 })
  unfolding remove_locked
  remove_oldest-IsValid c e v last =
      let w = remove_locked-IsValid c e v (oldest-split c.items e v.distinct last).0 in
      record { distinct = w.distinct; counted = w.counted; index = w.index }

  pub evict-IsValid : (fuel : ℕ) (c : Lru K V) → IsValid c → IsValid (evict fuel c)
  unfolding evict
  evict-IsValid zero c v = v
  evict-IsValid (suc fuel) c v = elim (Bool-cases (over_limit c)) [
    | inr fits ↦ rw (fits, evict) v
    | inl over ↦
        rw (over, evict)
          (elim (Option-cases (oldest c.items)) [
            | inl empty ↦ rw empty v
            | inr (e, last) ↦ rw last (evict-IsValid fuel _ (remove_oldest-IsValid c e v last))
          ])
  ]

  pub put_entry-IsValid : (e : Entry K V) (c : Lru K V) → IsValid c → IsValid (put_entry e c)
  unfolding put_entry
  put_entry-IsValid e c v = evict-IsValid _ _ (
      push-IsValid (drop_existing e.key c) e (drop_existing-IsValid e.key c v)
        (find-drop_existing e.key e.key c ∙ (rw (eqb_refl e.key) refl)))

  pub drop_keys-IsValid : (ks : List K) (c : Lru K V) → IsValid c → IsValid (drop_keys ks c)
  unfolding drop_keys
  drop_keys-IsValid [] c v = v
  drop_keys-IsValid (k ∷ ks) c v =
      drop_keys-IsValid ks (drop_existing k c) (drop_existing-IsValid k c v)

  pub find-drop_keys :
      (k : K) (ks : List K) (c : Lru K V)
      → find k (drop_keys ks c).items ≡ (if has_key k ks then none else find k c.items)
  unfolding drop_keys has_key
  find-drop_keys k [] c = refl
  find-drop_keys k (k' ∷ ks) c =
      find-drop_keys k ks (drop_existing k' c)
      ∙ ap (λ r. if has_key k ks then none else r) (find-drop_existing k k' c)
      ∙ both (find k c.items) (key.eqb k' k) (has_key k ks)
    where
      both :
          (r : Option (Entry K V)) (a b : Bool)
          → (if b then none else (if a then none else r)) ≡ (if a || b then none else r)
      both r true true = refl
      both r true false = refl
      both r false true = refl
      both r false false = refl

  -- After its keys are dropped nothing refers to the table.
  referenced-drop_keys :
      (t : Bytes) (k : K) (ks : List K) (c : Lru K V)
      → IsValid c
      → keys_of t c.reverse ≡ some ks
      → referenced t k (drop_keys ks c).items ≡ false
  referenced-drop_keys t k ks c v listed = elim (Bool-cases (has_key k ks)) [
    | inl held ↦ rw (find-drop_keys k ks c, held) refl
    | inr free ↦ rw (find-drop_keys k ks c, free) (sym (v.index t k) ∙ ap (in_set k) listed ∙ free)
  ]

  pub drop_table-IsValid : (t : Bytes) (c : Lru K V) → IsValid c → IsValid (drop_table t c)
  unfolding drop_table
  drop_table-IsValid t c v = elim (Option-cases (keys_of t c.reverse)) [
    | inl absent ↦ rw (absent, drop_table) v
    | inr (ks, listed) ↦
        rw (listed, drop_table)
          (let w = drop_keys-IsValid ks c v in
            record {
              distinct = w.distinct;
              counted = w.counted;
              index = λ t' k.
                  indexed-delete_table t' t k (drop_keys ks c).reverse ∙ dropped t t' k ks w listed;
            })
  ]
    where
      dropped :
          (t t' : Bytes) (k : K) (ks : List K)
          → IsValid (drop_keys ks c)
          → keys_of t c.reverse ≡ some ks
          → (indexed t' k (drop_keys ks c).reverse && not (bytes_eq t t'))
            ≡ referenced t' k (drop_keys ks c).items
      dropped t t' k ks w listed = elim (Bool-cases (bytes_eq t t')) [
        | inl same ↦ rw same (
            ground arith
            ∙ sym (
                subst (λ x. referenced x k (drop_keys ks c).items ≡ false) (bytes_eq→eq t t' same)
                  (referenced-drop_keys t k ks c v listed)))
        | inr other ↦ rw other (ground arith ∙ w.index t' k)
      ]

  pub flush-IsValid : (c : Lru K V) → IsValid (flush c)
  unfolding flush find keys_of total_bytes
  flush-IsValid c = record { distinct = tt; counted = refl; index = λ t k. refl }

  -- Moving an entry to the front changes no lookup.
  pub find-front :
      (e : Entry K V) (items : List (Entry K V)) (k : K)
      → find e.key items ≡ some e
      → find k (e ∷ remove e.key items) ≡ find k items
  unfolding find
  find-front e items k found = elim (Bool-cases (key.eqb e.key k)) [
    | inl same ↦ rw same (sym (subst (λ j. find j items ≡ some e) ((key.eqb_iff _ _).0 same) found))
    | inr other ↦ rw other (find-remove k e.key items ∙ (rw other refl))
  ]

  pub move_to_front-IsValid :
      (e : Entry K V) (c : Lru K V)
      → IsValid c
      → find e.key c.items ≡ some e
      → IsValid (move_to_front e c)
  unfolding move_to_front total_bytes find
  move_to_front-IsValid e c v found = record {
    distinct = (
      find-remove e.key e.key c.items ∙ (rw (eqb_refl e.key) refl),
      Distinct-remove e.key c.items v.distinct,
    );
    counted = omega (arith, v.counted, total_bytes-remove e.key c.items e v.distinct found);
    index = λ t k. v.index t k ∙ ap (lists_table t) (sym (find-front e c.items k found));
  }
