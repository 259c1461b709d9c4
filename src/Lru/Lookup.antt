-- ===== src/Lru/Lookup.antt =====
-- Looking a key up in the caches of modules/fastdb/cache.go and cmd/main/output_cache.go after each
-- of the operations on the entries.
use mathlib.Core.Option.{none-ne-some}
use web_spa.Base.{
  ℕ, ◌-◌, ◌≤◌, ◌≡◌, refl, sym, ap, ◌∙◌, subst, ◌&&◌, List, [], ◌∷◌, Option, none, some, Bytes,
  arith, Bool-cases, inl, inr, if◌then◌else◌, length, leb,
}
use web_spa.Lru.{KeyEq, Entry, Lru, has_table, find, remove, put_entry, drop_table}
use web_spa.Lru.Entries.{Distinct, total_bytes, find-remove}
use web_spa.Lru.Valid.{IsValid}
use web_spa.Lru.Bounds.{fit_prefix, without_table, items-put_entry, items-drop_table}

module _ {K V : Type 0} ⦃key : KeyEq K⦄ where
  find-fit_prefix :
      (n b : ℕ) (k : K) (items : List (Entry K V)) {e : Entry K V}
      → find k (fit_prefix n b items) ≡ some e
      → find k items ≡ some e
  unfolding find fit_prefix
  find-fit_prefix n b k [] h = h
  find-fit_prefix n b k (x ∷ items) {e} h = elim (Bool-cases (leb 1 n && leb x.bytes b)) [
    | inr cut ↦ absurd (none-ne-some e (rw cut at h))
    | inl kept ↦ elim (Bool-cases (key.eqb x.key k)) [
      | inl here ↦ rw here (rw (kept, find, here) at h)
      | inr there ↦
          rw there (find-fit_prefix (n - 1) (b - x.bytes) k items (rw (kept, find, there) at h))
    ]
  ]

  -- What a write leaves under a key is its own entry, or the one that was there.
  pub find-put_entry-some :
      (e : Entry K V) (c : Lru K V) (k : K) {x : Entry K V}
      → IsValid c
      → find k (put_entry e c).items ≡ some x
      → (if key.eqb e.key k then some e else find k c.items) ≡ some x
  unfolding find
  find-put_entry-some e c k {x} v h =
      let shown =
        find-fit_prefix c.max_entries c.max_bytes k (e ∷ remove e.key c.items)
          (subst (λ l. find k l ≡ some x) (items-put_entry e c v) h) in
      at_front shown
    where
      at_front :
          find k (e ∷ remove e.key c.items) ≡ some x
          → (if key.eqb e.key k then some e else find k c.items) ≡ some x
      at_front shown = elim (Bool-cases (key.eqb e.key k)) [
        | inl same ↦ rw same (rw (find, same) at shown)
        | inr other ↦
            rw other
              (sym (find-remove k e.key c.items ∙ (rw other refl)) ∙ (rw (find, other) at shown))
      ]

  -- An entry that depends on the table counts as none.
  abbrev pub unless_listed : Bytes → Option (Entry K V) → Option (Entry K V)
  unless_listed t none = none
  unless_listed t (some e) = if has_table t e.tables then none else some e

  find-without_table :
      (t : Bytes) (k : K) (items : List (Entry K V))
      → Distinct items
      → find k (without_table t items) ≡ unless_listed t (find k items)
  unfolding find without_table
  find-without_table t k [] d = refl
  find-without_table t k (x ∷ items) (fresh, d) = elim (Bool-cases (key.eqb x.key k)) [
    | inl here ↦
        let gone : find k items ≡ none =
          subst (λ j. find j items ≡ none) ((key.eqb_iff _ _).0 here) fresh in
        elim (Bool-cases (has_table t x.tables)) [
          | inl listed ↦
              rw (here, listed) (find-without_table t k items d ∙ ap (unless_listed t) gone)
          | inr free ↦ rw (free, here) (rw free refl)
        ]
    | inr there ↦ elim (Bool-cases (has_table t x.tables)) [
      | inl listed ↦ rw (there, listed) (find-without_table t k items d)
      | inr free ↦ rw (free, there) (find-without_table t k items d)
    ]
  ]

  pub find-drop_table :
      (t : Bytes) (k : K) (c : Lru K V)
      → IsValid c
      → find k (drop_table t c).items ≡ unless_listed t (find k c.items)
  find-drop_table t k c v =
      ap (find k) (items-drop_table t c v) ∙ find-without_table t k c.items v.distinct

  pub without_table_le :
      (t : Bytes) (items : List (Entry K V))
      → (length (without_table t items) ≤ length items)
        × (total_bytes (without_table t items) ≤ total_bytes items)
  unfolding without_table total_bytes
  without_table_le t [] = omega arith
  without_table_le t (x ∷ items) = ground (arith, without_table_le t items)
