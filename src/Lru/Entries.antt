-- ===== src/Lru/Entries.antt =====
-- The entries of modules/fastdb/cache.go and cmd/main/output_cache.go: finding and removing by key.
use web_spa.Base.{
  ℕ, suc, ◌+◌, ◌<◌, ◌≡◌, refl, sym, ap, ◌∙◌, subst, true, List, [], ◌∷◌, none, some, arith,
  Bool-cases, inl, inr, if◌then◌else◌, length,
}
use mathlib.Core.Option.{some-injective, none-ne-some}
use web_spa.Lru.{KeyEq, Entry, find, remove}

module _ {K : Type 0} ⦃key : KeyEq K⦄ where
  pub eqb_refl : (k : K) → key.eqb k k ≡ true
  eqb_refl k = (key.eqb_iff k k).1 refl

  -- Equal keys compare alike with any key.
  pub eqb_left : (a b c : K) → key.eqb a b ≡ true → key.eqb a c ≡ key.eqb b c
  eqb_left a b c h = ap (λ x. key.eqb x c) ((key.eqb_iff a b).0 h)

  pub eqb_sym : (a b : K) → key.eqb a b ≡ key.eqb b a
  eqb_sym a b = elim (Bool-cases (key.eqb a b)) [
    | inl same ↦ same ∙ sym ((key.eqb_iff b a).1 (sym ((key.eqb_iff a b).0 same)))
    | inr other ↦ elim (Bool-cases (key.eqb b a)) [
      | inl same ↦ absurd (ground (arith, (key.eqb_iff a b).1 (sym ((key.eqb_iff b a).0 same))))
      | inr other' ↦ other ∙ sym other'
    ]
  ]

module _ {K V : Type 0} ⦃key : KeyEq K⦄ where
  -- No key stands twice.
  abbrev pub Distinct : List (Entry K V) → Type 0
  Distinct [] = Unit
  Distinct (e ∷ items) = (find e.key items ≡ none) × Distinct items

  unfoldable pub total_bytes : List (Entry K V) → ℕ
  total_bytes [] = 0
  total_bytes (e ∷ items) = e.bytes + total_bytes items

  pub find-key :
      (k : K) (items : List (Entry K V)) {e : Entry K V} → find k items ≡ some e → e.key ≡ k
  unfolding find
  find-key k [] h = absurd (none-ne-some _ h)
  find-key k (x ∷ items) {e} h = elim (Bool-cases (key.eqb x.key k)) [
    | inl here ↦
        ap (λ (y : Entry K V). y.key) (sym (some-injective _ _ (rw here at h)))
        ∙ (key.eqb_iff _ _).0 here
    | inr there ↦ find-key k items (rw there at h)
  ]

  pub find-remove :
      (k k' : K) (items : List (Entry K V))
      → find k (remove k' items) ≡ (if key.eqb k' k then none else find k items)
  unfolding find remove
  find-remove k k' [] = elim (Bool-cases (key.eqb k' k)) [
    | inl same ↦ rw same
    | inr other ↦ rw other
  ]
  find-remove k k' (x ∷ items) = elim (Bool-cases (key.eqb x.key k')) [
    | inl gone ↦
        rw (gone, eqb_left x.key k' k gone)
          (find-remove k k' items
            ∙ (elim (Bool-cases (key.eqb k' k)) [ inl same ↦ rw same | inr other ↦ rw other ]))
    | inr stays ↦ elim (Bool-cases (key.eqb x.key k)) [
      | inl here ↦
          rw (stays, here) (sym (rw (eqb_sym k' k ∙ (sym (eqb_left x.key k k' here) ∙ stays))))
      | inr there ↦ rw (stays, there) (find-remove k k' items)
    ]
  ]

  pub remove_of_absent :
      (k : K) (items : List (Entry K V)) → find k items ≡ none → remove k items ≡ items
  unfolding find remove
  remove_of_absent k [] h = refl
  remove_of_absent k (x ∷ items) h = elim (Bool-cases (key.eqb x.key k)) [
    | inl here ↦ absurd (none-ne-some _ (sym (rw here at h)))
    | inr there ↦ rw there (ap (◌∷◌ x) (remove_of_absent k items (rw there at h)))
  ]

  pub Distinct-remove :
      (k : K) (items : List (Entry K V)) → Distinct items → Distinct (remove k items)
  unfolding remove
  Distinct-remove k [] h = tt
  Distinct-remove k (x ∷ items) (fresh, h) = elim (Bool-cases (key.eqb x.key k)) [
    | inl gone ↦ rw gone (Distinct-remove k items h)
    | inr stays ↦ rw stays (
      find-remove x.key k items ∙ (rw (eqb_sym k x.key ∙ stays) fresh),
      Distinct-remove k items h,
    )
  ]

  pub total_bytes-remove :
      (k : K) (items : List (Entry K V)) (e : Entry K V)
      → Distinct items
      → find k items ≡ some e
      → total_bytes (remove k items) + e.bytes ≡ total_bytes items
  unfolding find remove total_bytes
  total_bytes-remove k [] e d h = absurd (none-ne-some _ h)
  total_bytes-remove k (x ∷ items) e (fresh, d) h = elim (Bool-cases (key.eqb x.key k)) [
    | inl here ↦
        let is_x : x ≡ e = some-injective _ _ (rw here at h) in
        let absent : find k items ≡ none =
          subst (λ j. find j items ≡ none) ((key.eqb_iff _ _).0 here) fresh in
        rw (here, remove_of_absent k items absent, is_x) (omega arith)
    | inr there ↦ rw there (omega (arith, total_bytes-remove k items e d (rw there at h)))
  ]

  pub length-remove_le :
      (k : K) (items : List (Entry K V)) → length (remove k items) < suc (length items)
  unfolding remove
  length-remove_le k [] = omega arith
  length-remove_le k (x ∷ items) = ground (arith, length-remove_le k items)

  pub length-remove_lt :
      (k : K) (items : List (Entry K V)) (e : Entry K V)
      → find k items ≡ some e
      → length (remove k items) < length items
  unfolding find remove
  length-remove_lt k [] e h = absurd (none-ne-some _ h)
  length-remove_lt k (x ∷ items) e h = elim (Bool-cases (key.eqb x.key k)) [
    | inl here ↦ rw here (length-remove_le k items)
    | inr there ↦ rw there (omega (arith, length-remove_lt k items e (rw there at h)))
  ]
