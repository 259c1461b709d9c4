-- ===== src/Lru/Index.antt =====
-- The index of modules/fastdb/cache.go and cmd/main/output_cache.go from tables to keys, read as a
-- test.
use web_spa.Base.{
  ◌≡◌, refl, sym, ap, ◌∙◌, subst, Bool, true, false, not, ◌&&◌, ◌||◌, List, [], ◌∷◌, Option, none,
  some, Bytes, bytes_eq, bytes_eq_refl, bytes_eq→eq, arith, Bool-cases, Option-cases, inl, inr,
  if◌then◌else◌,
}
use web_spa.Lru.{
  KeyEq, has_table, has_key, delete_key, keys_of, delete_table, set_keys, keep_set, link, unlink,
  link_all, unlink_all,
}
use web_spa.Lru.Entries.{eqb_left, eqb_sym}

module _ {K : Type 0} ⦃key : KeyEq K⦄ where
  -- Whether the index has key `k` under table `t`.
  abbrev pub in_set : K → Option (List K) → Bool
  in_set k none = false
  in_set k (some s) = has_key k s

  abbrev pub indexed : Bytes → K → List (Bytes × List K) → Bool
  indexed t k rev = in_set k (keys_of t rev)

  has_key-delete_key :
      (k k' : K) (s : List K) → has_key k (delete_key k' s) ≡ (has_key k s && not (key.eqb k' k))
  unfolding has_key delete_key
  has_key-delete_key k k' [] = refl
  has_key-delete_key k k' (x ∷ s) = elim (Bool-cases (key.eqb x k')) [
    | inl gone ↦ rw (gone, eqb_left x k' k gone) (has_key-delete_key k k' s ∙ (ground arith))
    | inr stays ↦ elim (Bool-cases (key.eqb x k)) [
      | inl here ↦
          rw (stays, here) (ap not (sym (eqb_sym k' k ∙ (sym (eqb_left x k k' here) ∙ stays))))
      | inr there ↦ rw (stays, there) (has_key-delete_key k k' s)
    ]
  ]

  keys_of-delete_table :
      (t t' : Bytes) (rev : List (Bytes × List K))
      → keys_of t (delete_table t' rev) ≡ (if bytes_eq t' t then none else keys_of t rev)
  unfolding keys_of delete_table
  keys_of-delete_table t t' [] = elim (Bool-cases (bytes_eq t' t)) [
    | inl same ↦ rw same
    | inr other ↦ rw other
  ]
  keys_of-delete_table t t' ((x, s) ∷ rev) = elim (Bool-cases (bytes_eq x t')) [
    | inl gone ↦
        rw (gone, bytes_eq→eq x t' gone)
          (keys_of-delete_table t t' rev
            ∙ (elim (Bool-cases (bytes_eq t' t)) [ inl same ↦ rw same | inr other ↦ rw other ]))
    | inr stays ↦ elim (Bool-cases (bytes_eq x t)) [
      | inl here ↦ rw (stays, here) (sym (rw (not_same x t t' here stays)))
      | inr there ↦ rw (stays, there) (keys_of-delete_table t t' rev)
    ]
  ]
    where
      not_same :
          (x t t' : Bytes) → bytes_eq x t ≡ true → bytes_eq x t' ≡ false → bytes_eq t' t ≡ false
      not_same x t t' here stays = elim (Bool-cases (bytes_eq t' t)) [
        | inl same ↦ absurd (
            ground (
              arith,
              subst (λ y. bytes_eq y t' ≡ true) (bytes_eq→eq t' t same ∙ sym (bytes_eq→eq x t here))
                  (bytes_eq_refl t'),
            ))
        | inr other ↦ other
      ]

  pub indexed-delete_table :
      (t t' : Bytes) (k : K) (rev : List (Bytes × List K))
      → indexed t k (delete_table t' rev) ≡ (indexed t k rev && not (bytes_eq t' t))
  indexed-delete_table t t' k rev =
      ap (in_set k) (keys_of-delete_table t t' rev) ∙ (elim (Bool-cases (bytes_eq t' t)) [
        | inl same ↦ rw same (ground arith)
        | inr other ↦ rw other (ground arith)
      ])

  indexed-set_keys :
      (t t' : Bytes) (k : K) (s : List K) (rev : List (Bytes × List K))
      → indexed t k (set_keys t' s rev) ≡ (if bytes_eq t' t then has_key k s else indexed t k rev)
  unfolding keys_of
  indexed-set_keys t t' k s rev = elim (Bool-cases (bytes_eq t' t)) [
    | inl same ↦ rw same
    | inr other ↦ rw other (ap (in_set k) (keys_of-delete_table t t' rev ∙ (rw other)))
  ]

  has_key-cons :
      (k k' : K) (s : List K)
      → has_key k (if has_key k' s then s else k' ∷ s) ≡ (has_key k s || key.eqb k' k)
  unfolding has_key
  has_key-cons k k' s =
      ground (arith, λ (e : key.eqb k' k ≡ true). ap (λ x. has_key x s) ((key.eqb_iff k' k).0 e))

  -- The set that a write replaces is that of the table, whatever its spelling.
  keys_of-same :
      (t t' : Bytes) (rev : List (Bytes × List K))
      → bytes_eq t' t ≡ true
      → keys_of t' rev ≡ keys_of t rev
  keys_of-same t t' rev h = ap (λ x. keys_of x rev) (bytes_eq→eq t' t h)

  pub indexed-link :
      (t t' : Bytes) (k k' : K) (rev : List (Bytes × List K))
      → indexed t k (link k' t' rev) ≡ (indexed t k rev || (bytes_eq t' t && key.eqb k' k))
  unfolding link has_key keys_of
  indexed-link t t' k k' rev = elim (Option-cases (keys_of t' rev)) [
    | inl absent ↦
        rw (absent, in_set)
          (indexed-set_keys t t' k (k' ∷ []) rev ∙ (elim (Bool-cases (bytes_eq t' t)) [
            | inl same ↦ rw (same, sym (keys_of-same t t' rev same) ∙ absent) (ground arith)
            | inr other ↦ rw other (ground arith)
          ]))
    | inr (s, present) ↦
        rw (present, in_set)
          (indexed-set_keys t t' k (if has_key k' s then s else k' ∷ s) rev
            ∙ (elim (Bool-cases (bytes_eq t' t)) [
              | inl same ↦
                  rw (same, sym (keys_of-same t t' rev same) ∙ present) (has_key-cons k k' s)
              | inr other ↦ rw other (ground arith)
            ]))
  ]

  indexed-keep_set :
      (t t' : Bytes) (k : K) (s : List K) (rev : List (Bytes × List K))
      → indexed t k (keep_set t' s rev) ≡ (if bytes_eq t' t then has_key k s else indexed t k rev)
  unfolding has_key
  indexed-keep_set t t' k [] rev = indexed-delete_table t t' k rev ∙ (ground arith)
  indexed-keep_set t t' k (x ∷ xs) rev = indexed-set_keys t t' k (x ∷ xs) rev

  pub indexed-unlink :
      (t t' : Bytes) (k k' : K) (rev : List (Bytes × List K))
      → indexed t k (unlink k' t' rev) ≡ (indexed t k rev && not (bytes_eq t' t && key.eqb k' k))
  unfolding unlink keys_of
  indexed-unlink t t' k k' rev = elim (Option-cases (keys_of t' rev)) [
    | inl absent ↦
        rw (absent, in_set)
          (elim (Bool-cases (bytes_eq t' t)) [
            | inl same ↦ rw (same, sym (keys_of-same t t' rev same) ∙ absent) (ground arith)
            | inr other ↦ rw other (ground arith)
          ])
    | inr (s, present) ↦
        rw (present, in_set)
          (indexed-keep_set t t' k (delete_key k' s) rev ∙ (elim (Bool-cases (bytes_eq t' t)) [
            | inl same ↦
                rw (same, sym (keys_of-same t t' rev same) ∙ present) (has_key-delete_key k k' s)
            | inr other ↦ rw other (ground arith)
          ]))
  ]

  -- Over the tables of an entry.
  pub indexed-link_all :
      (t : Bytes) (ts : List Bytes) (k k' : K) (rev : List (Bytes × List K))
      → indexed t k (link_all k' ts rev) ≡ (indexed t k rev || (has_table t ts && key.eqb k' k))
  unfolding link_all has_table
  indexed-link_all t [] k k' rev = ground arith
  indexed-link_all t (t' ∷ ts) k k' rev =
      indexed-link_all t ts k k' (link k' t' rev)
      ∙ ap (λ b. b || (has_table t ts && key.eqb k' k)) (indexed-link t t' k k' rev)
      ∙ (ground arith)

  pub indexed-unlink_all :
      (t : Bytes) (ts : List Bytes) (k k' : K) (rev : List (Bytes × List K))
      → indexed t k (unlink_all k' ts rev)
        ≡ (indexed t k rev && not (has_table t ts && key.eqb k' k))
  unfolding unlink_all has_table
  indexed-unlink_all t [] k k' rev = ground arith
  indexed-unlink_all t (t' ∷ ts) k k' rev =
      indexed-unlink_all t ts k k' (unlink k' t' rev)
      ∙ ap (λ b. b && not (has_table t ts && key.eqb k' k)) (indexed-unlink t t' k k' rev)
      ∙ (ground arith)
