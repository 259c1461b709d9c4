-- ===== src/Dispatch/Loading/Remap.antt =====
-- `remap` in `loadState` of cmd/main/main.go: the head of a variant in the common registry.
use web_spa.Base.{
  ℕ, zero, suc, ◌+◌, ◌≤◌, ◌<◌, ◌^◌, ◌≡◌, refl, ap, ◌∙◌, List, [], ◌∷◌, Option, none, some, Bytes,
  get_elem?, length, take, length-append, get_elem?-lt_length, get_elem?_total, arith, Option-cases,
  inl, inr,
}
use web_spa.Gogohttp.Types.{index_byte}
use web_spa.Gogohttp.Response.{registered}
use web_spa.Gogohttp.Response.Registry.{
  RegistryBuilder, id_of, mime_key, add_mime_with_encoding, split_mime_key,
}
use web_spa.Gogohttp.Response.Registry.Heads.{
  IsRegistered, key_head, IsAdded, add_mime_with_encoding-IsAdded,
}
use web_spa.Dispatch.Loading.{mime_remap}

index_byte-take : (s : Bytes) (c i : ℕ) → index_byte s c ≡ some i → index_byte (take i s) c ≡ none
unfolding index_byte
index_byte-take [] c i h = absurd (ground arith)
index_byte-take (x ∷ s) c zero h = refl
index_byte-take (x ∷ s) c (suc i) h = ground (arith, index_byte-take s c i)

split_mime_key-plain : (key : Bytes) → index_byte (split_mime_key key).0 b'|' ≡ none
unfolding split_mime_key
split_mime_key-plain key = elim (Option-cases (index_byte key b'|')) [
  | inl missing ↦ rw (missing, split_mime_key) missing
  | inr (i, found) ↦ rw (found, split_mime_key) (index_byte-take key b'|' i found)
]

length-add_mime_with_encoding :
    (mime encoding : Bytes) (rb : RegistryBuilder)
    → length (add_mime_with_encoding mime encoding rb).1.entries ≤ length rb.entries + 1
unfolding add_mime_with_encoding
length-add_mime_with_encoding mime encoding rb =
    elim (Option-cases (id_of rb.mime_ids (mime_key mime encoding))) [
      | inl missing ↦ rw missing (omega (arith, length-append {0} rb.entries))
      | inr (id, found) ↦ rw found (omega arith)
    ]

-- What one registry has, another has too at the same places.
abbrev pub Keeps : List (Option Bytes) → List (Option Bytes) → Type 0
Keeps es es' = (j : ℕ) → j < length es → get_elem? es' j ≡ get_elem? es j

registered-Keeps :
    (es es' : List (Option Bytes)) (id : ℕ) (h : Bytes)
    → Keeps es es'
    → registered es id ≡ some h
    → registered es' id ≡ some h
registered-Keeps es es' id h k e = elim (Option-cases (get_elem? es id)) [
  | inl missing ↦ absurd (ground arith)
  | inr (entry, found) ↦ rw (k id (get_elem?-lt_length es id found), registered) e
]

-- The ids of the keys lead to their heads, the earlier heads stay, and the ids of the map are right.
pub record IsRemapped (keys : List Bytes) (rb : RegistryBuilder) (o : List ℕ × RegistryBuilder)
    : Type 0 where
  pub leads :
      (i : ℕ) (key : Bytes)
      → get_elem? keys i ≡ some key
      → (id : ℕ) × (get_elem? o.0 i ≡ some id) × (registered o.1.entries id ≡ some (key_head key))
  pub keeps : Keeps rb.entries o.1.entries
  pub right : IsRegistered o.1

module _ (key : Bytes) (keys : List Bytes) (rb rb1 : RegistryBuilder) (id : ℕ)
    (o : List ℕ × RegistryBuilder)
    (a : IsAdded (split_mime_key key).0 (split_mime_key key).1 rb (id, rb1))
    (r : IsRemapped keys rb1 o) where
  longer : (j : ℕ) → j < length rb.entries → j < length rb1.entries
  longer j h =
      let (x, there) = get_elem?_total rb.entries j h in
      get_elem?-lt_length rb1.entries j (a.keeps j h ∙ there)

  IsRemapped-cons : IsRemapped (key ∷ keys) rb (id ∷ o.0, o.1)
  IsRemapped-cons = record {
    leads = heads;
    keeps = λ j h. r.keeps j (longer j h) ∙ a.keeps j h;
    right = r.right;
  }
    where
      heads :
          (i : ℕ) (k : Bytes)
          → get_elem? (key ∷ keys) i ≡ some k
          → (n : ℕ) × (get_elem? (id ∷ o.0) i ≡ some n)
            × (registered o.1.entries n ≡ some (key_head k))
      heads zero k e = (
        id,
        refl,
        registered-Keeps rb1.entries o.1.entries id (key_head k) r.keeps
            (a.leads ∙ ap (λ s. some (key_head s)) (key_is k e)),
      )
        where
          key_is : (k : Bytes) → some key ≡ some k → key ≡ k
          key_is k h = cc h
      heads (suc i) k e = r.leads i k e

-- The loop of `remap` over the mime keys of a manifest, on a builder whose ids are right and that has
-- room below 2 ^ 16: the new id of each key leads, in the registry that results, to the head with that
-- key's type and encoding; the heads that were there stay where they were; and the ids are right again.
pub mime_remap-IsRemapped :
    (keys : List Bytes) (rb : RegistryBuilder)
    → IsRegistered rb
    → length rb.entries + length keys ≤ 2 ^ 16
    → IsRemapped keys rb (mime_remap keys rb)
unfolding mime_remap
mime_remap-IsRemapped [] rb valid room = record {
  leads = λ i key e. absurd (no_key i key e);
  keeps = λ j h. refl;
  right = valid;
}
  where
    no_key : (i : ℕ) (key : Bytes) → get_elem? {A = Bytes} [] i ≡ some key → ⊥
    no_key i key e = ground arith
mime_remap-IsRemapped (key ∷ keys) rb valid room =
    let a =
      add_mime_with_encoding-IsAdded (split_mime_key key).0 (split_mime_key key).1 rb
        (split_mime_key-plain key) valid (omega arith) in
    IsRemapped-cons key keys rb _ _ _ a (
      mime_remap-IsRemapped keys _ a.right (
        omega (
          arith,
          length-add_mime_with_encoding (split_mime_key key).0 (split_mime_key key).1 rb,
          room,
        )))
