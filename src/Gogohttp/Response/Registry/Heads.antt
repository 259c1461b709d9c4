-- ===== src/Gogohttp/Response/Registry/Heads.antt =====
-- `AddMimeWithEncoding` of modules/gogohttp/sugar.go: the ids that it hands out, against the heads that
-- the registry holds at them.
use web_spa.Base.{
  ℕ, suc, ◌+◌, ◌<◌, ◌^◌, ◌≡◌, refl, sym, ap, subst, ◌∙◌, [], ◌∷◌, ◌++◌, none, some, Bytes, bytes_eq,
  bytes_eq_refl, bytes_eq→eq, get_elem?, length, drop, take-length, get_elem?-append_left,
  get_elem?-append_at, get_elem?-lt_length, Bool-cases, Option-cases, inl, inr, arith,
}
use web_spa.Gogohttp.Types.{index_byte}
use web_spa.Gogohttp.Response.{registered}
use web_spa.Gogohttp.Response.Registry.{
  RegistryBuilder, id_of, mime_key, mime_head, add_mime_with_encoding, split_mime_key,
  new_registry_builder, next_id, add_new,
}

-- The head that belongs to a key of the map.
abbrev pub key_head : Bytes → Bytes
key_head key = mime_head (split_mime_key key).0 (split_mime_key key).1

-- The id of each key leads to the head of that key.
abbrev pub IsRegistered : RegistryBuilder → Type 0
IsRegistered rb =
    (key : Bytes) (id : ℕ)
    → id_of rb.mime_ids key ≡ some id
    → get_elem? rb.entries id ≡ some (some (key_head key))

pub new_registry_builder-IsRegistered : IsRegistered new_registry_builder
unfolding new_registry_builder
new_registry_builder-IsRegistered key id h = absurd (ground arith)

index_byte-append :
    (a b : Bytes) (c : ℕ) → index_byte a c ≡ none → index_byte (a ++ c ∷ b) c ≡ some (length a)
unfolding index_byte
index_byte-append [] b c h = ground arith
index_byte-append (x ∷ a) b c h = ground (arith, index_byte-append a b c)

drop-length_past : (a b : Bytes) (c : ℕ) → drop (length a + 1) (a ++ c ∷ b) ≡ b
drop-length_past a b c = let e : length a + 1 ≡ suc (length a) = omega arith in rw e (past a)
  where
    past : (a : Bytes) → drop (suc (length a)) (a ++ c ∷ b) ≡ b
    past [] = refl
    past (x ∷ a) = past a

split_mime_key-mime_key :
    (mime encoding : Bytes)
    → index_byte mime b'|' ≡ none
    → split_mime_key (mime_key mime encoding) ≡ (mime, encoding)
unfolding split_mime_key
split_mime_key-mime_key mime [] h = rw (h, split_mime_key) refl
split_mime_key-mime_key mime (c ∷ encoding) h =
    rw (index_byte-append mime (c ∷ encoding) b'|' h, split_mime_key)
      (rw (take-length mime (b'|' ∷ c ∷ encoding), drop-length_past mime (c ∷ encoding) b'|') refl)

-- What a call leaves behind: the id leads to the head of the pair, the earlier heads are where they
-- were, the ids of the map are right, and the same call again returns the same id and adds nothing.
pub record IsAdded (mime encoding : Bytes) (rb : RegistryBuilder) (o : ℕ × RegistryBuilder)
    : Type 0 where
  pub leads : registered o.1.entries o.0 ≡ some (mime_head mime encoding)
  pub keeps : (j : ℕ) → j < length rb.entries → get_elem? o.1.entries j ≡ get_elem? rb.entries j
  pub right : IsRegistered o.1
  pub again : add_mime_with_encoding mime encoding o.1 ≡ (o.0, o.1)

some_inj : {a b : ℕ} → some a ≡ some b → a ≡ b
some_inj h = cc h

module _ (mime encoding : Bytes) (rb : RegistryBuilder) (plain : index_byte mime b'|' ≡ none)
    (valid : IsRegistered rb) where
  known :
      (id : ℕ)
      → id_of rb.mime_ids (mime_key mime encoding) ≡ some id
      → IsAdded mime encoding rb (id, rb)
  unfolding add_mime_with_encoding
  known id found = record {
    leads =
        rw (valid (mime_key mime encoding) id found, registered)
          (ap some (rw (split_mime_key-mime_key mime encoding plain) refl));
    keeps = λ j h. refl;
    right = valid;
    again = rw found refl;
  }

  next_id_lem : length rb.entries < 2 ^ 16 → next_id rb ≡ length rb.entries
  next_id_lem room = omega arith

  head_at_end :
      length rb.entries < 2 ^ 16
      → get_elem? (rb.entries ++ some (mime_head mime encoding) ∷ []) (next_id rb)
        ≡ some (some (mime_head mime encoding))
  head_at_end room = rw (next_id_lem room) (get_elem?-append_at rb.entries _)

  abbrev grown : RegistryBuilder
  grown = (add_new mime encoding rb none).1

  grown-IsRegistered : length rb.entries < 2 ^ 16 → IsRegistered grown
  grown-IsRegistered room key id h = elim (Bool-cases (bytes_eq (mime_key mime encoding) key)) [
    | inl same ↦
        let e : key ≡ mime_key mime encoding = sym (bytes_eq→eq _ _ same) in
        let at_end : some (next_id rb) ≡ some id = rw same at h in
        subst (λ j. get_elem? grown.entries j ≡ some (some (key_head key))) (some_inj at_end)
          (head_at_end room ∙ (rw (e, split_mime_key-mime_key mime encoding plain) refl))
    | inr other ↦
        let before = valid key id (rw other at h) in
        get_elem?-append_left rb.entries _ id (get_elem?-lt_length rb.entries id before) ∙ before
  ]

  fresh : length rb.entries < 2 ^ 16 → IsAdded mime encoding rb (next_id rb, grown)
  unfolding add_mime_with_encoding
  fresh room = record {
    leads = rw (head_at_end room, registered) refl;
    keeps = λ j h. get_elem?-append_left rb.entries _ j h;
    right = grown-IsRegistered room;
    again = rw (bytes_eq_refl (mime_key mime encoding)) refl;
  }

  -- As long as fewer than 2 ^ 16 heads are there, and the mime type holds no '|', a call of
  -- AddMimeWithEncoding on a builder whose ids are right leaves it so.
  pub add_mime_with_encoding-IsAdded :
      length rb.entries < 2 ^ 16
      → IsAdded mime encoding rb (add_mime_with_encoding mime encoding rb)
  unfolding add_mime_with_encoding
  add_mime_with_encoding-IsAdded room =
      elim (Option-cases (id_of rb.mime_ids (mime_key mime encoding))) [
        | inl missing ↦ rw missing (fresh room)
        | inr (id, found) ↦ rw found (known id found)
      ]
