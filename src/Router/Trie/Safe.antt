-- ===== src/Router/Trie/Safe.antt =====
-- The indices of a trie of modules/router/trie.go: which of them are in range, and which maps can be
-- written.
use mathlib.Core.Option.{some-injective, none-ne-some}
use web_spa.Base.{
  ℕ, suc, zero, ◌<◌, ◌≡◌, ◌≢◌, refl, sym, subst, ◌∙◌, List, [], ◌∷◌, ◌++◌, some, Bytes, get_elem?,
  arith, Bool-cases, inl, inr, ◌⊎◌, length, ◌==◌, ==_iff, get_elem?-set_ne, get_elem?-lt_length,
  get_elem?_total,
}
use web_spa.Router.Trie.{Trie, TrieNode, NodeKind, literal_child, find_child, new_node, new_trie}
use web_spa.Router.Trie.Extends.{Keeps, Extends}
use web_spa.Router.Trie.Link.{grown, grown-Extends, grown_at_cursor}

-- There is a node, and its map of literal children can be written.
abbrev pub HasMap : Trie → ℕ → Type 0
HasMap t i =
    (n : TrieNode) × (m : List (Bytes × ℕ)) × (get_elem? t i ≡ some n)
    × (n.literal_children ≡ some m)

-- The children that a node names are there.
pub record NodeSafe (t : Trie) (n : TrieNode) : Type 0 where
  pub param : n.param_child ≢ 0 → HasMap t n.param_child
  pub catch_all : n.catch_all_child ≢ 0 → n.catch_all_child < length t
  pub literals : (seg : Bytes) (c : ℕ) → literal_child seg n ≡ some c → HasMap t c

pub record IsSafe (t : Trie) : Type 0 where
  pub root : HasMap t 0
  pub nodes : (i : ℕ) (n : TrieNode) → get_elem? t i ≡ some n → NodeSafe t n

pub HasMap-mono : (t t' : Trie) (i : ℕ) → Extends t t' → HasMap t i → HasMap t' i
HasMap-mono t t' i ext (n, m, e, at_m) =
    let (n', e', k) = ext i n e in let (m', at_m') = k.has_map m at_m in (n', m', e', at_m')

pub length_mono : (t t' : Trie) (i : ℕ) → Extends t t' → i < length t → i < length t'
length_mono t t' i ext h =
    let (n, e) = get_elem?_total t i h in get_elem?-lt_length t' i (ext i n e).1

pub NodeSafe-mono : (t t' : Trie) (n : TrieNode) → Extends t t' → NodeSafe t n → NodeSafe t' n
NodeSafe-mono t t' n ext s = record {
  param = λ present. HasMap-mono t t' _ ext (s.param present);
  catch_all = λ present. length_mono t t' _ ext (s.catch_all present);
  literals = λ seg c e. HasMap-mono t t' c ext (s.literals seg c e);
}

pub new_node-NodeSafe :
    (t : Trie) (kind : NodeKind) (label : Bytes) → NodeSafe t (new_node kind label)
unfolding find_child
new_node-NodeSafe t kind label = record {
  param = λ present. absurd (present refl);
  catch_all = λ present. absurd (present refl);
  literals = λ seg c e. absurd (none-ne-some c e);
}

pub new_trie-IsSafe : IsSafe new_trie
new_trie-IsSafe = record { root = (new_node NodeKind.literal [], [], refl, refl); nodes = only }
  where
    only : (i : ℕ) (n : TrieNode) → get_elem? new_trie i ≡ some n → NodeSafe new_trie n
    only zero n e =
        subst (NodeSafe new_trie) (some-injective _ _ e)
          (new_node-NodeSafe new_trie NodeKind.literal [])
    only (suc i) n e = absurd (none-ne-some n e)

module _ (t : Trie) (cursor : ℕ) (node node' child : TrieNode)
    (at_node : get_elem? t cursor ≡ some node) (keeps : Keeps node node') (safe : IsSafe t) where
  grown_cases :
      (i : ℕ) (n : TrieNode)
      → get_elem? (grown t cursor node node' child at_node) i ≡ some n
      → (n ≡ node') ⊎ ((get_elem? t i ≡ some n) ⊎ (n ≡ child))
  grown_cases i n e = elim (Bool-cases (cursor == i)) [
    | inl here ↦ inl (
        some-injective _ _ (
          sym e
          ∙ subst (λ j. get_elem? (grown t cursor node node' child at_node) j ≡ some node')
              ((==_iff cursor i).0 here) (grown_at_cursor t cursor node node' child at_node)))
    | inr there ↦ inr (
        tail_cases t i n
          (sym (get_elem?-set_ne (t ++ child ∷ []) cursor i node' (ground arith)) ∙ e))
  ]
    where
      tail_cases :
          (xs : Trie) (k : ℕ) (x : TrieNode)
          → get_elem? (xs ++ child ∷ []) k ≡ some x
          → (get_elem? xs k ≡ some x) ⊎ (x ≡ child)
      tail_cases [] zero x h = inr (some-injective _ _ (sym h))
      tail_cases [] (suc k) x h = absurd (none-ne-some x h)
      tail_cases (y ∷ xs) zero x h = inl h
      tail_cases (y ∷ xs) (suc k) x h = tail_cases xs k x h

  pub grown-IsSafe :
      NodeSafe (grown t cursor node node' child at_node) node'
      → NodeSafe (grown t cursor node node' child at_node) child
      → IsSafe (grown t cursor node node' child at_node)
  grown-IsSafe safe_node safe_child =
      let t' : Trie = grown t cursor node node' child at_node in
      let ext : Extends t t' = grown-Extends t cursor node node' child at_node keeps in
      record {
        root = HasMap-mono t t' 0 ext safe.root;
        nodes = λ i n e. elim (grown_cases i n e) [
          | inl same ↦ subst (NodeSafe t') (sym same) safe_node
          | inr (inl old) ↦ NodeSafe-mono t t' n ext (safe.nodes i n old)
          | inr (inr new) ↦ subst (NodeSafe t') (sym new) safe_child
        ];
      }
