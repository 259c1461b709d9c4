-- ===== src/Router/Trie/Extends.antt =====
-- How `Insert` of modules/router/trie.go changes the nodes of a trie.
use web_spa.Base.{
  ℕ, ◌≡◌, ◌≢◌, refl, sym, ap, subst, ◌∙◌, List, [], ◌∷◌, ◌++◌, some, Bytes, get_elem?, set, arith,
  Bool-cases, inl, inr, ◌==◌, get_elem?-append_left, get_elem?-set_self, get_elem?-set_ne,
  get_elem?-lt_length,
}
use mathlib.Core.Option.{some-injective}
use web_spa.Router.Trie.{Trie, TrieNode, Param, literal_child, join_slash}
use web_spa.Router.Trie.Matches.{Matches, leaf, by_literal, by_param, by_rest}

-- A node after a change: what was set stays.
pub record Keeps (n n' : TrieNode) : Type 0 where
  pub has_map :
      (m : List (Bytes × ℕ))
      → n.literal_children ≡ some m
      → (m' : List (Bytes × ℕ)) × (n'.literal_children ≡ some m')
  pub literals :
      (seg : Bytes) (c : ℕ) → literal_child seg n ≡ some c → literal_child seg n' ≡ some c
  pub label : n'.label ≡ n.label
  pub param : n.param_child ≢ 0 → n'.param_child ≡ n.param_child
  pub catch_all : n.catch_all_child ≢ 0 → n'.catch_all_child ≡ n.catch_all_child
  pub route : n.route_idx ≢ 0 → n'.route_idx ≡ n.route_idx

pub Keeps-refl : (n : TrieNode) → Keeps n n
Keeps-refl n = record {
  has_map = λ m e. (m, e);
  literals = λ seg c e. e;
  label = refl;
  param = λ _. refl;
  catch_all = λ _. refl;
  route = λ _. refl;
}

pub Keeps-trans : (a b c : TrieNode) → Keeps a b → Keeps b c → Keeps a c
Keeps-trans a b c k l = record {
  has_map = λ m e. l.has_map (k.has_map m e).0 (k.has_map m e).1;
  literals = λ seg d e. l.literals seg d (k.literals seg d e);
  label = l.label ∙ k.label;
  param = λ h. l.param (λ e. h (sym (k.param h) ∙ e)) ∙ k.param h;
  catch_all = λ h. l.catch_all (λ e. h (sym (k.catch_all h) ∙ e)) ∙ k.catch_all h;
  route = λ h. l.route (λ e. h (sym (k.route h) ∙ e)) ∙ k.route h;
}

-- Every node is still there, with what was set.
abbrev pub Extends : Trie → Trie → Type 0
Extends t t' =
    (i : ℕ) (n : TrieNode)
    → get_elem? t i ≡ some n
    → (n' : TrieNode) × (get_elem? t' i ≡ some n') × Keeps n n'

pub Extends-refl : (t : Trie) → Extends t t
Extends-refl t i n e = (n, e, Keeps-refl n)

pub Extends-trans : (a b c : Trie) → Extends a b → Extends b c → Extends a c
Extends-trans a b c p q i n e =
    let (n', e', k) = p i n e in
    let (n'', e'', k') = q i n' e' in (n'', e'', Keeps-trans n n' n'' k k')

-- A write that keeps what was set.
pub Extends-set :
    (t : Trie) (cursor : ℕ) (node node' : TrieNode)
    → get_elem? t cursor ≡ some node
    → Keeps node node'
    → Extends t (set t cursor node')
Extends-set t cursor node node' at_node keeps i n e = elim (Bool-cases (cursor == i)) [
  | inl here ↦
      let same : cursor ≡ i = ground arith in
      (
        node',
        subst (λ j. get_elem? (set t cursor node') j ≡ some node') same
            (get_elem?-set_self t cursor node' (get_elem?-lt_length t cursor at_node)),
        subst (λ m. Keeps m node')
            (some-injective _ _ (sym at_node ∙ subst (λ j. get_elem? t j ≡ some n) (sym same) e))
            keeps,
      )
  | inr there ↦ (n, get_elem?-set_ne t cursor i node' (ground arith) ∙ e, Keeps-refl n)
]

pub Extends-append : (t : Trie) (child : TrieNode) → Extends t (t ++ child ∷ [])
Extends-append t child i n e =
    (n, get_elem?-append_left t (child ∷ []) i (get_elem?-lt_length t i e) ∙ e, Keeps-refl n)

-- A path that a trie matches is matched by the tries that extend it, with the same captures.
pub Matches-mono :
    (t t' : Trie) {i : ℕ} {segs : List Bytes} {caps : List Param} {r : ℕ}
    → Extends t t'
    → Matches t i segs caps r
    → Matches t' i segs caps r
Matches-mono t t' ext (leaf node e route is_leaf) =
    let (n', e', k) = ext _ node e in
    leaf n' e' (k.route (λ z. absurd (ground arith)) ∙ route) is_leaf
Matches-mono t t' ext (by_literal node c e at_c m) =
    let (n', e', k) = ext _ node e in
    by_literal n' c e' (k.literals _ c at_c) (Matches-mono t t' ext m)
Matches-mono t t' ext (by_param {seg = seg} node child c later e present at_c at_child captured m) =
    let (n', e', k) = ext _ node e in
    let (child', at_child', k') = ext c child at_child in
    by_param n' child' c later e' present (k.param (λ z. present (sym at_c ∙ z)) ∙ at_c) at_child'
      (captured ∙ ap (λ l. record { name = l; value = seg } ∷ later) (sym k'.label))
      (Matches-mono t t' ext m)
Matches-mono t t' ext
      (by_rest {segs = segs} node child c e present at_c at_child captured route is_leaf) =
    let (n', e', k) = ext _ node e in
    let (child', at_child', k') = ext c child at_child in
    by_rest n' child' c e' present (k.catch_all (λ z. present (sym at_c ∙ z)) ∙ at_c) at_child'
      (captured ∙ ap (λ l. record { name = l; value = join_slash segs } ∷ []) (sym k'.label))
      (k'.route (λ z. absurd (ground arith)) ∙ route) is_leaf
