-- ===== src/Router/Trie/Link.antt =====
-- How a segment of a pattern leads from one node of a trie to another, and what a new child of a
-- node changes, for `Insert` of modules/router/trie.go.
use web_spa.Base.{
  ℕ, ◌<◌, ◌≡◌, ◌≢◌, sym, ◌∙◌, [], ◌∷◌, ◌++◌, some, Bytes, get_elem?, set, arith, length,
  get_elem?-append_left, get_elem?-append_at, get_elem?-set_self, get_elem?-set_ne,
  get_elem?-lt_length, length-append,
}
use web_spa.Router.Trie.{Trie, TrieNode, Step, advance, failed, fault, literal_child}
use web_spa.Router.Trie.Extends.{Keeps, Extends, Extends-trans, Extends-set, Extends-append}

-- A segment that `Insert` takes as a literal.
abbrev pub IsPlain : Bytes → Type 0
IsPlain [] = ⊥
IsPlain (c ∷ seg) = (c ≢ b':') × (c ≢ b'*')

-- A segment of a pattern leads from one node to another.
pub data Link (t : Trie) : ℕ → Bytes → ℕ → Type 0 where
  to_literal :
      {i c : ℕ} {seg : Bytes} (node : TrieNode)
      → IsPlain seg
      → get_elem? t i ≡ some node
      → literal_child seg node ≡ some c
      → Link t i seg c
  to_param :
      {i c : ℕ} {seg : Bytes} (node child : TrieNode) (name : Bytes)
      → seg ≡ b':' ∷ name
      → get_elem? t i ≡ some node
      → c ≢ 0
      → node.param_child ≡ c
      → get_elem? t c ≡ some child
      → child.label ≡ name
      → Link t i seg c
  to_rest :
      {i c : ℕ} {seg : Bytes} (node child : TrieNode) (name : Bytes)
      → seg ≡ b'*' ∷ name
      → get_elem? t i ≡ some node
      → c ≢ 0
      → node.catch_all_child ≡ c
      → get_elem? t c ≡ some child
      → child.label ≡ name
      → Link t i seg c

pub Link-mono :
    (t t' : Trie) {i c : ℕ} {seg : Bytes} → Extends t t' → Link t i seg c → Link t' i seg c
Link-mono t t' ext (to_literal node plain e at_c) =
    let (n', e', k) = ext _ node e in to_literal n' plain e' (k.literals _ _ at_c)
Link-mono t t' ext (to_param node child name is_param e present at_c at_child label) =
    let (n', e', k) = ext _ node e in
    let (child', at_child', k') = ext _ child at_child in
    to_param n' child' name is_param e' present (k.param (λ z. present (sym at_c ∙ z)) ∙ at_c)
      at_child' (k'.label ∙ label)
Link-mono t t' ext (to_rest node child name is_rest e present at_c at_child label) =
    let (n', e', k) = ext _ node e in
    let (child', at_child', k') = ext _ child at_child in
    to_rest n' child' name is_rest e' present (k.catch_all (λ z. present (sym at_c ∙ z)) ∙ at_c)
      at_child' (k'.label ∙ label)

module _ (t : Trie) (cursor : ℕ) (node node' child : TrieNode)
    (at_node : get_elem? t cursor ≡ some node) where
  abbrev pub grown : Trie
  grown = set (t ++ child ∷ []) cursor node'

  pub in_range : cursor < length t
  in_range = get_elem?-lt_length t cursor at_node

  pub grown-Extends : Keeps node node' → Extends t grown
  grown-Extends keeps = Extends-trans t (t ++ child ∷ []) grown (Extends-append t child) (
      Extends-set (t ++ child ∷ []) cursor node node'
        (get_elem?-append_left t (child ∷ []) cursor in_range ∙ at_node) keeps)

  pub grown_at_cursor : get_elem? grown cursor ≡ some node'
  grown_at_cursor =
      get_elem?-set_self (t ++ child ∷ []) cursor node'
        (omega (arith, length-append t (child ∷ []), in_range))

  pub grown_at_child : get_elem? grown (length t) ≡ some child
  grown_at_child =
      get_elem?-set_ne (t ++ child ∷ []) cursor (length t) node' (λ e. ground (arith, in_range))
      ∙ get_elem?-append_at t child

-- What a step gives when it succeeds: the trie has grown, and the segment leads to the new cursor.
abbrev pub StepGives : (Trie → ℕ → Type 0) → Step ℕ → Type 0
StepGives P (advance t c) = P t c
StepGives P (failed t e) = Unit
StepGives P fault = Unit

abbrev pub Linked : Trie → ℕ → Bytes → Trie → ℕ → Type 0
Linked t cursor seg t' c = Extends t t' × Link t' cursor seg c
