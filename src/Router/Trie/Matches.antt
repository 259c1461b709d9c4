-- ===== src/Router/Trie/Matches.antt =====
-- Which routes of a trie a path matches, whatever the order in which `walk` of
-- modules/router/trie.go tries them.
use web_spa.Base.{ℕ, ◌<◌, ◌≡◌, ◌≢◌, List, [], ◌∷◌, some, Bytes, get_elem?}
use web_spa.Router.Trie.{Trie, TrieNode, Param, literal_child, join_slash}

-- `Matches t i segs caps r`: from node `i` the segments lead to a leaf with the `RouteIdx` `r`, and
-- capture `caps`.
pub data Matches (t : Trie) : ℕ → List Bytes → List Param → ℕ → Type 0 where
  leaf :
      {i r : ℕ} (node : TrieNode)
      → get_elem? t i ≡ some node
      → node.route_idx ≡ r
      → 0 < r
      → Matches t i [] [] r
  by_literal :
      {i r : ℕ} {seg : Bytes} {segs : List Bytes} {caps : List Param} (node : TrieNode) (c : ℕ)
      → get_elem? t i ≡ some node
      → literal_child seg node ≡ some c
      → Matches t c segs caps r
      → Matches t i (seg ∷ segs) caps r
  by_param :
      {i r : ℕ} {seg : Bytes} {segs : List Bytes} {caps : List Param} (node child : TrieNode)
      (c : ℕ) (later : List Param)
      → get_elem? t i ≡ some node
      → c ≢ 0
      → node.param_child ≡ c
      → get_elem? t c ≡ some child
      → caps ≡ record { name = child.label; value = seg } ∷ later
      → Matches t c segs later r
      → Matches t i (seg ∷ segs) caps r
  by_rest :
      {i r : ℕ} {segs : List Bytes} {caps : List Param} (node child : TrieNode) (c : ℕ)
      → get_elem? t i ≡ some node
      → c ≢ 0
      → node.catch_all_child ≡ c
      → get_elem? t c ≡ some child
      → caps ≡ record { name = child.label; value = join_slash segs } ∷ []
      → child.route_idx ≡ r
      → 0 < r
      → Matches t i segs caps r
