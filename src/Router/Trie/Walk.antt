-- ===== src/Router/Trie/Walk.antt =====
-- `walk` and `Match` of modules/router/trie.go against the routes that a path matches.
use web_spa.Base.{
  ℕ, suc, ◌-◌, ◌<◌, ◌≡◌, ◌≢◌, refl, sym, ap, subst, ◌∙◌, false, List, [], ◌∷◌, some, Bytes,
  get_elem?, arith, Bool-cases, Option-cases, inl, inr, ◌⊎◌, append-nil, ltb,
}
use mathlib.Core.Option.{some-injective}
use web_spa.Router.Trie.{
  Trie, TrieNode, Param, literal_child, join_slash, walk_rest, walk_end, walk, match, split_path,
}
use web_spa.Router.Trie.Matches.{Matches, leaf, by_literal, by_param, by_rest}
use web_spa.Router.Trie.Steps.{
  StepAnswer, Ensures, TakesRest, TakesLiteral, TakesParam, walk_rest-StepAnswer, StepAnswer-map,
  or_else-StepAnswer, walk_literal-StepAnswer, walk_param-StepAnswer,
}

-- The matches of a node over a segment are those of its three steps.
abbrev Steps : Trie → TrieNode → Bytes → List Bytes → List Param → ℕ → Type 0
Steps t node seg segs caps r =
    TakesLiteral t node seg segs caps r
    ⊎ (TakesParam t node seg segs caps r ⊎ TakesRest t node (join_slash (seg ∷ segs)) caps r)

module _ (t : Trie) (i : ℕ) (node : TrieNode) (at_node : get_elem? t i ≡ some node) where
  same_node : {node' : TrieNode} → get_elem? t i ≡ some node' → node' ≡ node
  same_node e = some-injective _ _ (sym e ∙ at_node)

  Rest→Matches :
      (segs : List Bytes) (caps : List Param) (r : ℕ)
      → TakesRest t node (join_slash segs) caps r
      → Matches t i segs caps r
  Rest→Matches segs caps r p =
      by_rest node p.child node.catch_all_child at_node p.present refl p.at_child p.captured
        (sym p.route) (subst (λ n. 0 < n) (sym p.route) p.is_leaf)

  Steps→Matches :
      (seg : Bytes) (segs : List Bytes) (caps : List Param) (r : ℕ)
      → Steps t node seg segs caps r
      → Matches t i (seg ∷ segs) caps r
  Steps→Matches seg segs caps r (inl (c, at_c, m)) = by_literal node c at_node at_c m
  Steps→Matches seg segs caps r (inr (inl p)) =
      by_param node p.child node.param_child p.later at_node p.present refl p.at_child p.captured
        p.matched
  Steps→Matches seg segs caps r (inr (inr p)) = Rest→Matches (seg ∷ segs) caps r p

  Matches→Rest :
      (segs : List Bytes) (caps : List Param) (r : ℕ) (node' child : TrieNode) (c : ℕ)
      → get_elem? t i ≡ some node'
      → c ≢ 0
      → node'.catch_all_child ≡ c
      → get_elem? t c ≡ some child
      → caps ≡ record { name = child.label; value = join_slash segs } ∷ []
      → child.route_idx ≡ r
      → 0 < r
      → TakesRest t node (join_slash segs) caps r
  Matches→Rest segs caps r node' child c e present at_c at_child captured route is_leaf =
      let at_c' : node.catch_all_child ≡ c =
        ap (λ (n : TrieNode). n.catch_all_child) (sym (same_node e)) ∙ at_c in
      record {
        child = child;
        present = λ z. present (sym at_c' ∙ z);
        at_child = ap (get_elem? t) at_c' ∙ at_child;
        is_leaf = subst (λ n. 0 < n) (sym route) is_leaf;
        route = sym route;
        captured = captured;
      }

  Matches→Steps :
      (seg : Bytes) (segs : List Bytes) (caps : List Param) (r : ℕ)
      → Matches t i (seg ∷ segs) caps r
      → Steps t node seg segs caps r
  Matches→Steps seg segs caps r (by_literal node' c e at_c m) =
      inl (c, subst (λ n. literal_child seg n ≡ some c) (same_node e) at_c, m)
  Matches→Steps seg segs caps r (by_param node' child c later e present at_c at_child captured m) =
      let at_c' : node.param_child ≡ c =
        ap (λ (n : TrieNode). n.param_child) (sym (same_node e)) ∙ at_c in
      inr (
        inl (record {
          child = child;
          present = λ z. present (sym at_c' ∙ z);
          at_child = ap (get_elem? t) at_c' ∙ at_child;
          later = later;
          captured = captured;
          matched = subst (λ d. Matches t d segs later r) (sym at_c') m;
        }))
  Matches→Steps seg segs caps r
        (by_rest node' child c e present at_c at_child captured route is_leaf) =
      inr (
        inr (
          Matches→Rest (seg ∷ segs) caps r node' child c e present at_c at_child captured route
            is_leaf))

  -- At the end of the path.
  Ends : List Param → ℕ → Type 0
  Ends caps r = ((caps ≡ []) × (node.route_idx ≡ r) × (0 < r)) ⊎ TakesRest t node [] caps r

  Ends→Matches : (caps : List Param) (r : ℕ) → Ends caps r → Matches t i [] caps r
  unfolding Ends join_slash
  Ends→Matches caps r (inl (e, route, is_leaf)) =
      subst (λ cs. Matches t i [] cs r) (sym e) (leaf node at_node route is_leaf)
  Ends→Matches caps r (inr p) = Rest→Matches [] caps r p

  Matches→Ends : (caps : List Param) (r : ℕ) → Matches t i [] caps r → Ends caps r
  unfolding Ends join_slash
  Matches→Ends _ r (leaf node' e route is_leaf) =
      inl (refl, ap (λ (n : TrieNode). n.route_idx) (sym (same_node e)) ∙ route, is_leaf)
  Matches→Ends caps r (by_rest node' child c e present at_c at_child captured route is_leaf) =
      inr (Matches→Rest [] caps r node' child c e present at_c at_child captured route is_leaf)

  walk_end-StepAnswer :
      (ps : List Param) → Ensures (StepAnswer (Matches t i []) ps) (walk_end t node ps)
  unfolding walk_end Ends
  walk_end-StepAnswer ps = elim (Bool-cases (ltb 0 node.route_idx)) [
    | inl is_leaf ↦ rw is_leaf (
      [],
      sym (append-nil ps),
      Ends→Matches [] (suc (node.route_idx - 1)) (inl (refl, ground arith, ground arith)),
    )
    | inr inner ↦ rw inner (
        StepAnswer-map (TakesRest t node []) (Matches t i []) ps (walk_rest t node [] ps)
          (λ caps r.
            (λ p. Ends→Matches caps r (inr p), λ m. only inner caps r (Matches→Ends caps r m)))
          (walk_rest-StepAnswer t node [] ps))
  ]
    where
      only :
          ltb 0 node.route_idx ≡ false
          → (caps : List Param) (r : ℕ) → Ends caps r
          → TakesRest t node [] caps r
      only inner caps r (inl e) = absurd (ground arith)
      only inner caps r (inr p) = p

walk-StepAnswer :
    (t : Trie) (i : ℕ) (segs : List Bytes) (ps : List Param)
    → Ensures (StepAnswer (Matches t i segs) ps) (walk t i segs ps)
unfolding walk
walk-StepAnswer t i [] ps = elim (Option-cases (get_elem? t i)) [
  | inl out ↦ rw out tt
  | inr (node, at_node) ↦ rw at_node (walk_end-StepAnswer t i node at_node ps)
]
walk-StepAnswer t i (seg ∷ segs) ps = elim (Option-cases (get_elem? t i)) [
  | inl out ↦ rw out tt
  | inr (node, at_node) ↦ rw at_node (
      StepAnswer-map (Steps t node seg segs) (Matches t i (seg ∷ segs)) ps _
        (λ caps r. (
          Steps→Matches t i node at_node seg segs caps r,
          Matches→Steps t i node at_node seg segs caps r,
        ))
        (or_else-StepAnswer (TakesLiteral t node seg segs) _ ps _ _
          (walk_literal-StepAnswer t node seg segs (λ c qs. walk t c segs qs)
            (λ c qs. walk-StepAnswer t c segs qs) ps)
          (or_else-StepAnswer (TakesParam t node seg segs) _ ps _ _
            (walk_param-StepAnswer t node seg segs (λ c qs. walk t c segs qs)
              (λ c qs. walk-StepAnswer t c segs qs) ps)
            (walk_rest-StepAnswer t node (join_slash (seg ∷ segs)) ps))))
]

-- A match of a path that meets no index out of range returns a route that its segments lead to, with
-- what that way captures, or reports that there is no such route, with no parameter left behind by
-- the ways that it tried. A catch-all leads to its route with any rest of the segments, also none.
pub match-StepAnswer :
    (t : Trie) (path : Bytes)
    → Ensures (StepAnswer (Matches t 0 (split_path path)) []) (match t path)
unfolding match
match-StepAnswer t path = walk-StepAnswer t 0 (split_path path) []
