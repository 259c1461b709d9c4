-- ===== src/Router/Trie/Pattern.antt =====
-- A pattern that `Insert` of modules/router/trie.go has accepted, and the paths that fit it.
use mathlib.Core.Option.{some-injective}
use web_spa.Base.{
  ℕ, suc, zero, ◌<◌, ◌≡◌, ◌≢◌, refl, sym, ap, subst, ◌∙◌, List, [], ◌∷◌, some, Bytes, get_elem?,
  set, arith, Bool-cases, Option-cases, inl, inr, ◌==◌, ==_iff, get_elem?-set_self,
  get_elem?-lt_length,
}
use web_spa.Router.Trie.{
  Trie, TrieNode, Param, Step, advance, failed, fault, join_slash, split_path, bind_step, is_empty,
  insert_seg, insert_segs, mark_leaf, insert,
}
use web_spa.Router.Trie.Matches.{Matches, leaf, by_literal, by_param, by_rest}
use web_spa.Router.Trie.Extends.{Extends, Extends-refl, Extends-trans, Extends-set, Matches-mono}
use web_spa.Router.Trie.Link.{IsPlain, Link, to_literal, to_param, to_rest, Link-mono, StepGives}
use web_spa.Router.Trie.Insert.{Reaches, SegGives, insert_seg-SegGives}

-- The segments of a pattern lead from `i` to `j`.
abbrev pub Chain : Trie → ℕ → List Bytes → ℕ → Type 0
Chain t i [] j = i ≡ j
Chain t i (seg ∷ segs) j = (k : ℕ) × Reaches t i seg k × Chain t k segs j

Reaches-mono :
    (t t' : Trie) (seg : Bytes) (i j : ℕ) → Extends t t' → Reaches t i seg j → Reaches t' i seg j
Reaches-mono t t' [] i j ext e = e
Reaches-mono t t' (c ∷ seg) i j ext l = Link-mono t t' ext l

Chain-mono :
    (t t' : Trie) (segs : List Bytes) (i j : ℕ)
    → Extends t t'
    → Chain t i segs j
    → Chain t' i segs j
Chain-mono t t' [] i j ext e = e
Chain-mono t t' (seg ∷ segs) i j ext (k, step, later) =
    (k, Reaches-mono t t' seg i k ext step, Chain-mono t t' segs k j ext later)

abbrev SegsGive : Trie → ℕ → List Bytes → Trie → ℕ → Type 0
SegsGive t cursor segs t' j = Extends t t' × Chain t' cursor segs j

insert_segs-SegsGive :
    (t : Trie) (cursor : ℕ) (segs : List Bytes)
    → StepGives (SegsGive t cursor segs) (insert_segs t cursor segs)
unfolding insert_segs
insert_segs-SegsGive t cursor [] = (Extends-refl t, refl)
insert_segs-SegsGive t cursor (seg ∷ segs) =
    go (insert_seg t cursor seg (is_empty segs)) (insert_seg-SegGives t cursor seg (is_empty segs))
      (λ t' k. insert_segs-SegsGive t' k segs)
  where
    join :
        (t' : Trie) (k : ℕ)
        → SegGives t cursor seg t' k
        → (m : Step ℕ) → StepGives (SegsGive t' k segs) m
        → StepGives (SegsGive t cursor (seg ∷ segs)) m
    join t' k (ext, step) (advance t'' j) (ext', later) =
        (Extends-trans t t' t'' ext ext', (k, Reaches-mono t' t'' seg cursor k ext' step, later))
    join t' k g (failed t'' e) h = tt
    join t' k g fault h = tt

    go :
        (m : Step ℕ)
        → StepGives (SegGives t cursor seg) m
        → ((t' : Trie) (k : ℕ) → StepGives (SegsGive t' k segs) (insert_segs t' k segs))
        → StepGives (SegsGive t cursor (seg ∷ segs)) (bind_step m λ t' k. insert_segs t' k segs)
    go (advance t' k) g ih = join t' k g (insert_segs t' k segs) (ih t' k)
    go (failed t' e) g ih = tt
    go fault g ih = tt

-- The segments of a path that fit a pattern, and what the pattern captures of them: a ":name"
-- captures one segment, a final "*name" all that is left, and empty segments of the pattern are
-- passed over.
pub data Fits : List Bytes → List Bytes → List Param → Type 0 where
  done : Fits [] [] []
  skip :
      {pattern segs : List Bytes} {caps : List Param}
      → Fits pattern segs caps
      → Fits ([] ∷ pattern) segs caps
  literal :
      {pattern segs : List Bytes} {caps : List Param} (c : ℕ) (seg : Bytes)
      → c ≢ b':'
      → c ≢ b'*'
      → Fits pattern segs caps
      → Fits ((c ∷ seg) ∷ pattern) ((c ∷ seg) ∷ segs) caps
  param :
      {pattern segs : List Bytes} {caps : List Param} (name seg key : Bytes)
      → key ≡ b':' ∷ name
      → Fits pattern segs caps
      → Fits (key ∷ pattern) (seg ∷ segs) (record { name = name; value = seg } ∷ caps)
  rest :
      {segs : List Bytes} (name key : Bytes)
      → key ≡ b'*' ∷ name
      → Fits (key ∷ []) segs (record { name = name; value = join_slash segs } ∷ [])

Reaches-Link :
    (t : Trie) (i k c : ℕ) (key seg : Bytes) → key ≡ c ∷ seg → Reaches t i key k → Link t i key k
Reaches-Link t i k c [] seg e h = absurd (ground arith)
Reaches-Link t i k c (d ∷ key) seg e h = h

plain-ne : (key seg : Bytes) (c : ℕ) → IsPlain key → key ≡ c ∷ seg → (c ≢ b':') × (c ≢ b'*')
plain-ne key seg c plain e = subst IsPlain e plain

module _ (t : Trie) (r : ℕ) {i k : ℕ} {key : Bytes} where
  literal-Matches :
      {segs : List Bytes} {caps : List Param}
      → IsPlain key
      → Link t i key k
      → Matches t k segs caps r
      → Matches t i (key ∷ segs) caps r
  literal-Matches plain (to_literal node _ e at_c) m = by_literal node k e at_c m
  literal-Matches plain (to_param _ _ name is_param _ _ _ _ _) m =
      absurd ((plain-ne key name b':' plain is_param).0 refl)
  literal-Matches plain (to_rest _ _ name is_rest _ _ _ _ _) m =
      absurd ((plain-ne key name b'*' plain is_rest).1 refl)

  param-Matches :
      {segs : List Bytes} {caps : List Param} (name seg : Bytes)
      → key ≡ b':' ∷ name
      → Link t i key k
      → Matches t k segs caps r
      → Matches t i (seg ∷ segs) (record { name = name; value = seg } ∷ caps) r
  param-Matches name seg is_key (to_literal _ plain _ _) m =
      absurd ((plain-ne key name b':' plain is_key).0 refl)
  param-Matches {caps = caps} name seg is_key
        (to_param node child name' is_param e present at_c at_child label) m =
      by_param node child k caps e present at_c at_child
        (ap (λ l. record { name = l; value = seg } ∷ caps) (ground arith)) m
  param-Matches name seg is_key (to_rest _ _ name' is_rest _ _ _ _ _) m = absurd (ground arith)

  rest-Matches :
      {segs : List Bytes} (name : Bytes) (leaf_node : TrieNode)
      → key ≡ b'*' ∷ name
      → Link t i key k
      → get_elem? t k ≡ some leaf_node
      → leaf_node.route_idx ≡ r
      → 0 < r
      → Matches t i segs (record { name = name; value = join_slash segs } ∷ []) r
  rest-Matches name leaf_node is_key (to_literal _ plain _ _) at_leaf route is_leaf =
      absurd ((plain-ne key name b'*' plain is_key).1 refl)
  rest-Matches name leaf_node is_key (to_param _ _ name' is_param _ _ _ _ _) at_leaf route is_leaf =
      absurd (ground arith)
  rest-Matches {segs = segs} name leaf_node is_key
        (to_rest node child name' is_rest e present at_c at_child label) at_leaf route is_leaf =
      let same : leaf_node ≡ child = some-injective _ _ (sym at_leaf ∙ at_child) in
      by_rest node child k e present at_c at_child
        (ap (λ l. record { name = l; value = join_slash segs } ∷ []) (ground arith))
        (ap (λ (n : TrieNode). n.route_idx) (sym same) ∙ route) is_leaf

module _ (t : Trie) (j r : ℕ) (node : TrieNode) (at_node : get_elem? t j ≡ some node)
    (route : node.route_idx ≡ r) (is_leaf : 0 < r) where
  Chain-Matches :
      (pattern segs : List Bytes) (caps : List Param) (i : ℕ)
      → Fits pattern segs caps
      → Chain t i pattern j
      → Matches t i segs caps r
  Chain-Matches _ _ _ i done e = leaf node (ap (get_elem? t) e ∙ at_node) route is_leaf
  Chain-Matches _ segs caps i (skip {pattern = pattern} fits) (k, e, later) =
      subst (λ n. Matches t n segs caps r) (sym e) (Chain-Matches pattern segs caps k fits later)
  Chain-Matches _ _ caps i (literal {pattern = pattern} {segs = segs} c seg no_colon no_star fits)
        (k, link, later) =
      literal-Matches t r (no_colon, no_star) link (Chain-Matches pattern segs caps k fits later)
  Chain-Matches _ _ _ i
        (param {pattern = pattern} {segs = segs} {caps = caps} name seg key is_param fits)
        (k, step, later) =
      param-Matches t r name seg is_param (Reaches-Link t i k b':' key name is_param step)
        (Chain-Matches pattern segs caps k fits later)
  Chain-Matches _ segs _ i (rest name key is_rest) (k, step, ends) =
      rest-Matches t r name node is_rest (Reaches-Link t i k b'*' key name is_rest step)
        (ap (get_elem? t) ends ∙ at_node) route is_leaf

mark_leaf-Extends :
    (t : Trie) (cursor n : ℕ) (t' : Trie)
    → mark_leaf t cursor (suc n) ≡ advance t' tt
    → Extends t t'
      × (node : TrieNode) × (get_elem? t' cursor ≡ some node)
      × (node.route_idx ≡ suc n)
unfolding mark_leaf
mark_leaf-Extends t cursor n t' h = elim (Option-cases (get_elem? t cursor)) [
  | inl out ↦ absurd (ground arith)
  | inr (node, at_node) ↦ elim (Bool-cases (node.route_idx == 0)) [
    | inr used ↦ absurd (ground arith)
    | inl free ↦
        let marked : TrieNode = record node { route_idx = suc n } in
        let result : t' ≡ set t cursor marked = ground arith in
        rw result (
          Extends-set t cursor node marked at_node (record {
            has_map = λ m e. (m, e);
            literals = λ seg d e. e;
            label = refl;
            param = λ _. refl;
            catch_all = λ _. refl;
            route = λ present. absurd (present ((==_iff _ _).0 free));
          }),
          marked,
          get_elem?-set_self t cursor marked (get_elem?-lt_length t cursor at_node),
          refl,
        )
  ]
]

bind_step-eq-advance :
    {A B : Type 0} (m : Step A) (f : Trie → A → Step B) (t' : Trie) (b : B)
    → bind_step m f ≡ advance t' b
    → (t : Trie) × (a : A) × (m ≡ advance t a) × (f t a ≡ advance t' b)
bind_step-eq-advance (advance t a) f t' b h = (t, a, refl, h)
bind_step-eq-advance (failed t e) f t' b h = absurd (ground arith)
bind_step-eq-advance fault f t' b h = absurd (ground arith)

insert-cases :
    (t : Trie) (pattern : Bytes) (route_idx : ℕ) (t' : Trie)
    → insert t pattern route_idx ≡ advance t' tt
    → Extends t t'
      × ((segs : List Bytes) (caps : List Param)
          → Fits (split_path pattern) segs caps
          → Matches t' 0 segs caps route_idx)
unfolding insert
insert-cases t pattern zero t' h = absurd (ground arith)
insert-cases t pattern (suc n) t' h =
    let (t₁, cursor, walked, marked) =
      bind_step-eq-advance (insert_segs t 0 (split_path pattern)) _ t' tt h in
    let (ext, chain) =
      subst (StepGives (SegsGive t 0 (split_path pattern))) walked
        (insert_segs-SegsGive t 0 (split_path pattern)) in
    let (ext', node, at_node, route) = mark_leaf-Extends t₁ cursor n t' marked in
    (
      Extends-trans t t₁ t' ext ext',
      λ segs caps fits.
          Chain-Matches t' cursor (suc n) node at_node route (omega arith) (split_path pattern) segs
            caps 0 fits (Chain-mono t₁ t' (split_path pattern) 0 cursor ext' chain),
    )

-- Once a pattern is inserted, every path that fits it reaches its route, with the captures that the
-- pattern names. A final catch-all fits any rest of the path, also an empty one.
pub insert-Fits :
    (t t' : Trie) (pattern : Bytes) (route_idx : ℕ) (segs : List Bytes) (caps : List Param)
    → insert t pattern route_idx ≡ advance t' tt
    → Fits (split_path pattern) segs caps
    → Matches t' 0 segs caps route_idx
insert-Fits t t' pattern route_idx segs caps h fits =
    (insert-cases t pattern route_idx t' h).1 segs caps fits

-- An insertion takes no route away: what a path matched before, it matches after, with the same
-- captures.
pub insert-Matches :
    (t t' : Trie) (pattern : Bytes) (route_idx : ℕ) (segs : List Bytes) (caps : List Param) (r : ℕ)
    → insert t pattern route_idx ≡ advance t' tt
    → Matches t 0 segs caps r
    → Matches t' 0 segs caps r
insert-Matches t t' pattern route_idx segs caps r h m =
    Matches-mono t t' (insert-cases t pattern route_idx t' h).0 m
