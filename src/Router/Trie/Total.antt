-- ===== src/Router/Trie/Total.antt =====
-- Whether `Insert` and `Match` of modules/router/trie.go return, and what `Insert` leaves.
use mathlib.Core.Option.{some-injective}
use web_spa.Base.{
  ℕ, suc, zero, ◌<◌, ◌≡◌, refl, sym, subst, ◌∙◌, Bool, List, [], ◌∷◌, ◌++◌, Option, none, some,
  Bytes, get_elem?, set, arith, Bool-cases, Option-cases, inl, inr, length, ◌==◌, ==_iff, ltb,
  ◌>>=◌, get_elem?-set_self, get_elem?-set_ne, get_elem?_total,
}
use web_spa.Router.Trie.{
  Trie, TrieNode, Param, Found, Step, advance, failed, fault, literal_child, bind_step, is_empty,
  insert_seg, insert_segs, mark_leaf, insert, split_path, walk_rest, walk_end, walk_param,
  walk_literal, walk, or_else, match, drop_last,
}
use web_spa.Router.Trie.Extends.{Extends, Extends-set}
use web_spa.Router.Trie.Safe.{HasMap, NodeSafe, IsSafe, HasMap-mono, NodeSafe-mono}
use web_spa.Router.Trie.SafeSteps.{
  SafeStep, HasMap-lt, insert_param-SafeStep, insert_catch_all-SafeStep, insert_literal-SafeStep,
}

insert_seg-SafeStep :
    (t : Trie) (cursor : ℕ) (seg : Bytes) (is_last : Bool)
    → IsSafe t
    → HasMap t cursor
    → SafeStep is_last (insert_seg t cursor seg is_last)
unfolding insert_seg
insert_seg-SafeStep t cursor [] is_last safe has = (safe, HasMap-lt t cursor has, λ _. has)
insert_seg-SafeStep t cursor (c ∷ seg) is_last safe has = elim (Bool-cases (c == b':')) [
  | inl colon ↦ rw colon (insert_param-SafeStep t cursor safe has is_last seg)
  | inr no_colon ↦ elim (Bool-cases (c == b'*')) [
    | inl star ↦ rw (no_colon, star) (insert_catch_all-SafeStep t cursor safe has is_last seg)
    | inr no_star ↦
        rw (no_colon, no_star) (insert_literal-SafeStep t cursor safe has is_last (c ∷ seg))
  ]
]

-- A call of the loop or of `Insert` does not panic and leaves a safe trie, also where it fails.
abbrev pub SafeResult : {A : Type 0} → (Trie → A → Type 0) → Step A → Type 0
SafeResult P (advance t a) = IsSafe t × P t a
SafeResult P (failed t e) = IsSafe t
SafeResult P fault = ⊥

abbrev InRange : Trie → ℕ → Type 0
InRange t c = c < length t

-- `next` is the rest of the loop, which is empty after the last segment.
bind_seg-SafeResult :
    (segs : List Bytes) (m : Step ℕ)
    → SafeStep (is_empty segs) m
    → ((t : Trie) (c : ℕ) → IsSafe t → HasMap t c → SafeResult InRange (insert_segs t c segs))
    → SafeResult InRange (bind_step m λ t c. insert_segs t c segs)
unfolding insert_segs
bind_seg-SafeResult segs (failed t e) h next = h
bind_seg-SafeResult segs fault h next = h
bind_seg-SafeResult [] (advance t c) (safe, inside, has) next = (safe, inside)
bind_seg-SafeResult (seg ∷ segs) (advance t c) (safe, inside, has) next = next t c safe (has refl)

insert_segs-SafeResult :
    (t : Trie) (cursor : ℕ) (segs : List Bytes)
    → IsSafe t
    → HasMap t cursor
    → SafeResult InRange (insert_segs t cursor segs)
unfolding insert_segs
insert_segs-SafeResult t cursor [] safe has = (safe, HasMap-lt t cursor has)
insert_segs-SafeResult t cursor (seg ∷ segs) safe has =
    bind_seg-SafeResult segs (insert_seg t cursor seg (is_empty segs))
      (insert_seg-SafeStep t cursor seg (is_empty segs) safe has)
      (λ t' c safe' has'. insert_segs-SafeResult t' c segs safe' has')

mark_leaf-SafeResult :
    (t : Trie) (cursor n : ℕ)
    → IsSafe t
    → cursor < length t
    → SafeResult (λ _ _. Unit {0}) (mark_leaf t cursor n)
unfolding mark_leaf
mark_leaf-SafeResult t cursor n safe inside =
    let (node, at_node) = get_elem?_total t cursor inside in
    rw (at_node, SafeResult)
      (elim (Bool-cases (node.route_idx == 0)) [
        | inr used ↦ rw used safe
        | inl free ↦
            let marked : TrieNode = record node { route_idx = n } in
            let ext : Extends t (set t cursor marked) =
              Extends-set t cursor node marked at_node (record {
                has_map = λ m e. (m, e);
                literals = λ seg d e. e;
                label = refl;
                param = λ _. refl;
                catch_all = λ _. refl;
                route = λ present. absurd (present ((==_iff _ _).0 free));
              }) in
            let old : NodeSafe (set t cursor marked) node =
              NodeSafe-mono t (set t cursor marked) node ext (safe.nodes cursor node at_node) in
            rw free (
              record {
                root = HasMap-mono t (set t cursor marked) 0 ext safe.root;
                nodes = λ i x e. elim (Bool-cases (cursor == i)) [
                  | inl here ↦
                      subst (NodeSafe (set t cursor marked))
                        (some-injective _ _ (
                          sym (get_elem?-set_self t cursor marked inside)
                          ∙ subst (λ j. get_elem? (set t cursor marked) j ≡ some x)
                              (sym ((==_iff cursor i).0 here)) e))
                        (record {
                          param = old.param;
                          catch_all = old.catch_all;
                          literals = old.literals;
                        })
                  | inr there ↦
                      NodeSafe-mono t (set t cursor marked) x ext (
                        safe.nodes i x
                          (sym (get_elem?-set_ne t cursor i marked (ground arith)) ∙ e))
                ];
              },
              tt,
            )
      ])

-- Whatever the pattern, `Insert` on a safe trie returns without a panic, and the trie that it leaves
-- is safe, also where it reports an error.
pub insert-SafeResult :
    (t : Trie) (pattern : Bytes) (route_idx : ℕ)
    → IsSafe t
    → SafeResult (λ _ _. Unit {0}) (insert t pattern route_idx)
unfolding insert
insert-SafeResult t pattern zero safe = safe
insert-SafeResult t pattern (suc n) safe =
    go (insert_segs t 0 (split_path pattern))
      (insert_segs-SafeResult t 0 (split_path pattern) safe safe.root)
  where
    go :
        (m : Step ℕ)
        → SafeResult InRange m
        → SafeResult (λ _ _. Unit {0}) (bind_step m λ t' cursor. mark_leaf t' cursor (suc n))
    go (advance t' c) (safe', inside) = mark_leaf-SafeResult t' c (suc n) safe' inside
    go (failed t' e) h = h
    go fault h = h

-- A walk that does not panic.
abbrev IsTotal : Found → Type 0
IsTotal none = ⊥
IsTotal (some r) = Unit

walk_rest-IsTotal :
    (t : Trie) (node : TrieNode) (value : Bytes) (ps : List Param)
    → NodeSafe t node
    → IsTotal (walk_rest t node value ps)
unfolding walk_rest
walk_rest-IsTotal t node value ps safe = elim (Bool-cases (node.catch_all_child == 0)) [
  | inl absent ↦ rw absent tt
  | inr present ↦
      let (child, at_child) =
        get_elem?_total t node.catch_all_child (safe.catch_all (ground arith)) in
      rw (present, at_child)
        (elim (Bool-cases (ltb 0 child.route_idx)) [
          | inl is_leaf ↦ rw is_leaf tt
          | inr inner ↦ rw inner tt
        ])
]

or_else-IsTotal :
    (m : Found) (next : List Param → Found)
    → IsTotal m
    → ((ps : List Param) → IsTotal (next ps))
    → IsTotal (or_else m next)
or_else-IsTotal none next h k = h
or_else-IsTotal (some (some r, ps)) next h k = tt
or_else-IsTotal (some (none, ps)) next h k = k ps

module _ (t : Trie) (node : TrieNode) (node_safe : NodeSafe t node) (next : ℕ → List Param → Found)
    (total : (c : ℕ) (ps : List Param) → HasMap t c → IsTotal (next c ps)) where
  walk_literal-IsTotal : (seg : Bytes) (ps : List Param) → IsTotal (walk_literal next node seg ps)
  unfolding walk_literal
  walk_literal-IsTotal seg ps = elim (Option-cases (literal_child seg node)) [
    | inl absent ↦ rw (absent, IsTotal) tt
    | inr (c, at_c) ↦ rw (at_c, IsTotal) (total c ps (node_safe.literals seg c at_c))
  ]

  walk_param-IsTotal : (seg : Bytes) (ps : List Param) → IsTotal (walk_param t next node seg ps)
  unfolding walk_param
  walk_param-IsTotal seg ps = elim (Bool-cases (node.param_child == 0)) [
    | inl absent ↦ rw absent tt
    | inr present ↦
        let has : HasMap t node.param_child = node_safe.param (ground arith) in
        let (child, m, at_child, _) = has in
        rw (present, at_child)
          (dropped (next node.param_child (ps ++ record { name = child.label; value = seg } ∷ []))
            (total node.param_child (ps ++ record { name = child.label; value = seg } ∷ []) has))
  ]
    where
      dropped :
          (m : Found)
          → IsTotal m
          → IsTotal
              (m >>= λ r. elim (r.0) [ some route ↦ some r | none ↦ some (none, drop_last r.1) ])
      dropped none h = h
      dropped (some (some r, qs)) h = tt
      dropped (some (none, qs)) h = tt

walk-IsTotal :
    (t : Trie) (i : ℕ) (segs : List Bytes) (ps : List Param)
    → IsSafe t
    → HasMap t i
    → IsTotal (walk t i segs ps)
unfolding walk walk_end
walk-IsTotal t i [] ps safe (node, m, at_node, _) =
    rw (at_node, IsTotal)
      (elim (Bool-cases (ltb 0 node.route_idx)) [
        | inl is_leaf ↦ rw is_leaf tt
        | inr inner ↦ rw inner (walk_rest-IsTotal t node [] ps (safe.nodes i node at_node))
      ])
walk-IsTotal t i (seg ∷ segs) ps safe (node, m, at_node, _) =
    let node_safe : NodeSafe t node = safe.nodes i node at_node in
    let later = λ (c : ℕ) (qs : List Param) (has : HasMap t c). walk-IsTotal t c segs qs safe has in
    rw (at_node, IsTotal)
      (or_else-IsTotal _ _
        (walk_literal-IsTotal t node node_safe (λ c qs. walk t c segs qs) later seg ps)
        (λ qs.
          or_else-IsTotal _ _
            (walk_param-IsTotal t node node_safe (λ c qs'. walk t c segs qs') later seg qs)
            (λ qs'. walk_rest-IsTotal t node _ qs' node_safe)))

-- `Match` on a safe trie returns, whatever the path: no index is out of range.
pub match_total :
    (t : Trie) (path : Bytes) → IsSafe t → (r : Option ℕ × List Param) × (match t path ≡ some r)
unfolding match
match_total t path safe =
    go (walk t 0 (split_path path) []) (walk-IsTotal t 0 (split_path path) [] safe safe.root)
  where
    go : (m : Found) → IsTotal m → (r : Option ℕ × List Param) × (m ≡ some r)
    go none h = absurd h
    go (some r) h = (r, refl)
