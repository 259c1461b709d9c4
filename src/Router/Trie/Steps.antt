-- ===== src/Router/Trie/Steps.antt =====
-- The three steps that `walk` of modules/router/trie.go tries at a node, and what each one finds.
use web_spa.Base.{
  ℕ, suc, ◌-◌, ◌<◌, ◌≡◌, ◌≢◌, refl, sym, ap, subst, ◌∙◌, List, [], ◌∷◌, ◌++◌, Option, none, some,
  Bytes, get_elem?, arith, Bool-cases, Option-cases, inl, inr, ◌⊎◌, ◌↔◌, append_assoc, length, ◌==◌,
  ltb, ==_iff, take-length, length-append, ◌>>=◌,
}
use mathlib.Core.Option.{some-injective, none-ne-some}
use web_spa.Router.Trie.{
  Trie, TrieNode, Param, Found, literal_child, drop_last, walk_rest, walk_param, walk_literal,
  or_else,
}
use web_spa.Router.Trie.Matches.{Matches}

-- An answer where the parameters were `ps`: a route that matches and what it captures, or no route
-- at all and the parameters as they were.
abbrev pub StepAnswer : (List Param → ℕ → Type 0) → List Param → Option ℕ × List Param → Type 0
StepAnswer Own ps (some r, ps') = (caps : List Param) × (ps' ≡ ps ++ caps) × Own caps (suc r)
StepAnswer Own ps (none, ps') = (ps' ≡ ps) × ((caps : List Param) (r : ℕ) → ¬ Own caps r)

drop_last-append : (ps : List Param) (p : Param) → drop_last (ps ++ p ∷ []) ≡ ps
drop_last-append ps p =
    let e : length (ps ++ p ∷ []) - 1 ≡ length ps = omega (arith, length-append ps (p ∷ [])) in
    rw e (take-length ps (p ∷ []))

-- The catch-all child of a node is a leaf that captures `value`.
pub record TakesRest (t : Trie) (node : TrieNode) (value : Bytes) (caps : List Param) (r : ℕ)
    : Type 0 where
  pub child : TrieNode
  pub present : node.catch_all_child ≢ 0
  pub at_child : get_elem? t node.catch_all_child ≡ some child
  pub is_leaf : 0 < child.route_idx
  pub route : r ≡ child.route_idx
  pub captured : caps ≡ record { name = child.label; value = value } ∷ []

-- What a walk returns satisfies `P`, unless it panics.
abbrev pub Ensures : (Option ℕ × List Param → Type 0) → Found → Type 0
Ensures P none = Unit
Ensures P (some r) = P r

pub walk_rest-StepAnswer :
    (t : Trie) (node : TrieNode) (value : Bytes) (ps : List Param)
    → Ensures (StepAnswer (TakesRest t node value) ps) (walk_rest t node value ps)
unfolding walk_rest
walk_rest-StepAnswer t node value ps = elim (Bool-cases (node.catch_all_child == 0)) [
  | inl absent ↦ rw absent (refl, λ caps r m. m.present ((==_iff _ _).0 absent))
  | inr present ↦ rw present (elim (Option-cases (get_elem? t node.catch_all_child)) [
    | inl out ↦ rw out tt
    | inr (child, at_child) ↦ rw at_child (elim (Bool-cases (ltb 0 child.route_idx)) [
      | inl is_leaf ↦ rw is_leaf (
        record { name = child.label; value = value } ∷ [],
        refl,
        record {
          child = child;
          present = ground arith;
          at_child = at_child;
          is_leaf = ground arith;
          route = ground arith;
          captured = refl;
        },
      )
      | inr inner ↦ rw inner (
        refl,
        λ caps r m.
            let same : m.child ≡ child = some-injective _ _ (sym m.at_child ∙ at_child) in
            absurd (ground arith),
      )
    ])
  ])
]

pub StepAnswer-map :
    (A B : List Param → ℕ → Type 0) (ps : List Param) (m : Found)
    → ((caps : List Param) (r : ℕ) → A caps r ↔ B caps r)
    → Ensures (StepAnswer A ps) m
    → Ensures (StepAnswer B ps) m
StepAnswer-map A B ps none iff h = tt
StepAnswer-map A B ps (some (some r, ps')) iff (caps, e, a) = (caps, e, (iff caps (suc r)).0 a)
StepAnswer-map A B ps (some (none, ps')) iff (e, k) = (e, λ caps r b. k caps r ((iff caps r).1 b))

pub or_else-StepAnswer :
    (A B : List Param → ℕ → Type 0) (ps : List Param) (m : Found) (next : List Param → Found)
    → Ensures (StepAnswer A ps) m
    → Ensures (StepAnswer B ps) (next ps)
    → Ensures (StepAnswer (λ caps r. A caps r ⊎ B caps r) ps) (or_else m next)
or_else-StepAnswer A B ps none next a b = tt
or_else-StepAnswer A B ps (some (some r, ps')) next (caps, e, a) b = (caps, e, inl a)
or_else-StepAnswer A B ps (some (none, ps')) next (e, never) b = rw e (go (next ps) b)
  where
    go :
        (m : Found)
        → Ensures (StepAnswer B ps) m
        → Ensures (StepAnswer (λ caps r. A caps r ⊎ B caps r) ps) m
    go none h = tt
    go (some (some r, qs)) (caps, e', h) = (caps, e', inr h)
    go (some (none, qs)) (e', h) =
        (e', λ caps r. elim [ inl x ↦ never caps r x | inr y ↦ h caps r y ])

module _ (t : Trie) (node : TrieNode) (seg : Bytes) (segs : List Bytes) where
  -- A match that goes on from the literal child.
  abbrev pub TakesLiteral : List Param → ℕ → Type 0
  TakesLiteral caps r = (c : ℕ) × (literal_child seg node ≡ some c) × Matches t c segs caps r

  -- A match that goes on from the param child.
  pub record TakesParam (caps : List Param) (r : ℕ) : Type 0 where
    pub child : TrieNode
    pub present : node.param_child ≢ 0
    pub at_child : get_elem? t node.param_child ≡ some child
    pub later : List Param
    pub captured : caps ≡ record { name = child.label; value = seg } ∷ later
    pub matched : Matches t node.param_child segs later r

module _ (t : Trie) (node : TrieNode) (seg : Bytes) (segs : List Bytes)
    (next : ℕ → List Param → Found)
    (ih : (c : ℕ) (ps : List Param) → Ensures (StepAnswer (Matches t c segs) ps) (next c ps)) where
  pub walk_literal-StepAnswer :
      (ps : List Param)
      → Ensures (StepAnswer (TakesLiteral t node seg segs) ps) (walk_literal next node seg ps)
  unfolding walk_literal
  walk_literal-StepAnswer ps = elim (Option-cases (literal_child seg node)) [
    | inl absent ↦ rw (absent, walk_literal) (refl, λ caps r m. none-ne-some m.0 (sym absent ∙ m.1))
    | inr (c, at_c) ↦
        rw (at_c, walk_literal)
          (StepAnswer-map (Matches t c segs) (TakesLiteral t node seg segs) ps (next c ps)
            (λ caps r. (
              λ m. (c, at_c, m),
              λ m. subst (λ d. Matches t d segs caps r) (some-injective _ _ (sym m.1 ∙ at_c)) m.2,
            ))
            (ih c ps))
  ]

  pub walk_param-StepAnswer :
      (ps : List Param)
      → Ensures (StepAnswer (TakesParam t node seg segs) ps) (walk_param t next node seg ps)
  unfolding walk_param
  walk_param-StepAnswer ps = elim (Bool-cases (node.param_child == 0)) [
    | inl absent ↦ rw absent (refl, λ caps r m. m.present ((==_iff _ _).0 absent))
    | inr present ↦ rw present (elim (Option-cases (get_elem? t node.param_child)) [
      | inl out ↦ rw out tt
      | inr (child, at_child) ↦
          let p : Param = record { name = child.label; value = seg } in
          rw at_child (
            answer child at_child (ground arith) (next node.param_child (ps ++ p ∷ []))
              (ih node.param_child (ps ++ p ∷ [])))
    ])
  ]
    where
      answer :
          (child : TrieNode)
          → get_elem? t node.param_child ≡ some child
          → node.param_child ≢ 0
          → (m : Found)
          → Ensures
              (StepAnswer
                (Matches t node.param_child segs)
                (ps ++ record { name = child.label; value = seg } ∷ []))
              m
          → Ensures
              (StepAnswer (TakesParam t node seg segs) ps)
              (m >>= λ r. elim (r.0) [ some route ↦ some r | none ↦ some (none, drop_last r.1) ])
      answer child at_child present none h = tt
      answer child at_child present (some (some r, ps')) (caps, e, m) = (
        record { name = child.label; value = seg } ∷ caps,
        e ∙ append_assoc ps (record { name = child.label; value = seg } ∷ []) caps,
        record {
          child = child;
          present = present;
          at_child = at_child;
          later = caps;
          captured = refl;
          matched = m;
        },
      )
      answer child at_child present (some (none, ps')) (e, never) =
          (ap drop_last e ∙ drop_last-append ps _, λ caps r m. never m.later r m.matched)
