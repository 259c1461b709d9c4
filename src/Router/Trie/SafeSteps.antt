-- ===== src/Router/Trie/SafeSteps.antt =====
-- The steps of `Insert` in modules/router/trie.go on a trie whose indices are in range.
use mathlib.Core.Option.{some-injective, none-ne-some}
use web_spa.Base.{
  ℕ, ◌<◌, ◌≡◌, refl, subst, ◌∙◌, Bool, true, false, [], ◌∷◌, none, some, Bytes, bytes_eq, arith,
  Bool-cases, Option-cases, inl, inr, length, ◌==◌, get_elem?-lt_length, get_elem?_total,
}
use web_spa.Router.Trie.{
  Trie, TrieNode, NodeKind, Step, advance, failed, fault, literal_child, find_child, new_node,
  insert_param, insert_catch_all, insert_literal,
}
use web_spa.Router.Trie.Extends.{Keeps, Extends}
use web_spa.Router.Trie.Link.{grown, grown-Extends, grown_at_child}
use web_spa.Router.Trie.Insert.{
  Keeps-param, Keeps-catch_all, Keeps-literal, literal_child-find_child,
}
use web_spa.Router.Trie.Safe.{
  HasMap, NodeSafe, IsSafe, NodeSafe-mono, new_node-NodeSafe, grown-IsSafe,
}

-- A step does not panic and leaves a safe trie, also where it returns an error. The new cursor is in
-- range, and its map can be written unless the segment was the last.
abbrev pub SafeStep : Bool → Step ℕ → Type 0
SafeStep is_last (advance t c) = IsSafe t × (c < length t) × (is_last ≡ false → HasMap t c)
SafeStep is_last (failed t e) = IsSafe t
SafeStep is_last fault = ⊥

pub HasMap-lt : (t : Trie) (i : ℕ) → HasMap t i → i < length t
HasMap-lt t i (n, m, e, at_m) = get_elem?-lt_length t i e

module _ (t : Trie) (cursor : ℕ) (safe : IsSafe t) (writable : HasMap t cursor) where
  pub insert_param-SafeStep :
      (is_last : Bool) (name : Bytes) → SafeStep is_last (insert_param t cursor name)
  unfolding insert_param
  insert_param-SafeStep is_last [] = safe
  insert_param-SafeStep is_last (c ∷ name) =
      let (node, m, at_node, at_m) = writable in
      rw (at_node, SafeStep)
        (elim (Bool-cases (node.param_child == 0)) [
          | inl absent ↦
              let node' : TrieNode = record node { param_child = length t } in
              let child : TrieNode = new_node NodeKind.param (c ∷ name) in
              let keeps : Keeps node node' = Keeps-param node (length t) absent in
              let t' : Trie = grown t cursor node node' child at_node in
              let ext : Extends t t' = grown-Extends t cursor node node' child at_node keeps in
              let has : HasMap t' (length t) =
                (child, [], grown_at_child t cursor node node' child at_node, refl) in
              let old : NodeSafe t' node =
                NodeSafe-mono t t' node ext (safe.nodes cursor node at_node) in
              rw absent (
                grown-IsSafe t cursor node node' child at_node keeps safe
                    (record {
                      param = λ _. has;
                      catch_all = old.catch_all;
                      literals = old.literals;
                    })
                    (new_node-NodeSafe t' NodeKind.param (c ∷ name)),
                HasMap-lt t' (length t) has,
                λ _. has,
              )
          | inr present ↦
              let at_child : HasMap t node.param_child =
                (safe.nodes cursor node at_node).param (ground arith) in
              let (existing, m', at_existing, _) = at_child in
              rw (present, at_existing)
                (elim (Bool-cases (bytes_eq existing.label (c ∷ name))) [
                  | inl same ↦ rw same (safe, HasMap-lt t node.param_child at_child, λ _. at_child)
                  | inr other ↦ rw other safe
                ])
        ])

  pub insert_catch_all-SafeStep :
      (is_last : Bool) (name : Bytes) → SafeStep is_last (insert_catch_all t cursor is_last name)
  unfolding insert_catch_all find_child
  insert_catch_all-SafeStep false name = safe
  insert_catch_all-SafeStep true [] = safe
  insert_catch_all-SafeStep true (c ∷ name) =
      let (node, m, at_node, at_m) = writable in
      rw (at_node, SafeStep)
        (elim (Bool-cases (node.catch_all_child == 0)) [
          | inl absent ↦
              let node' : TrieNode = record node { catch_all_child = length t } in
              let child : TrieNode = record (new_node NodeKind.catch_all (c ∷ name)) {
                literal_children = none;
              } in
              let keeps : Keeps node node' = Keeps-catch_all node (length t) absent in
              let t' : Trie = grown t cursor node node' child at_node in
              let ext : Extends t t' = grown-Extends t cursor node node' child at_node keeps in
              let here : length t < length t' =
                get_elem?-lt_length t' (length t)
                  (grown_at_child t cursor node node' child at_node) in
              let old : NodeSafe t' node =
                NodeSafe-mono t t' node ext (safe.nodes cursor node at_node) in
              rw absent (
                grown-IsSafe t cursor node node' child at_node keeps safe
                    (record { param = old.param; catch_all = λ _. here; literals = old.literals })
                    (record {
                      param = λ present. absurd (present refl);
                      catch_all = λ present. absurd (present refl);
                      literals = λ seg d e. absurd (none-ne-some d e);
                    }),
                here,
                λ e. absurd (ground arith),
              )
          | inr present ↦
              let inside : node.catch_all_child < length t =
                (safe.nodes cursor node at_node).catch_all (ground arith) in
              let (existing, at_existing) = get_elem?_total t node.catch_all_child inside in
              rw (present, at_existing)
                (elim (Bool-cases (bytes_eq existing.label (c ∷ name))) [
                  | inl same ↦ rw same (safe, inside, λ e. absurd (ground arith))
                  | inr other ↦ rw other safe
                ])
        ])

  pub insert_literal-SafeStep :
      (is_last : Bool) (seg : Bytes) → SafeStep is_last (insert_literal t cursor seg)
  unfolding insert_literal find_child
  insert_literal-SafeStep is_last seg =
      let (node, m, at_node, at_m) = writable in
      rw (at_node, SafeStep)
        (elim (Option-cases (literal_child seg node)) [
          | inr (c, at_c) ↦
              let has : HasMap t c = (safe.nodes cursor node at_node).literals seg c at_c in
              rw at_c (safe, HasMap-lt t c has, λ _. has)
          | inl absent ↦
              let node' : TrieNode = record node {
                literal_children = some ((seg, length t) ∷ m);
              } in
              let child : TrieNode = new_node NodeKind.literal seg in
              let keeps : Keeps node node' = Keeps-literal node seg (length t) m at_m absent in
              let t' : Trie = grown t cursor node node' child at_node in
              let ext : Extends t t' = grown-Extends t cursor node node' child at_node keeps in
              let has : HasMap t' (length t) =
                (child, [], grown_at_child t cursor node node' child at_node, refl) in
              let old : NodeSafe t' node =
                NodeSafe-mono t t' node ext (safe.nodes cursor node at_node) in
              rw (absent, at_m)
                (
                  grown-IsSafe t cursor node node' child at_node keeps safe
                      (record {
                        param = old.param;
                        catch_all = old.catch_all;
                        literals = λ key d e. elim (Bool-cases (bytes_eq seg key)) [
                          | inl same ↦ subst (HasMap t') (some-injective _ _ (rw same at e)) has
                          | inr other ↦
                              old.literals key d
                                (literal_child-find_child key node m at_m ∙ (rw other at e))
                        ];
                      })
                      (new_node-NodeSafe t' NodeKind.literal seg),
                  HasMap-lt t' (length t) has,
                  λ _. has,
                )
        ])
