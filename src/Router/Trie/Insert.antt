-- ===== src/Router/Trie/Insert.antt =====
-- `Insert` of modules/router/trie.go: what a pattern adds to the trie.
use mathlib.Core.Option.{none-ne-some}
use web_spa.Base.{
  ℕ, ◌≡◌, refl, sym, ap, subst, ◌∙◌, Bool, true, false, List, [], ◌∷◌, Option, none, some, Bytes,
  bytes_eq, bytes_eq→eq, bytes_eq_refl, get_elem?, arith, Bool-cases, Option-cases, inl, inr,
  length, ◌==◌, ==_iff,
}
use web_spa.Router.Trie.{
  Trie, TrieNode, NodeKind, literal_child, find_child, new_node, insert_param, insert_catch_all,
  insert_literal, insert_seg,
}
use web_spa.Router.Trie.Extends.{Keeps, Extends, Extends-refl}
use web_spa.Router.Trie.Link.{
  IsPlain, Link, to_literal, to_param, to_rest, in_range, grown-Extends, grown_at_cursor,
  grown_at_child, StepGives, Linked,
}

-- A first child is added to a node.
pub Keeps-param :
    (node : TrieNode) (k : ℕ)
    → (node.param_child == 0) ≡ true
    → Keeps node (record node { param_child = k })
Keeps-param node k absent = record {
  has_map = λ m e. (m, e);
  literals = λ seg d e. e;
  label = refl;
  param = λ present. absurd (present ((==_iff _ _).0 absent));
  catch_all = λ _. refl;
  route = λ _. refl;
}

pub Keeps-catch_all :
    (node : TrieNode) (k : ℕ)
    → (node.catch_all_child == 0) ≡ true
    → Keeps node (record node { catch_all_child = k })
Keeps-catch_all node k absent = record {
  has_map = λ m e. (m, e);
  literals = λ seg d e. e;
  label = refl;
  param = λ _. refl;
  catch_all = λ present. absurd (present ((==_iff _ _).0 absent));
  route = λ _. refl;
}

find_child_self :
    (seg : Bytes) (c : ℕ) (m : List (Bytes × ℕ)) → find_child seg ((seg, c) ∷ m) ≡ some c
unfolding find_child
find_child_self seg c m = rw (bytes_eq_refl seg)

-- A new key hides no other.
find_child-new :
    (seg key : Bytes) (c d : ℕ) (m : List (Bytes × ℕ))
    → find_child seg m ≡ none
    → find_child key m ≡ some d
    → find_child key ((seg, c) ∷ m) ≡ some d
unfolding find_child
find_child-new seg key c d m absent e = elim (Bool-cases (bytes_eq seg key)) [
  | inl same ↦ absurd (
      none-ne-some d
        (sym absent ∙ subst (λ k. find_child k m ≡ some d) (sym (bytes_eq→eq seg key same)) e))
  | inr other ↦ rw other e
]

pub literal_child-find_child :
    (seg : Bytes) (node : TrieNode) (m : List (Bytes × ℕ))
    → node.literal_children ≡ some m
    → literal_child seg node ≡ find_child seg m
literal_child-find_child seg node m e =
    ap {A = Option (List (Bytes × ℕ))}
      (λ o. elim o as (λ x. Option ℕ) [ none ↦ none | some m' ↦ find_child seg m' ]) e

pub Keeps-literal :
    (node : TrieNode) (seg : Bytes) (k : ℕ) (m : List (Bytes × ℕ))
    → node.literal_children ≡ some m
    → literal_child seg node ≡ none
    → Keeps node (record node { literal_children = some ((seg, k) ∷ m) })
Keeps-literal node seg k m at_m absent = record {
  has_map = λ m' e. ((seg, k) ∷ m, refl);
  literals = λ key d e.
      find_child-new seg key k d m (sym (literal_child-find_child seg node m at_m) ∙ absent)
        (sym (literal_child-find_child key node m at_m) ∙ e);
  label = refl;
  param = λ _. refl;
  catch_all = λ _. refl;
  route = λ _. refl;
}

insert_param-Linked :
    (t : Trie) (cursor : ℕ) (name : Bytes)
    → StepGives (Linked t cursor (b':' ∷ name)) (insert_param t cursor name)
unfolding insert_param
insert_param-Linked t cursor [] = tt
insert_param-Linked t cursor (c ∷ name) = elim (Option-cases (get_elem? t cursor)) [
  | inl out ↦ rw (out, StepGives) tt
  | inr (node, at_node) ↦
      rw (at_node, StepGives)
        (elim (Bool-cases (node.param_child == 0)) [
          | inl absent ↦
              let node' : TrieNode = record node { param_child = length t } in
              let child : TrieNode = new_node NodeKind.param (c ∷ name) in
              rw absent (
                grown-Extends t cursor node node' child at_node
                    (Keeps-param node (length t) absent),
                to_param node' child (c ∷ name) refl
                    (grown_at_cursor t cursor node node' child at_node)
                    (ground (arith, in_range t cursor node node' child at_node)) refl
                    (grown_at_child t cursor node node' child at_node) refl,
              )
          | inr present ↦ rw present (elim (Option-cases (get_elem? t node.param_child)) [
            | inl out ↦ rw out tt
            | inr (existing, at_existing) ↦
                rw at_existing (elim (Bool-cases (bytes_eq existing.label (c ∷ name))) [
                  | inl same ↦ rw same (
                    Extends-refl t,
                    to_param node existing (c ∷ name) refl at_node (ground arith) refl at_existing
                        (bytes_eq→eq _ _ same),
                  )
                  | inr other ↦ rw other tt
                ])
          ])
        ])
]

insert_catch_all-Linked :
    (t : Trie) (cursor : ℕ) (is_last : Bool) (name : Bytes)
    → StepGives (Linked t cursor (b'*' ∷ name)) (insert_catch_all t cursor is_last name)
unfolding insert_catch_all
insert_catch_all-Linked t cursor false name = tt
insert_catch_all-Linked t cursor true [] = tt
insert_catch_all-Linked t cursor true (c ∷ name) = elim (Option-cases (get_elem? t cursor)) [
  | inl out ↦ rw (out, StepGives) tt
  | inr (node, at_node) ↦
      rw (at_node, StepGives)
        (elim (Bool-cases (node.catch_all_child == 0)) [
          | inl absent ↦
              let node' : TrieNode = record node { catch_all_child = length t } in
              let child : TrieNode = record (new_node NodeKind.catch_all (c ∷ name)) {
                literal_children = none;
              } in
              rw absent (
                grown-Extends t cursor node node' child at_node
                    (Keeps-catch_all node (length t) absent),
                to_rest node' child (c ∷ name) refl
                    (grown_at_cursor t cursor node node' child at_node)
                    (ground (arith, in_range t cursor node node' child at_node)) refl
                    (grown_at_child t cursor node node' child at_node) refl,
              )
          | inr present ↦ rw present (elim (Option-cases (get_elem? t node.catch_all_child)) [
            | inl out ↦ rw out tt
            | inr (existing, at_existing) ↦
                rw at_existing (elim (Bool-cases (bytes_eq existing.label (c ∷ name))) [
                  | inl same ↦ rw same (
                    Extends-refl t,
                    to_rest node existing (c ∷ name) refl at_node (ground arith) refl at_existing
                        (bytes_eq→eq _ _ same),
                  )
                  | inr other ↦ rw other tt
                ])
          ])
        ])
]

insert_literal-Linked :
    (t : Trie) (cursor : ℕ) (seg : Bytes)
    → IsPlain seg
    → StepGives (Linked t cursor seg) (insert_literal t cursor seg)
unfolding insert_literal
insert_literal-Linked t cursor seg plain = elim (Option-cases (get_elem? t cursor)) [
  | inl out ↦ rw (out, StepGives) tt
  | inr (node, at_node) ↦
      rw (at_node, StepGives)
        (elim (Option-cases (literal_child seg node)) [
          | inr (c, at_c) ↦ rw at_c (Extends-refl t, to_literal node plain at_node at_c)
          | inl absent ↦ rw absent (elim (Option-cases (node.literal_children)) [
            | inl nil ↦ rw nil tt
            | inr (m, at_m) ↦
                let node' : TrieNode = record node {
                  literal_children = some ((seg, length t) ∷ m);
                } in
                rw at_m (
                  grown-Extends t cursor node node' (new_node NodeKind.literal seg) at_node
                      (Keeps-literal node seg (length t) m at_m absent),
                  to_literal node' plain
                      (grown_at_cursor t cursor node node' (new_node NodeKind.literal seg) at_node)
                      (find_child_self seg (length t) m),
                )
          ])
        ])
]

-- A segment of a pattern is skipped if it is empty, and else leads to the new cursor.
abbrev pub Reaches : Trie → ℕ → Bytes → ℕ → Type 0
Reaches t i [] j = i ≡ j
Reaches t i (c ∷ seg) j = Link t i (c ∷ seg) j

abbrev pub SegGives : Trie → ℕ → Bytes → Trie → ℕ → Type 0
SegGives t cursor seg t' c = Extends t t' × Reaches t' cursor seg c

pub insert_seg-SegGives :
    (t : Trie) (cursor : ℕ) (seg : Bytes) (is_last : Bool)
    → StepGives (SegGives t cursor seg) (insert_seg t cursor seg is_last)
unfolding insert_seg
insert_seg-SegGives t cursor [] is_last = (Extends-refl t, refl)
insert_seg-SegGives t cursor (c ∷ seg) is_last = elim (Bool-cases (c == b':')) [
  | inl colon ↦ rw colon (
      subst (λ d. StepGives (Linked t cursor (d ∷ seg)) (insert_param t cursor seg))
        (sym ((==_iff c b':').0 colon)) (insert_param-Linked t cursor seg))
  | inr no_colon ↦ elim (Bool-cases (c == b'*')) [
    | inl star ↦
        rw (no_colon, star)
          (subst
            (λ d. StepGives (Linked t cursor (d ∷ seg)) (insert_catch_all t cursor is_last seg))
            (sym ((==_iff c b'*').0 star)) (insert_catch_all-Linked t cursor is_last seg))
    | inr no_star ↦
        rw (no_colon, no_star)
          (insert_literal-Linked t cursor (c ∷ seg) (ground arith, ground arith))
  ]
]
