-- ===== src/Router/Trie.antt =====
-- modules/router/trie.go: route patterns, their insertion and the match of a request path.
pub mod Matches
pub mod Steps
pub mod Walk
pub mod Extends
pub mod Link
pub mod Insert
pub mod Pattern
pub mod Safe
pub mod SafeSteps
pub mod Total
use web_spa.Base.{
  ℕ, zero, suc, ◌+◌, ◌-◌, ◌≡◌, Bool, true, false, ◌||◌, List, [], ◌∷◌, ◌++◌, Option, none, some,
  Bytes, bytes_eq, ◌==◌, ltb, if◌then◌else◌, length, take, get_elem?, set, ◌>>=◌,
}

pub data NodeKind : Type 0 where
  literal param catch_all : NodeKind

-- `LiteralChildren` is `none` for a nil map, which can be read and not written.
pub record TrieNode : Type 0 where
  pub kind : NodeKind
  pub label : Bytes
  pub literal_children : Option (List (Bytes × ℕ))
  pub param_child : ℕ
  pub catch_all_child : ℕ
  pub route_idx : ℕ

-- The nodes; index 0 is the root.
abbrev pub Trie : Type 0
Trie = List TrieNode

pub record Param : Type 0 where
  pub name : Bytes
  pub value : Bytes

abbrev pub new_node : NodeKind → Bytes → TrieNode
new_node kind label = record {
  kind = kind;
  label = label;
  literal_children = some [];
  param_child = 0;
  catch_all_child = 0;
  route_idx = 0;
}

-- `NewTrie`.
abbrev pub new_trie : Trie
new_trie = new_node literal [] ∷ []

abbrev pub slash : ℕ
slash = b'/'

cons_head : ℕ → List Bytes → List Bytes
cons_head c [] = (c ∷ []) ∷ []
cons_head c (piece ∷ pieces) = (c ∷ piece) ∷ pieces

-- `strings.Split(path, "/")`.
unfoldable pub split_slash : Bytes → List Bytes
unfolding cons_head
split_slash [] = [] ∷ []
split_slash (c ∷ path) =
    if c == slash then [] ∷ split_slash path else cons_head c (split_slash path)

-- `strings.Join(segs, "/")`.
unfoldable pub join_slash : List Bytes → Bytes
join_slash [] = []
join_slash (seg ∷ []) = seg
join_slash (seg ∷ seg' ∷ segs) = seg ++ slash ∷ join_slash (seg' ∷ segs)

-- A path without its first byte if that is a slash.
abbrev pub strip_left : Bytes → Bytes
strip_left [] = []
strip_left (c ∷ path) = if c == slash then path else c ∷ path

-- A path without its last byte if that is a slash.
unfoldable pub strip_right : Bytes → Bytes
strip_right [] = []
strip_right (c ∷ []) = if c == slash then [] else c ∷ []
strip_right (c ∷ d ∷ path) = c ∷ strip_right (d ∷ path)

abbrev pieces_of : Bytes → List Bytes
pieces_of [] = []
pieces_of (c ∷ path) = split_slash (c ∷ path)

-- `splitPath`; "" and "/" come to nothing left to split.
unfoldable pub split_path : Bytes → List Bytes
unfolding split_slash strip_right
split_path path = pieces_of (strip_right (strip_left path))

-- The entry of a key in a map.
unfoldable pub find_child : Bytes → List (Bytes × ℕ) → Option ℕ
find_child seg [] = none
find_child seg ((key, child) ∷ m) = if bytes_eq key seg then some child else find_child seg m

-- `LiteralChildren[seg]`.
abbrev pub literal_child : Bytes → TrieNode → Option ℕ
literal_child seg node = elim (node.literal_children) [ none ↦ none | some m ↦ find_child seg m ]

pub data RouterError : Type 0 where
  bad_route_idx empty_param param_conflict catch_all_not_last empty_catch_all : RouterError
  catch_all_conflict duplicate_route : RouterError

-- A step of `Insert`: the nodes and a value, the nodes as they are when an error is returned, or a
-- run-time panic (an index out of range, a write to a nil map).
pub data Step (A : Type 0) : Type 0 where
  advance : Trie → A → Step A
  failed : Trie → RouterError → Step A
  fault : Step A

abbrev pub bind_step : {A B : Type 0} → Step A → (Trie → A → Step B) → Step B
bind_step (advance t a) f = f t a
bind_step (failed t e) f = failed t e
bind_step fault f = fault

-- `t.Nodes[i]`.
abbrev pub with_node : {B : Type 0} → Trie → ℕ → (TrieNode → Step B) → Step B
with_node t i f = elim (get_elem? t i) [ none ↦ fault | some node ↦ f node ]

-- `addNode`, then the store of the new index in the node at the cursor.
abbrev pub add_child : Trie → ℕ → TrieNode → TrieNode → Step ℕ
add_child t cursor node child = advance (set (t ++ child ∷ []) cursor node) (length t)

-- The step for a segment ":name".
unfoldable pub insert_param : Trie → ℕ → Bytes → Step ℕ
insert_param t cursor [] = failed t empty_param
insert_param t cursor (c ∷ name) = with_node t cursor λ node.
    if node.param_child == 0
    then add_child t cursor (record node { param_child = length t }) (new_node param (c ∷ name))
    else with_node t node.param_child λ existing.
      if bytes_eq existing.label (c ∷ name)
      then advance t node.param_child
      else failed t param_conflict

-- The step for a segment "*name", which must be the last one.
unfoldable pub insert_catch_all : Trie → ℕ → Bool → Bytes → Step ℕ
insert_catch_all t cursor false name = failed t catch_all_not_last
insert_catch_all t cursor true [] = failed t empty_catch_all
insert_catch_all t cursor true (c ∷ name) = with_node t cursor λ node.
    if node.catch_all_child == 0
    then add_child t cursor (record node { catch_all_child = length t })
        (record (new_node catch_all (c ∷ name)) { literal_children = none })
    else with_node t node.catch_all_child λ existing.
      if bytes_eq existing.label (c ∷ name)
      then advance t node.catch_all_child
      else failed t catch_all_conflict

-- The step for any other segment.
unfoldable pub insert_literal : Trie → ℕ → Bytes → Step ℕ
insert_literal t cursor seg = with_node t cursor λ node. elim (literal_child seg node) [
  | some child ↦ advance t child
  | none ↦ elim (node.literal_children) [
    | none ↦ fault
    | some m ↦
        add_child t cursor (record node { literal_children = some ((seg, length t) ∷ m) })
          (new_node literal seg)
  ]
]

-- One round of the loop of `Insert`.
unfoldable pub insert_seg : Trie → ℕ → Bytes → Bool → Step ℕ
unfolding insert_param insert_catch_all insert_literal
insert_seg t cursor [] is_last = advance t cursor
insert_seg t cursor (c ∷ seg) is_last =
    if c == b':'
    then insert_param t cursor seg
    else if c == b'*'
    then insert_catch_all t cursor is_last seg
    else insert_literal t cursor (c ∷ seg)

abbrev pub is_empty {ℓ} : {A : Type ℓ} → List A → Bool
is_empty [] = true
is_empty (x ∷ xs) = false

-- The loop of `Insert`: the cursor that it ends on.
unfoldable pub insert_segs : Trie → ℕ → List Bytes → Step ℕ
insert_segs t cursor [] = advance t cursor
insert_segs t cursor (seg ∷ segs) =
    bind_step (insert_seg t cursor seg (is_empty segs)) λ t' cursor'. insert_segs t' cursor' segs

-- The end of `Insert`: the leaf is marked.
unfoldable pub mark_leaf : Trie → ℕ → ℕ → Step (Unit {0})
mark_leaf t cursor route_idx = with_node t cursor λ node.
    if node.route_idx == 0
    then advance (set t cursor (record node { route_idx = route_idx })) tt
    else failed t duplicate_route

-- `Insert`.
unfoldable pub insert : Trie → Bytes → ℕ → Step (Unit {0})
insert t pattern zero = failed t bad_route_idx
insert t pattern (suc n) =
    bind_step (insert_segs t 0 (split_path pattern)) λ t' cursor. mark_leaf t' cursor (suc n)

-- What `walk` returns: the 0-based route or nothing for -1, and the parameters. `none` outside is a
-- panic.
abbrev pub Found : Type 0
Found = Option (Option ℕ × List Param)

-- `*params = (*params)[:len(*params)-1]`.
abbrev pub drop_last : List Param → List Param
drop_last params = take (length params - 1) params

-- The catch-all child takes `value`, if it is a leaf.
unfoldable pub walk_rest : Trie → TrieNode → Bytes → List Param → Found
walk_rest t node value params =
    if node.catch_all_child == 0
    then some (none, params)
    else get_elem? t node.catch_all_child >>= λ child.
        if ltb 0 child.route_idx
        then some (
          some (child.route_idx - 1),
          params ++ record { name = child.label; value = value } ∷ [],
        )
        else some (none, params)

-- `walk` at the end of the path.
unfoldable pub walk_end : Trie → TrieNode → List Param → Found
walk_end t node params =
    if ltb 0 node.route_idx
    then some (some (node.route_idx - 1), params)
    else walk_rest t node [] params

-- The second step of `walk`; `next` is the walk from a child over the segments that follow.
unfoldable pub walk_param : Trie → (ℕ → List Param → Found) → TrieNode → Bytes → List Param → Found
walk_param t next node seg params =
    if node.param_child == 0
    then some (none, params)
    else get_elem? t node.param_child >>= λ child.
        next node.param_child (params ++ record { name = child.label; value = seg } ∷ []) >>= λ r.
        elim (r.0) [ some route ↦ some r | none ↦ some (none, drop_last r.1) ]

-- A later step is made where the one before it found nothing.
abbrev pub or_else : Found → (List Param → Found) → Found
or_else found next = found >>= λ r. elim (r.0) [ some route ↦ some r | none ↦ next r.1 ]

-- The first step of `walk`.
unfoldable pub walk_literal : (ℕ → List Param → Found) → TrieNode → Bytes → List Param → Found
walk_literal next node seg params = elim (literal_child seg node) [
  | none ↦ some (none, params)
  | some child ↦ next child params
]

-- `walk` from the segment at `depth` on.
unfoldable pub walk : Trie → ℕ → List Bytes → List Param → Found
walk t i [] params = get_elem? t i >>= λ node. walk_end t node params
walk t i (seg ∷ segs) params = get_elem? t i >>= λ node.
    or_else (walk_literal (λ child ps. walk t child segs ps) node seg params) λ ps.
      or_else (walk_param t (λ child ps'. walk t child segs ps') node seg ps)
        λ ps'. walk_rest t node (join_slash (seg ∷ segs)) ps'

-- `Match`, with the parameters of a caller that has reset them.
unfoldable pub match : Trie → Bytes → Found
match t path = walk t 0 (split_path path) []
