-- ===== src/Router/Tests.antt =====
-- The routes of modules/router on patterns and paths.
use web_spa.Base.{ℕ, ◌≡◌, refl, List, bytes_eq, codes, ◌∷◌, [], Option, some, arith}
use web_spa.Router.Trie.{
  Trie, Param, new_trie, insert, match, insert_segs, insert_seg, find_child, mark_leaf, split_path,
  Step, advance, failed, fault,
}
use web_spa.Router.Manifest.{Variant, RouteEntry}
use web_spa.Router.Manifest.Load.{Parts, build_trie, with_trie, load, write_parts}
use web_spa.Router.Manifest.Sections.{IsWritable, manifest_of, load-write_parts}
use web_spa.Router.Trie.Matches.{Matches}
use web_spa.Router.Trie.Steps.{Ensures, StepAnswer}
use web_spa.Router.Trie.Walk.{match-StepAnswer}
use web_spa.Router.Trie.Pattern.{Fits, insert-Fits, insert-Matches}
use web_spa.Router.Trie.Safe.{new_trie-IsSafe}
use web_spa.Router.Trie.Total.{SafeResult, insert-SafeResult, match_total}
use web_spa.Router.Methods.{with_head, parse_methods, allow_header_value}
use web_spa.Router.Methods.Masks.{parse_methods-allow_header_value}

-- What an insertion leaves.
abbrev trie_after : Step (Unit {0}) → Trie
trie_after (advance t u) = t
trie_after (failed t e) = t
trie_after fault = []

abbrev users : Trie
users = trie_after (insert new_trie (codes "/a/:id") 3)

abbrev two_routes : Trie
two_routes = trie_after (insert users (codes "/a/me") 4)

abbrev id_is_7 : List Param
id_is_7 = record { name = codes "id"; value = codes "7" } ∷ []

users_inserted : insert new_trie (codes "/a/:id") 3 ≡ advance users tt
unfolding insert insert_segs split_path insert_seg find_child mark_leaf
users_inserted = refl

me_inserted : insert users (codes "/a/me") 4 ≡ advance two_routes tt
unfolding insert insert_segs split_path insert_seg find_child mark_leaf bytes_eq
me_inserted = refl

id_Fits : Fits (split_path (codes "/a/:id")) (codes "a" ∷ codes "7" ∷ []) id_is_7
unfolding split_path
id_Fits =
    Fits.literal b'a' [] (ground arith) (ground arith)
      (Fits.param (codes "id") (codes "7") (codes ":id") refl Fits.done)

insert-Fits_example : Matches users 0 (codes "a" ∷ codes "7" ∷ []) id_is_7 3
insert-Fits_example =
    insert-Fits new_trie users (codes "/a/:id") 3 (codes "a" ∷ codes "7" ∷ []) id_is_7
      users_inserted id_Fits

insert-Matches_example : Matches two_routes 0 (codes "a" ∷ codes "7" ∷ []) id_is_7 3
insert-Matches_example =
    insert-Matches users two_routes (codes "/a/me") 4 (codes "a" ∷ codes "7" ∷ []) id_is_7 3
      me_inserted insert-Fits_example

match-StepAnswer_example :
    Ensures
      (StepAnswer (Matches new_trie 0 (split_path (codes "/a/b"))) [])
      (match new_trie (codes "/a/b"))
match-StepAnswer_example = match-StepAnswer new_trie (codes "/a/b")

insert-SafeResult_example : SafeResult (λ _ _. Unit {0}) (insert new_trie (codes "/a/:id") 3)
insert-SafeResult_example = insert-SafeResult new_trie (codes "/a/:id") 3 new_trie-IsSafe

match_total_example : (r : Option ℕ × List Param) × (match new_trie (codes "/a/b") ≡ some r)
match_total_example = match_total new_trie (codes "/a/b") new_trie-IsSafe

parse_methods-allow_header_value_example : parse_methods (allow_header_value 5) ≡ with_head 5
parse_methods-allow_header_value_example =
    parse_methods-allow_header_value 5 (omega arith) (omega arith)

abbrev no_variant : Variant
no_variant = record { head_id = 0; data_offset = 0; data_len = 0 }

abbrev home : RouteEntry
home = record {
  path_hash = 14695981039346656037;
  path_offset = 0;
  path_len = 5;
  action_id = 0;
  identity = record { head_id = 0; data_offset = 0; data_len = 2 };
  gzip = no_variant;
  brotli = no_variant;
  hole_offset = 0;
  methods = 3;
  mw_count = 0;
  mw_offset = 0;
}

abbrev parts : Parts
parts = record {
  nodes = home ∷ [];
  payloads = codes "hi";
  paths = codes "about";
  hole_blobs = [];
  mw_blobs = codes "m";
  mime_json = codes "[text]";
}

parts-IsWritable : IsWritable parts
parts-IsWritable = omega arith

load-write_parts_example :
    load (λ json. some (codes "text/html" ∷ [])) 1 (write_parts parts)
    ≡ with_trie
        (manifest_of parts parts-IsWritable 1 (codes "text/html" ∷ []))
        (build_trie parts.paths parts.nodes 0 new_trie)
load-write_parts_example =
    load-write_parts parts parts-IsWritable (λ json. some (codes "text/html" ∷ [])) 1
      (codes "text/html" ∷ []) refl
