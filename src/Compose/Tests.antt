-- ===== src/Compose/Tests.antt =====
-- A page of cmd/main/holes.go with two holes: a query with two rows, and a template alone.
use web_spa.Base.{ℕ, ◌≡◌, refl, Bool, true, List, [], ◌∷◌, Option, some, Bytes, codes, arith}
use web_spa.Holes.{HoleRecord, parsed}
use web_spa.Router.Trie.{Param, new_trie}
use web_spa.Router.Manifest.{RouteEntry, Manifest, slice}
use web_spa.Compiler.{new_entry, new_v2_compiler}
use web_spa.Compose.{Row, page, compose_hole_body, holes_of}
use web_spa.Compose.Insertions.{inserted, page_of, compose_hole_body-inserted}

abbrev execute : Bytes → Row ℕ → Option Bytes
execute template row = some template

abbrev query : Bytes → List (Row ℕ) × Bool
query sql = ([] ∷ [] ∷ [], true)

abbrev any_template : Bytes → Bool
any_template s = true

abbrev manifest : Manifest
manifest = record {
  pointer = 1;
  table = [];
  payloads = codes "abcdef";
  paths = [];
  hole_blobs = [];
  middleware_blobs = [];
  mime_table = [];
  trie = new_trie;
}

abbrev entry : RouteEntry
entry = record (new_entry new_v2_compiler (codes "p") 0 1) {
  identity = record { head_id = 0; data_offset = 1; data_len = 4 };
}

abbrev holes : List HoleRecord
holes =
    record { position = 2; sql = codes "q"; template = codes "x"; tables = some [] }
    ∷ record { position = 4; sql = []; template = codes "y"; tables = some [] }
    ∷ []

abbrev bindings : List Param
bindings = record { name = codes "id"; value = codes "7" } ∷ []

body_at :
    slice manifest.payloads entry.identity.data_offset entry.identity.data_len ≡ some (codes "bcde")
unfolding slice new_entry
body_at = refl

holes_at : holes_of any_template [] (some holes) manifest entry ≡ some (parsed holes)
unfolding holes_of
holes_at = refl

two_holes :
    compose_hole_body execute query bindings any_template [] (some holes) manifest entry
    ≡ page (codes "bcxxdey")
unfolding compose_hole_body new_entry
two_holes = refl

compose_hole_body-inserted_example :
    compose_hole_body execute query bindings any_template [] (some holes) manifest entry
    ≡ page_of (inserted execute query bindings (codes "bcde") holes)
compose_hole_body-inserted_example =
    compose_hole_body-inserted execute query bindings any_template [] (some holes) manifest entry
      (codes "bcde") holes body_at holes_at (omega arith, (omega arith, omega arith))
