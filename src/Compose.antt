-- ===== src/Compose.antt =====
-- `composeHoleBody` of cmd/main/holes.go: the page of a route with holes. The templates and the
-- database are parameters; the pool of buffers is left out.
pub mod Insertions
mod Tests
use web_spa.Base.{
  ℕ, zero, suc, ◌-◌, ◌⊎◌, inl, inr, Bool, true, false, ◌&&◌, List, [], ◌∷◌, ◌++◌, Option, none,
  some, Bytes, codes, bytes_eq, ltb, leb, if◌then◌else◌, length, take, drop,
}
use web_spa.Holes.{HoleRecord, Holes, parsed, invalid_blob, bad_template, Templates, read_holes}
use web_spa.Router.Trie.{Param}
use web_spa.Router.Manifest.{Variant, RouteEntry, Manifest, slice}

-- A write to a map.
unfoldable pub set_value : {A : Type 0} → Bytes → A → List (Bytes × A) → List (Bytes × A)
set_value k a [] = (k, a) ∷ []
set_value k a ((k', b) ∷ m) =
    let later = set_value k a m in if bytes_eq k k' then (k, a) ∷ m else (k', b) ∷ later

-- The loop that fills `paramsMap`.
unfoldable pub params_map : List (Bytes × Bytes) → List Param → List (Bytes × Bytes)
unfolding set_value
params_map m [] = m
params_map m (p ∷ bindings) = params_map (set_value p.name p.value m) bindings

-- The dot of a template: columns of a row, and the bindings.
abbrev pub Row : Type 0 → Type 0
Row V = List (Bytes × (V ⊎ List (Bytes × Bytes)))

unfoldable pub with_params : {V : Type 0} → List Param → Row V → Row V
unfolding set_value params_map
with_params [] row = row
with_params (p ∷ bindings) row =
    set_value (codes "_params") (inr (params_map [] (p ∷ bindings))) row

-- The page, an error, or a panic.
pub data Composed : Type 0 where
  page : Bytes → Composed
  render_error crashed : Composed

-- `body[from:to]`, where `body` has the bytes after it as capacity; `none` is a panic.
unfoldable pub body_piece : Bytes → ℕ → ℕ → Option Bytes
body_piece body from to =
    if leb from to && leb to (length body) then some (take (to - from) (drop from body)) else none

abbrev pub prepended : Bytes → Composed → Composed
prepended a (page b) = page (a ++ b)
prepended a render_error = render_error
prepended a crashed = crashed

-- One round of the loop: the piece before the hole, what the hole renders to, and the later rounds.
abbrev pub add_piece : Option Bytes → Option Bytes → Composed → Composed
add_piece none rendered later = crashed
add_piece (some a) none later = render_error
add_piece (some a) (some b) later = prepended (a ++ b) later

abbrev pub last_piece : Option Bytes → Composed
last_piece none = crashed
last_piece (some a) = page a

abbrev pub append_rendered : Option Bytes → Option Bytes → Option Bytes
append_rendered none later = none
append_rendered (some a) none = none
append_rendered (some a) (some b) = some (a ++ b)

-- What `readHoles` finds when the holes are not cached; outside, `none` is a panic.
unfoldable pub holes_of :
    (Bytes → Bool) → Templates → Option (List HoleRecord) → Manifest → RouteEntry → Option Holes
unfolding read_holes
holes_of template_ok templates (some holes) m entry = some (parsed holes)
holes_of template_ok templates none m entry =
    if ltb (length m.hole_blobs) entry.hole_offset
    then none
    else some (read_holes template_ok (drop entry.hole_offset m.hole_blobs) templates).1

-- `execute` is `Template.Execute`, and `query` the rows that `QueryEach` visits, with whether it
-- ends without an error of its own.
module _ {V : Type 0} (execute : Bytes → Row V → Option Bytes) (query : Bytes → List (Row V) × Bool)
    (bindings : List Param) where
  unfoldable pub render_rows : Bytes → List (Row V) → Bool → Option Bytes
  unfolding with_params
  render_rows template [] ends = if ends then some [] else none
  render_rows template (row ∷ rows) ends =
      append_rendered (execute template (with_params bindings row)) (render_rows template rows ends)

  -- A hole without a query runs its template once.
  unfoldable pub render : Bytes → Bytes → Option Bytes
  unfolding render_rows with_params
  render template [] = execute template (with_params bindings [])
  render template (c ∷ sql) = render_rows template (query (c ∷ sql)).0 (query (c ∷ sql)).1

  -- The loop over the holes: `body` starts at the body, whose length is `len`, and goes on with the
  -- payloads behind it.
  unfoldable pub compose_from : Bytes → ℕ → ℕ → List HoleRecord → Composed
  unfolding body_piece render
  compose_from body len cursor [] = last_piece (body_piece body cursor len)
  compose_from body len cursor (h ∷ holes) =
      add_piece (body_piece body cursor h.position) (render h.template h.sql)
        (compose_from body len h.position holes)

  abbrev pub with_holes : Bytes → ℕ → Option Holes → Composed
  with_holes body len none = crashed
  with_holes body len (some (parsed holes)) = compose_from body len 0 holes
  with_holes body len (some invalid_blob) = render_error
  with_holes body len (some bad_template) = render_error

  abbrev pub splice_body : Manifest → Variant → Option Holes → Option Bytes → Composed
  splice_body m v holes none = crashed
  splice_body m v holes (some b) = with_holes (drop v.data_offset m.payloads) v.data_len holes

  -- `composeHoleBody`.
  unfoldable pub compose_hole_body :
      (Bytes → Bool) → Templates → Option (List HoleRecord) → Manifest → RouteEntry → Composed
  unfolding compose_from holes_of slice
  compose_hole_body template_ok templates cached m entry =
      splice_body m entry.identity (holes_of template_ok templates cached m entry)
        (slice m.payloads entry.identity.data_offset entry.identity.data_len)
