-- ===== src/Holes/Tests.antt =====
-- The blobs of cmd/build/v2_compiler.go on concrete holes, paths and names.
use web_spa.Base.{
  ◌≡◌, inr, ◌%◌, ◌==◌, refl, Bool, true, Bytes, codes, List, ◌∷◌, ◌++◌, [], some, none, length,
  take, drop, arith, if◌then◌else◌,
}
use web_spa.Holes.{
  Hole, parsed, invalid_blob, find_template, append_hole_blob, read_holes, append_middleware,
  middleware_names_at,
}
use web_spa.Holes.Blobs.{
  Fits, records, short_end, read_holes-append_hole_blob, middleware_names_at-append_middleware,
}

abbrev hole : Hole
hole = record { position = 3; sql = codes "select a from t"; template = codes "x" }

abbrev any_template : Bytes → Bool
any_template s = true

hole-Fits : Fits any_template [] (hole ∷ [])
unfolding find_template
hole-Fits = ((omega arith, omega arith, omega arith, inr (refl, refl)), tt)

read_holes-append_hole_blob_example :
    (read_holes any_template
      (drop (append_hole_blob (hole ∷ []) []).1 ((append_hole_blob (hole ∷ []) []).0 ++ codes "z"))
      []).1
    ≡ (if short_end (hole ∷ []) (codes "z") then invalid_blob else parsed (records (hole ∷ [])))
read_holes-append_hole_blob_example =
    read_holes-append_hole_blob any_template [] (hole ∷ []) [] (codes "z") (omega arith) hole-Fits
      (omega arith)

-- A parameter of one byte at the end of the section.
abbrev short_hole : Hole
short_hole = record { position = 0; sql = []; template = codes "x" }

short_rejected :
    (read_holes any_template
      (drop (append_hole_blob (short_hole ∷ []) []).1 (append_hole_blob (short_hole ∷ []) []).0)
      []).1
    ≡ invalid_blob
unfolding read_holes append_hole_blob
short_rejected = refl

abbrev names : List Bytes
names = codes "auth" ∷ codes "audit" ∷ []

middleware_names_at-append_middleware_example :
    middleware_names_at
      ((append_middleware names []).0 ++ codes "z")
      (append_middleware names []).1
      (append_middleware names []).2
    ≡ (if length names % 256 == 0 then none else some (take (length names % 256) names))
middleware_names_at-append_middleware_example =
    middleware_names_at-append_middleware names [] (codes "z") refl (omega arith) (omega arith)
