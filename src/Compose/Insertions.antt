-- ===== src/Compose/Insertions.antt =====
-- A composed page as the body with the renderings inserted: `composeHoleBody` of cmd/main/holes.go.
use web_spa.Base.{
  ℕ, zero, suc, ◌+◌, ◌-◌, ◌≤◌, ◌≡◌, refl, sym, ap, ◌∙◌, Bool, List, [], ◌∷◌, ◌++◌, Option, none,
  some, Bytes, ltb, le→leb, length-append, if◌then◌else◌, length, take, drop, arith, Bool-cases,
  inl, inr, append_assoc, length-take_of_le, take-append_of_le, drop-append_of_le, length-drop,
  ltb→ge,
}
use web_spa.Holes.{HoleRecord, parsed, Templates}
use web_spa.Router.Trie.{Param}
use web_spa.Router.Manifest.{RouteEntry, Manifest, slice}
use web_spa.Compose.{
  Row, Composed, page, render_error, body_piece, render, add_piece, last_piece, compose_from,
  splice_body, holes_of, compose_hole_body,
}

-- The holes stand in order, from a position to the end of the body.
abbrev pub Ascending : ℕ → ℕ → List HoleRecord → Type 0
Ascending from len [] = from ≤ len
Ascending from len (h ∷ holes) = (from ≤ h.position) × Ascending h.position len holes

abbrev pub insert_at : ℕ → Bytes → Bytes → Bytes
insert_at p text body = take p body ++ (text ++ drop p body)

abbrev pub insert_rendering : ℕ → Option Bytes → Option Bytes → Option Bytes
insert_rendering p none body = none
insert_rendering p (some text) none = none
insert_rendering p (some text) (some body) = some (insert_at p text body)

abbrev pub page_of : Option Bytes → Composed
page_of none = render_error
page_of (some body) = page body

Ascending-le : (from len : ℕ) (holes : List HoleRecord) → Ascending from len holes → from ≤ len
Ascending-le from len [] h = h
Ascending-le from len (x ∷ holes) (a, b) = omega (arith, Ascending-le x.position len holes b)

take-take : (n m : ℕ) (s : Bytes) → n ≤ m → take n (take m s) ≡ take n s
take-take zero m s h = refl
take-take (suc n) zero s h = absurd (omega arith)
take-take (suc n) (suc m) [] h = refl
take-take (suc n) (suc m) (x ∷ s) h = ap (◌∷◌ x) (take-take n m s (omega arith))

take_nil : (n : ℕ) → take {A = ℕ} n [] ≡ []
take_nil zero = refl
take_nil (suc n) = refl

drop-take : (n m : ℕ) (s : Bytes) → n ≤ m → drop n (take m s) ≡ take (m - n) (drop n s)
drop-take zero m s h = ap (λ k. take k s) (omega arith)
drop-take (suc n) zero s h = absurd (omega arith)
drop-take (suc n) (suc m) [] h = sym (take_nil (suc m - suc n))
drop-take (suc n) (suc m) (x ∷ s) h =
    drop-take n m s (omega arith) ∙ ap (λ k. take k (drop n s)) (omega arith)

some_inj : (a b : Bytes) → some a ≡ some b → a ≡ b
some_inj a b h = ap (λ (o : Option Bytes). elim o [ none ↦ a | some x ↦ x ]) h

slice-some :
    (s : Bytes) (off len : ℕ) (b : Bytes)
    → slice s off len ≡ some b
    → (len ≤ length (drop off s)) × (take len (drop off s) ≡ b)
unfolding slice
slice-some s off len b h = elim (Bool-cases (ltb (length s) (off + len))) [
  | inl out ↦ absurd (cc (h, out))
  | inr fits ↦ (
    omega (arith, length-drop off s, ltb→ge _ _ fits),
    some_inj _ _
        (sym (ap (λ (t : Bool). if t then none else some (take len (drop off s))) fits) ∙ h),
  )
]

body_piece_inside :
    (s : Bytes) (from to : ℕ)
    → from ≤ to
    → to ≤ length s
    → body_piece s from to ≡ some (drop from (take to s))
unfolding body_piece
body_piece_inside s from to a b =
    rw (le→leb from to a) (rw (le→leb to (length s) b) (ap some (sym (drop-take from to s a))))

module _ {V : Type 0} (execute : Bytes → Row V → Option Bytes) (query : Bytes → List (Row V) × Bool)
    (bindings : List Param) where
  -- The renderings inserted into the body, from the last hole to the first; `none` if one fails.
  abbrev pub inserted : Bytes → List HoleRecord → Option Bytes
  inserted body [] = some body
  inserted body (h ∷ holes) =
      insert_rendering h.position (render execute query bindings h.template h.sql)
        (inserted body holes)

  abbrev rest_of : ℕ → Option Bytes → Composed
  rest_of from none = render_error
  rest_of from (some body) = page (drop from body)

  rest_of_all : (later : Option Bytes) → rest_of 0 later ≡ page_of later
  rest_of_all none = refl
  rest_of_all (some body) = refl

  module _ (s : Bytes) (len : ℕ) (inside : len ≤ length s) where
    abbrev Prefix : ℕ → Option Bytes → Type 0
    Prefix from none = 0 ≤ 0
    Prefix from (some b) = (take from b ≡ take from (take len s)) × (from ≤ length b)

    add_piece-insert_rendering :
        (p from : ℕ) (r later : Option Bytes)
        → from ≤ p
        → p ≤ len
        → Prefix p later
        → Prefix from (insert_rendering p r later)
          × (add_piece (some (drop from (take p s))) r (rest_of p later)
              ≡ rest_of from (insert_rendering p r later))
    add_piece-insert_rendering p from none later a b h = (omega arith, refl)
    add_piece-insert_rendering p from (some text) none a b h = (omega arith, refl)
    add_piece-insert_rendering p from (some text) (some body) a b (same_len, long) =
        let same : take p body ≡ take p s = same_len ∙ take-take p len s b in
        let far : from ≤ length (take p body) = omega (arith, length-take_of_le p body long) in
        let tail : Bytes = text ++ drop p body in
        let front : take from (insert_at p text body) ≡ take from (take len s) =
          take-append_of_le from (take p body) tail far
          ∙ (ap (take from) same
              ∙ (take-take from p s a ∙ sym (take-take from len s (omega arith)))) in
        let back : (drop from (take p s) ++ text) ++ drop p body
            ≡ drop from (insert_at p text body) =
          append_assoc (drop from (take p s)) text (drop p body)
          ∙ (ap (λ z. drop from z ++ tail) (sym same)
              ∙ sym (drop-append_of_le from (take p body) tail far)) in
        ((front, omega (arith, length-append (take p body) tail, far)), ap page back)

    compose_from-inserted :
        (holes : List HoleRecord) (from : ℕ)
        → Ascending from len holes
        → Prefix from (inserted (take len s) holes)
          × (compose_from execute query bindings s len from holes
              ≡ rest_of from (inserted (take len s) holes))
    unfolding compose_from
    compose_from-inserted [] from h = (
      (refl, omega (arith, length-take_of_le len s inside)),
      ap last_piece (body_piece_inside s from len h inside),
    )
    compose_from-inserted (h ∷ holes) from (a, b) =
        let (known, later) = compose_from-inserted holes h.position b in
        let far : h.position ≤ len = Ascending-le h.position len holes b in
        let rendered : Option Bytes = render execute query bindings h.template h.sql in
        let o : Option Bytes = inserted (take len s) holes in
        let (p, e) = add_piece-insert_rendering h.position from rendered o a far known in
        (
          p,
          (λ i.
                add_piece (body_piece_inside s from h.position a (omega (arith, far, inside)) i)
                  rendered (later i))
              ∙ e,
        )

  -- If the body of the route lies in the payloads, its holes are read, and they stand in order within
  -- the body, then the page is the body with the rendering of each hole inserted at its position,
  -- from the last hole to the first; if a hole cannot be rendered, the result is the error, and in
  -- no case a panic.
  pub compose_hole_body-inserted :
      (template_ok : Bytes → Bool) (templates : Templates) (cached : Option (List HoleRecord))
      (m : Manifest) (entry : RouteEntry) (body : Bytes) (holes : List HoleRecord)
      → slice m.payloads entry.identity.data_offset entry.identity.data_len ≡ some body
      → holes_of template_ok templates cached m entry ≡ some (parsed holes)
      → Ascending 0 entry.identity.data_len holes
      → compose_hole_body execute query bindings template_ok templates cached m entry
        ≡ page_of (inserted body holes)
  unfolding compose_hole_body
  compose_hole_body-inserted template_ok templates cached m entry body holes at_body read order =
      let v = entry.identity in
      let s : Bytes = drop v.data_offset m.payloads in
      let (inside, same) = slice-some m.payloads v.data_offset v.data_len body at_body in
      let (known, e) = compose_from-inserted s v.data_len inside holes 0 order in
      (λ i. splice_body execute query bindings m v (read i) (at_body i))
      ∙ (e
          ∙ (rest_of_all (inserted (take v.data_len s) holes)
              ∙ ap (λ (b : Bytes). page_of (inserted b holes)) same))
