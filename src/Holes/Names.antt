-- ===== src/Holes/Names.antt =====
-- The middleware names of a route in its blob, of cmd/build/v2_compiler.go and
-- modules/router/v2_binary.go.
use web_spa.Base.{
  ℕ, zero, suc, ◌≤◌, ◌≡◌, refl, ap, ◌∙◌, Bool, true, false, ◌&&◌, List, [], ◌∷◌, ◌++◌, some, Bytes,
  ◌==◌, ltb, length, take, arith, length-append, take-length, drop-length, append_assoc,
}
use web_spa.Holes.{names_bytes, names_from, prepend_name}

abbrev pub names_short : List Bytes → Bool
names_short [] = true
names_short (x ∷ xs) = ltb 0 (length x) && (ltb (length x) 256 && names_short xs)

pub names_bytes-count :
    (names : List Bytes) → names_short names ≡ true → (names_bytes names).1 ≡ length names
unfolding names_bytes
names_bytes-count [] h = refl
names_bytes-count (x ∷ xs) h = ground (arith, names_bytes-count xs)

names_from_cons :
    (k : ℕ) (x rest : Bytes)
    → names_from (suc k) (length x ∷ (x ++ rest)) ≡ prepend_name x (names_from k rest)
unfolding names_from
names_from_cons k x rest =
    let room : ltb (length (x ++ rest)) (length x) ≡ false = ground (arith, length-append x rest) in
    rw (room, take-length x rest, drop-length x rest) refl

names_bytes_cons :
    (x : Bytes) (xs : List Bytes)
    → names_short (x ∷ xs) ≡ true
    → (names_bytes (x ∷ xs)).0 ≡ length x ∷ (x ++ (names_bytes xs).0)
unfolding names_bytes
names_bytes_cons x xs h =
    let short : ltb 255 (length x) ≡ false = ground arith in
    let full : (length x == 0) ≡ false = ground arith in rw (full, short) refl

pub names_from-names_bytes :
    (k : ℕ) (names : List Bytes) (later : Bytes)
    → names_short names ≡ true
    → k ≤ length names
    → names_from k ((names_bytes names).0 ++ later) ≡ some (take k names)
unfolding names_from
names_from-names_bytes zero names later h le = refl
names_from-names_bytes (suc k) [] later h le = absurd (omega arith)
names_from-names_bytes (suc k) (x ∷ xs) later h le =
    rw (names_bytes_cons x xs h, append_assoc x (names_bytes xs).0 later)
      (names_from_cons k x ((names_bytes xs).0 ++ later)
        ∙ ap (prepend_name x) (names_from-names_bytes k xs later (ground arith) (omega arith)))
