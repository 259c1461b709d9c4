-- ===== src/Gogohttp/Scan/Eol.antt =====
-- `findEOL` of modules/gogohttp/parser.go.
use web_spa.Base.{
  ℕ, ◌+◌, ◌≤◌, ◌≡◌, refl, ap, Bool, true, false, [], ◌∷◌, ◌++◌, some, Bytes, ◌==◌, Bool-cases,
  if◌then◌else◌, length, all, not, arith, ◌⊎◌, inl, inr, sym, ◌∙◌, append_assoc, ==_iff, all-append,
  all-append_left, subst, length-append,
}
use web_spa.Gogohttp.Scan.{cr, lf, eol_at, find_eol_from, find_eol}

find_eol_from-append :
    (after_cr : Bool) (i : ℕ) (b more : Bytes) (r : ℕ × ℕ)
    → find_eol_from after_cr i b ≡ some r
    → find_eol_from after_cr i (b ++ more) ≡ some r
unfolding find_eol_from
find_eol_from-append after_cr i [] more r h = absurd (ground arith)
find_eol_from-append after_cr i (c ∷ b) more r h =
    ground (arith, find_eol_from-append (c == cr) (i + 1) b more r)

-- A terminator that is found does not move when bytes are added.
pub find_eol-append :
    (b more : Bytes) (r : ℕ × ℕ) → find_eol b ≡ some r → find_eol (b ++ more) ≡ some r
unfolding find_eol
find_eol-append b more r h = find_eol_from-append false 0 b more r h

abbrev pub NoLf : Bytes → Type 0
NoLf b = all (λ c. not (c == lf)) b ≡ true

-- The two line terminators, by their length.
abbrev pub terminator : ℕ → Bytes
terminator skip = if skip == 2 then cr ∷ lf ∷ [] else lf ∷ []

-- A buffer that begins with a line and its terminator, and goes on with `rest`.
pub record IsLine (b : Bytes) (eol skip : ℕ) : Type 0 where
  pub line : Bytes
  pub rest : Bytes
  pub split : b ≡ line ++ (terminator skip ++ rest)
  pub eol_length : length line ≡ eol
  pub skip_cases : (skip ≡ 1) ⊎ (skip ≡ 2)
  pub no_lf : NoLf line

module _ {eol skip : ℕ} where
  step-IsLine :
      (pre : Bytes) (c : ℕ) (b : Bytes)
      → IsLine ((pre ++ c ∷ []) ++ b) eol skip
      → IsLine (pre ++ c ∷ b) eol skip
  step-IsLine pre c b h = record {
    line = h.line;
    rest = h.rest;
    split = sym (append_assoc pre (c ∷ []) b) ∙ h.split;
    eol_length = h.eol_length;
    skip_cases = h.skip_cases;
    no_lf = h.no_lf;
  }

  found-IsLine :
      (pre : Bytes) (after : Bool) (b : Bytes)
      → NoLf pre
      → (after ≡ true → (line : Bytes) × (pre ≡ line ++ cr ∷ []))
      → eol_at after (length pre) ≡ some (eol, skip)
      → IsLine (pre ++ lf ∷ b) eol skip
  found-IsLine pre true b clean ends e =
      let (line, at_cr) = ends refl in
      let at_length : length pre ≡ length line + 1 =
        ap length at_cr ∙ length-append line (cr ∷ []) in
      let two : skip ≡ 2 = ground arith in
      record {
        line = line;
        rest = b;
        split = rw (two, at_cr, append_assoc);
        eol_length = ground arith;
        skip_cases = inr two;
        no_lf = all-append_left _ line (cr ∷ []) (subst NoLf at_cr clean);
      }
  found-IsLine pre false b clean ends e =
      let one : skip ≡ 1 = ground arith in
      record {
        line = pre;
        rest = b;
        split = rw one;
        eol_length = ground arith;
        skip_cases = inl one;
        no_lf = clean;
      }

  -- `pre` is what the loop has passed, all of it before the terminator but a last '\r'.
  find_eol_from-IsLine :
      (pre : Bytes) (after_cr : Bool) (b : Bytes)
      → NoLf pre
      → (after_cr ≡ true → (line : Bytes) × (pre ≡ line ++ cr ∷ []))
      → find_eol_from after_cr (length pre) b ≡ some (eol, skip)
      → IsLine (pre ++ b) eol skip
  unfolding find_eol_from
  find_eol_from-IsLine pre after_cr [] clean ends h = absurd (ground arith)
  find_eol_from-IsLine pre after_cr (c ∷ b) clean ends h = elim (Bool-cases (c == lf)) [
    | inl here ↦ rw ((==_iff c lf).0 here) (found-IsLine pre after_cr b clean ends (rw here at h))
    | inr later ↦ step-IsLine pre c b (
        find_eol_from-IsLine (pre ++ c ∷ []) (c == cr) b
          (all-append _ pre (c ∷ []) ∙ (ground arith))
          (λ e. (pre, ap (λ (d : ℕ). pre ++ d ∷ []) ((==_iff c cr).0 e)))
          (rw (length-append pre (c ∷ [])) (rw later at h)))
  ]

-- A line end that is found is the first one: the buffer is the line, free of '\n', then "\r\n" or
-- "\n", then the rest.
pub find_eol-IsLine : (b : Bytes) {eol skip : ℕ} → find_eol b ≡ some (eol, skip) → IsLine b eol skip
unfolding find_eol
find_eol-IsLine b h = find_eol_from-IsLine [] false b refl (λ e. absurd (ground arith)) h

pub IsLine-bounds :
    {b : Bytes} {eol skip : ℕ}
    → IsLine b eol skip
    → (eol + skip ≤ length b) × (1 ≤ skip) × (skip ≤ 2)
IsLine-bounds {b} {eol} {skip} l =
    let size : length b ≡ length l.line + (length (terminator skip) + length l.rest) =
      ap length l.split
      ∙ length-append l.line (terminator skip ++ l.rest)
      ∙ ap (λ (n : ℕ). length l.line + n) (length-append (terminator skip) l.rest) in
    elim (l.skip_cases) [ inl one ↦ ground arith | inr two ↦ ground arith ]

pub find_eol_bounds :
    (b : Bytes) (eol skip : ℕ)
    → find_eol b ≡ some (eol, skip)
    → (eol + skip ≤ length b) × (1 ≤ skip) × (skip ≤ 2)
find_eol_bounds b eol skip h = IsLine-bounds (find_eol-IsLine b h)

find_eol_from-crlf :
    (after_cr : Bool) (i : ℕ) (line rest : Bytes)
    → NoLf line
    → find_eol_from after_cr i (line ++ cr ∷ lf ∷ rest) ≡ some (i + length line, 2)
unfolding find_eol_from
find_eol_from-crlf after_cr i [] rest h = ground arith
find_eol_from-crlf after_cr i (c ∷ line) rest h =
    ground (arith, find_eol_from-crlf (c == cr) (i + 1) line rest)

-- A line without '\n' that is ended by "\r\n" is found whole.
pub find_eol-crlf :
    (line rest : Bytes) → NoLf line → find_eol (line ++ cr ∷ lf ∷ rest) ≡ some (length line, 2)
unfolding find_eol
find_eol-crlf line rest h = find_eol_from-crlf false 0 line rest h ∙ (ground arith)
