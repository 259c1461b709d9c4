-- ===== src/Gogohttp/Scan/Fold.antt =====
-- `eqFoldASCII` of modules/gogohttp/parser.go, against folding both sides first.
use web_spa.Base.{◌≡◌, refl, ◌↔◌, true, [], ◌∷◌, Bytes, length, map, arith}
use web_spa.Gogohttp.Scan.{fold_ascii, eq_fold_from, eq_fold_ascii}

eq_fold_from→map :
    (a b : Bytes)
    → length a ≡ length b
    → eq_fold_from a b ≡ true
    → map fold_ascii a ≡ map fold_ascii b
unfolding eq_fold_from
eq_fold_from→map [] [] e h = refl
eq_fold_from→map [] (y ∷ b) e h = absurd (omega arith)
eq_fold_from→map (x ∷ a) [] e h = absurd (omega arith)
eq_fold_from→map (x ∷ a) (y ∷ b) e h = ground (arith, eq_fold_from→map a b)

map→eq_fold_from : (a b : Bytes) → map fold_ascii a ≡ map fold_ascii b → eq_fold_ascii a b ≡ true
unfolding eq_fold_ascii
map→eq_fold_from [] [] e = refl
map→eq_fold_from [] (y ∷ b) e = absurd (ground arith)
map→eq_fold_from (x ∷ a) [] e = absurd (ground arith)
map→eq_fold_from (x ∷ a) (y ∷ b) e = ground (arith, map→eq_fold_from a b)

pub eq_fold_ascii-length : (a b : Bytes) → eq_fold_ascii a b ≡ true → length a ≡ length b
unfolding eq_fold_ascii
eq_fold_ascii-length a b h = ground arith

-- Two texts are equal under ASCII folding exactly when their folded forms are the same bytes.
pub eq_fold_ascii_iff :
    (a b : Bytes) → (eq_fold_ascii a b ≡ true) ↔ (map fold_ascii a ≡ map fold_ascii b)
unfolding eq_fold_ascii
eq_fold_ascii_iff a b =
    (λ h. eq_fold_from→map a b (ground arith) (ground arith), map→eq_fold_from a b)
