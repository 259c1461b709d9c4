-- ===== src/Gogohttp/Response/Reader.antt =====
-- A reader of the chunked coding of RFC 7230, and the chunks that it reads back.
use web_spa.Base.{
  ℕ, zero, suc, ◌+◌, ◌-◌, ◌*◌, ◌/◌, ◌%◌, ◌<◌, ◌≡◌, refl, ap, ◌∙◌, true, ◌&&◌, List, [], ◌∷◌, ◌++◌,
  Option, none, some, Bytes, ltb, leb, ◌==◌, if◌then◌else◌, length, take, drop, take-length,
  drop-length, append_assoc, length-append, arith, hex, hex_from, hex_digit, Bool-cases, inl, inr,
}
use web_spa.Gogohttp.Scan.{cr, lf}
use web_spa.Gogohttp.Response.{crlf, chunked_trailer}

-- The value of a digit of either case.
abbrev digit_value : ℕ → Option ℕ
digit_value c =
    if leb b'0' c && leb c b'9'
    then some (c - b'0')
    else if leb b'a' c && leb c b'f'
    then some (c - b'a' + 10)
    else none

-- The rest after a CR LF.
abbrev after_crlf : Bytes → Option Bytes
after_crlf (c ∷ d ∷ b) = if (c == cr) && (d == lf) then some b else none
after_crlf _ = none

abbrev with_size : ℕ → Option Bytes → Option (ℕ × Bytes)
with_size n none = none
with_size n (some b) = some (n, b)

abbrev size_next : (ℕ → Option (ℕ × Bytes)) → ℕ → Bytes → Option ℕ → Option (ℕ × Bytes)
size_next more n b (some d) = more d
size_next more n b none = with_size n (after_crlf b)

-- A chunk's size line, whose digits so far have the value `n`, and the bytes after it.
unfoldable pub read_size : ℕ → Bytes → Option (ℕ × Bytes)
read_size n [] = none
read_size n (c ∷ b) = size_next (λ d. read_size (n * 16 + d) b) n (c ∷ b) (digit_value c)

abbrev prepend : Bytes → Option (Bytes × Bytes) → Option (Bytes × Bytes)
prepend b none = none
prepend b (some (body, rest)) = some (b ++ body, rest)

abbrev finish_body : Option Bytes → Option (Bytes × Bytes)
finish_body none = none
finish_body (some rest) = some ([], rest)

abbrev next_chunk : (Bytes → Option (Bytes × Bytes)) → Bytes → Option Bytes → Option (Bytes × Bytes)
next_chunk more b none = none
next_chunk more b (some rest) = prepend b (more rest)

abbrev chunk_body : (Bytes → Option (Bytes × Bytes)) → Option (ℕ × Bytes) → Option (Bytes × Bytes)
chunk_body more none = none
chunk_body more (some (zero, b)) = finish_body (after_crlf b)
chunk_body more (some (suc n, b)) =
    if leb (suc n) (length b)
    then next_chunk more (take (suc n) b) (after_crlf (drop (suc n) b))
    else none

-- A reader of the chunked coding of RFC 7230, without extensions and trailer fields: the body of at
-- most `fuel` chunks, and the bytes after it.
unfoldable pub read_chunked : ℕ → Bytes → Option (Bytes × Bytes)
read_chunked zero b = none
read_chunked (suc fuel) b = chunk_body (read_chunked fuel) (read_size 0 b)

digit_value-hex_digit : (d : ℕ) → d < 16 → digit_value (hex_digit d) ≡ some d
digit_value-hex_digit d h = ground arith

read_size-digit :
    (n d : ℕ) (b : Bytes) → d < 16 → read_size n (hex_digit d ∷ b) ≡ read_size (n * 16 + d) b
unfolding read_size
read_size-digit n d b h =
    ap (size_next (λ k. read_size (n * 16 + k) b) n (hex_digit d ∷ b)) (digit_value-hex_digit d h)

read_size-hex_from :
    (fuel n : ℕ) (acc rest : Bytes)
    → n < fuel
    → read_size 0 (hex_from fuel n acc ++ rest) ≡ read_size n (acc ++ rest)
unfolding hex_from
read_size-hex_from zero n acc rest h = absurd (omega arith)
read_size-hex_from (suc fuel) n acc rest h = elim (Bool-cases (ltb n 16)) [
  | inl small ↦ rw small (read_size-digit 0 n (acc ++ rest) (ground arith) ∙ (ground arith))
  | inr large ↦ rw large (
      read_size-hex_from fuel (n / 16) (hex_digit (n % 16) ∷ acc) rest (ground arith)
      ∙ (read_size-digit (n / 16) (n % 16) (acc ++ rest) (omega arith)
          ∙ ap (λ k. read_size k (acc ++ rest)) (omega arith)))
]

read_size-hex : (n : ℕ) (b : Bytes) → read_size 0 (hex n ++ (crlf ++ b)) ≡ some (n, b)
unfolding hex read_size
read_size-hex n b = read_size-hex_from (suc n) n [] (crlf ++ b) (omega arith)

unfoldable pub concat : List Bytes → Bytes
concat [] = []
concat (b ∷ bs) = b ++ concat bs

-- The chunks of the writes: one for each that is not empty.
abbrev pub chunk : Bytes → Bytes
chunk [] = []
chunk (x ∷ b) = hex (length (x ∷ b)) ++ (crlf ++ ((x ∷ b) ++ crlf))

unfoldable pub chunks : List Bytes → Bytes
chunks [] = []
chunks (b ∷ bs) = chunk b ++ chunks bs

chunk-append :
    (x : ℕ) (b rest : Bytes)
    → chunk (x ∷ b) ++ rest ≡ hex (suc (length b)) ++ (crlf ++ ((x ∷ b) ++ (crlf ++ rest)))
chunk-append x b rest = simp append_assoc

leb-length : (b rest : Bytes) → leb (length b) (length (b ++ rest)) ≡ true
leb-length b rest = ground (arith, length-append b rest)

chunk_body-chunk :
    (more : Bytes → Option (Bytes × Bytes)) (x : ℕ) (b rest : Bytes)
    → chunk_body more (some (suc (length b), (x ∷ b) ++ (crlf ++ rest)))
      ≡ prepend (x ∷ b) (more rest)
chunk_body-chunk more x b rest =
    rw (leb-length (x ∷ b) (crlf ++ rest))
      (rw (take-length b (crlf ++ rest), drop-length b (crlf ++ rest)) refl)

read_chunked-chunk :
    (fuel x : ℕ) (b rest : Bytes)
    → read_chunked (suc fuel) (chunk (x ∷ b) ++ rest) ≡ prepend (x ∷ b) (read_chunked fuel rest)
unfolding read_chunked
read_chunked-chunk fuel x b rest =
    ap (λ s. chunk_body (read_chunked fuel) (read_size 0 s)) (chunk-append x b rest)
    ∙ (ap (chunk_body (read_chunked fuel))
          (read_size-hex (suc (length b)) ((x ∷ b) ++ (crlf ++ rest)))
        ∙ chunk_body-chunk (read_chunked fuel) x b rest)

read_chunked-trailer :
    (fuel : ℕ) (rest : Bytes) → read_chunked (suc fuel) (chunked_trailer ++ rest) ≡ some ([], rest)
unfolding read_chunked read_size
read_chunked-trailer fuel rest = refl

-- The trailer ends the chunks of any writes, and the reader gets what was written.
pub read_chunked-chunks :
    (bs : List Bytes) (fuel : ℕ) (rest : Bytes)
    → length bs < fuel
    → read_chunked fuel (chunks bs ++ (chunked_trailer ++ rest)) ≡ some (concat bs, rest)
unfolding chunks concat
read_chunked-chunks bs zero rest h = absurd (omega arith)
read_chunked-chunks [] (suc fuel) rest h = read_chunked-trailer fuel rest
read_chunked-chunks ([] ∷ bs) (suc fuel) rest h =
    read_chunked-chunks bs (suc fuel) rest (omega arith)
read_chunked-chunks ((x ∷ b) ∷ bs) (suc fuel) rest h =
    ap (read_chunked (suc fuel))
      (append_assoc (chunk (x ∷ b)) (chunks bs) (chunked_trailer ++ rest))
    ∙ (read_chunked-chunk fuel x b (chunks bs ++ (chunked_trailer ++ rest))
        ∙ ap (prepend (x ∷ b)) (read_chunked-chunks bs fuel rest (omega arith)))
