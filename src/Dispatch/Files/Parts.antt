-- ===== src/Dispatch/Files/Parts.antt =====
-- `serveFile` of cmd/main/files.go: which bytes of a file a response carries.
use web_spa.Base.{
  ℕ, suc, ◌+◌, ◌-◌, ◌≡◌, ◌≤◌, ◌<◌, refl, ap, ◌∙◌, ◌⊎◌, inl, inr, pos, Bool, true, false, le→leb,
  List, [], ◌∷◌, ◌++◌, Option, none, some, Bytes, codes, append_int, ==_refl, length, take, leb,
  if◌then◌else◌, zero, length-append, arith,
}
use web_spa.Gogohttp.Types.{Req}
use web_spa.Gogohttp.Conn.{Fault}
use web_spa.Gogohttp.Response.{Resp, Stream, Ended, fine, fault, ended, set_content_range, crlf}
use web_spa.Gogohttp.Response.Chunks.{written, outcome}
use web_spa.Gogohttp.Response.Reader.{concat}
use web_spa.Gogohttp.Server.{is_head_method}
use web_spa.Router.Manifest.{RouteEntry, Manifest}
use web_spa.Holes.{read_file_blob}
use web_spa.Files.{Range, at, parse_byte_range}
use web_spa.Files.Bounds.{parse_byte_range-Within}
use web_spa.Dispatch.Files.{
  FileHeads, OpenFile, FileSystem, heads_of, mime_for_file, header_value, copy, copy_n, or_eof,
  copied, part_of, whole_file, read_from, range_length, end_int, serve_range, serve_ranged,
  serve_file, file_blob,
}

copied_whole : (rest : Stream) (n : ℕ) → copied rest n n none ≡ rest
copied_whole rest n = rw (==_refl n) refl

written-copy : (parts : List Bytes) (e : Option Fault) → written (copy parts e) ≡ parts
unfolding written copy
written-copy [] e = refl
written-copy (p ∷ parts) e =
    ap (λ s. p ∷ written s) (copied_whole (copy parts e) (length p))
    ∙ ap (λ ps. p ∷ ps) (written-copy parts e)

outcome-copy : (parts : List Bytes) (e : Option Fault) → outcome (copy parts e) ≡ ended e
unfolding outcome copy
outcome-copy [] e = refl
outcome-copy (p ∷ parts) e =
    ap outcome (copied_whole (copy parts e) (length p)) ∙ outcome-copy parts e

take-append : (n : ℕ) (b c : Bytes) → take n b ++ take (n - length b) c ≡ take n (b ++ c)
take-append zero b c = let all : 0 - length b ≡ 0 = omega arith in ap (λ k. take k c) all
take-append (suc n) [] c =
    let none_off : suc n - 0 ≡ suc n = omega arith in ap (λ k. take k c) none_off
take-append (suc n) (x ∷ b) c =
    let step : suc n - suc (length b) ≡ n - length b = omega arith in
    ap (λ k. x ∷ (take n b ++ take k c)) step ∙ ap (◌∷◌ x) (take-append n b c)

concat-written-copy_n :
    (n : ℕ) (parts : List Bytes) (e : Option Fault)
    → concat (written (copy_n n parts e)) ≡ take n (concat parts)
unfolding written copy_n concat
concat-written-copy_n zero parts e = refl
concat-written-copy_n (suc n) [] e = refl
concat-written-copy_n (suc n) (p ∷ parts) e =
    let rest = copy_n (suc n - length p) parts e in
    ap (λ s. take (suc n) p ++ concat (written s)) (copied_whole rest (length (take (suc n) p)))
    ∙ (ap (λ b. take (suc n) p ++ b) (concat-written-copy_n (suc n - length p) parts e)
        ∙ take-append (suc n) p (concat parts))

-- How the copy of `n` bytes ends: they were read, or an error says that they were not.
abbrev pub part_end : ℕ → Bytes → Option Fault → Ended
part_end n b e = if leb n (length b) then fine else fault (or_eof e)

outcome-copy_n :
    (n : ℕ) (parts : List Bytes) (e : Option Fault)
    → outcome (copy_n n parts e) ≡ part_end n (concat parts) e
unfolding outcome copy_n concat
outcome-copy_n zero parts e = all_read zero (concat parts) e (omega arith)
  where
    all_read : (k : ℕ) (b : Bytes) (e : Option Fault) → k ≤ length b → fine ≡ part_end k b e
    all_read k b e h = rw (le→leb k (length b) h) refl
outcome-copy_n (suc n) [] e = ground arith
outcome-copy_n (suc n) (p ∷ parts) e =
    let rest = copy_n (suc n - length p) parts e in
    ap outcome (copied_whole rest (length (take (suc n) p)))
    ∙ (outcome-copy_n (suc n - length p) parts e
        ∙ ap (λ (t : Bool). if t then fine else fault (or_eof e)) later)
  where
    later :
        leb (suc n - length p) (length (concat parts)) ≡ leb (suc n) (length (p ++ concat parts))
    later = ground (arith, length-append p (concat parts))

-- The stream writes these bytes if every write succeeds, and then ends like this.
abbrev pub Carries : Bytes → Ended → Option Stream → Type 0
Carries b e o = (s : Stream) × (o ≡ some s) × (outcome s ≡ e) × (concat (written s) ≡ b)

abbrev pub content_range : Range → ℕ → Bytes
content_range r total =
    codes "Content-Range: bytes "
    ++ (append_int (pos r.start)
        ++ (codes "-"
            ++ (append_int (end_int r.end) ++ (codes "/" ++ (append_int (pos total) ++ crlf)))))

-- A full response if the header names no range, and a partial one for the range that it names: its
-- bytes are those from the start of the range to its end, both included.
abbrev pub IsServedFile : FileHeads → OpenFile → Bytes → Resp → Type 0
IsServedFile heads file range r =
    ((parse_byte_range range file.size ≡ none)
      × (r.head_id ≡ heads.head_200)
      × Carries (read_from 0 file).0 (ended (read_from 0 file).1) r.stream)
    ⊎ ((rng : Range) × (parse_byte_range range file.size ≡ some rng)
        × (r.head_id ≡ heads.head_206)
        × (r.extra_headers ≡ content_range rng file.size)
        × Carries (take (range_length rng) (read_from rng.start file).0)
            (part_end (range_length rng) (read_from rng.start file).0 (read_from rng.start file).1)
            r.stream
        × (last : ℕ) × (rng.end ≡ at last)
        × (last < file.size)
        × (range_length rng + rng.start ≡ suc last))

whole_file-Carries :
    (file : OpenFile)
    → Carries (read_from 0 file).0 (ended (read_from 0 file).1) (some (whole_file file))
whole_file-Carries file =
    let (b, e) = read_from 0 file in
    (whole_file file, refl, outcome-copy _ _, ap concat (written-copy _ _) ∙ file.concat-cut _)

part_of-Carries :
    (r : Range) (file : OpenFile)
    → Carries
        (take (range_length r) (read_from r.start file).0)
        (part_end (range_length r) (read_from r.start file).0 (read_from r.start file).1)
        (some (part_of r file))
part_of-Carries r file = (
  part_of r file,
  refl,
  outcome-copy_n (range_length r) _ _
      ∙ ap (λ b. part_end (range_length r) b (read_from r.start file).1) (file.concat-cut _),
  concat-written-copy_n (range_length r) _ _ ∙ ap (take (range_length r)) (file.concat-cut _),
)

serve_range-IsServedFile :
    (resp : Resp) (heads : FileHeads) (file : OpenFile) (range : Bytes) (o : Option Range)
    → file.seekable ≡ true
    → 0 < file.size
    → parse_byte_range range file.size ≡ o
    → IsServedFile heads file range (serve_range resp heads file o)
unfolding set_content_range
serve_range-IsServedFile resp heads file range none seeks some_byte e =
    inl (e, refl, whole_file-Carries file)
serve_range-IsServedFile resp heads file range (some rng) seeks some_byte e =
    let (last, is_last, le, lt) = parse_byte_range-Within range file.size some_byte e in
    rw seeks (
      inr
        (rng, e, refl, refl, part_of-Carries rng file, last, is_last, lt, rw is_last (omega arith)))

no_range : (size : ℕ) → parse_byte_range [] size ≡ none
unfolding parse_byte_range
no_range size = refl

serve_ranged-IsServedFile :
    (resp : Resp) (heads : FileHeads) (file : OpenFile) (range : Bytes)
    → file.seekable ≡ true
    → 0 < file.size
    → IsServedFile heads file range (serve_ranged resp heads file range)
serve_ranged-IsServedFile resp heads file [] seeks some_byte =
    inl (no_range file.size, refl, whole_file-Carries file)
serve_ranged-IsServedFile resp heads file (c ∷ range) seeks some_byte =
    serve_range-IsServedFile resp heads file (c ∷ range) _ seeks some_byte refl

-- A file route whose file is there, can be positioned, has a registered mime type and, when it is
-- opened, is not empty, answers every method but HEAD. If the Range header names no range of the
-- file: with the 200 head and the bytes of the whole file, as far as they can be read, and it ends
-- well unless a read fails. If it names a range: with the 206 head, the Content-Range line of that
-- range, which lies in the file, and the bytes from its first to its last, as far as they can be
-- read, and it ends well if all of them could, with an error otherwise, also where the file has
-- become shorter.
pub serve_file-IsServedFile :
    (fs : FileSystem) (all_heads : List (Bytes × FileHeads)) (req : Req) (entry : RouteEntry)
    (m : Manifest) (resp : Resp) (blob path : Bytes) (file : OpenFile) (heads : FileHeads)
    → file_blob m entry.hole_offset ≡ some blob
    → read_file_blob blob ≡ some path
    → fs.opens path ≡ some file
    → heads_of all_heads (mime_for_file fs path) ≡ some heads
    → file.has_stat ≡ true
    → file.seekable ≡ true
    → 0 < file.size
    → is_head_method req.method ≡ false
    → (r : Resp) × (serve_file fs all_heads req entry m resp ≡ some r)
      × IsServedFile heads file (header_value req.headers (codes "Range")) r
unfolding serve_file
serve_file-IsServedFile fs all_heads req entry m resp blob path file heads at_blob at_path opened
      known stats seeks some_byte not_head =
    (
      serve_ranged resp heads file (header_value req.headers (codes "Range")),
      rw (at_blob, serve_file) (rw at_path (rw (opened, known) (rw stats (rw not_head refl)))),
      serve_ranged-IsServedFile resp heads file (header_value req.headers (codes "Range")) seeks
          some_byte,
    )
