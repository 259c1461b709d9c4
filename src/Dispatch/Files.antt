-- ===== src/Dispatch/Files.antt =====
-- `serveFile` and `registerFileMime` of cmd/main/files.go. The file system is a parameter.
pub mod Parts
use web_spa.Base.{
  ℕ, zero, suc, ◌+◌, ◌-◌, ◌≡◌, ◌≢◌, ◌≤◌, ◌<◌, refl, sym, ap, ◌∙◌, ◌⊎◌, inl, inr, ℤ, pos, negsuc,
  Bool, true, false, not, ◌&&◌, List, [], ◌∷◌, ◌++◌, Option, none, some, Bytes, codes, bytes_eq,
  ◌==◌, leb, if◌then◌else◌, length, take, drop, length-take_of_le, length-drop, arith, Bool-cases,
  Option-cases,
}
use web_spa.Gogohttp.Types.{Req, Header, Method, head}
use web_spa.Gogohttp.Scan.{eq_fold_ascii}
use web_spa.Gogohttp.Conn.{Fault, broken, refused, read_failed, end_of_file}
use web_spa.Gogohttp.Response.{
  Resp, Stream, writes, returns, Ended, fine, set_content_range, crlf, lines,
}
use web_spa.Gogohttp.Response.Chunks.{written, outcome}
use web_spa.Gogohttp.Response.Reader.{read_chunked, concat}
use web_spa.Gogohttp.Response.Registry.{RegistryBuilder, add_head, not_found, server_error}
use web_spa.Gogohttp.Server.{is_head_method}
use web_spa.Router.Manifest.{RouteEntry, Manifest}
use web_spa.Holes.{read_file_blob}
use web_spa.Files.{Range, End, minus_one, at, parse_byte_range}

pub record FileHeads : Type 0 where
  pub head_200 : ℕ
  pub head_206 : ℕ

-- The map from mime types; a key is written only when it is not there.
abbrev pub heads_of : List (Bytes × FileHeads) → Bytes → Option FileHeads
heads_of [] mime = none
heads_of ((m, h) ∷ heads) mime = if bytes_eq m mime then some h else heads_of heads mime

abbrev file_head : Bytes → Bytes → Bytes
file_head status mime =
    status
    ++ (crlf
        ++ (codes "Server: Gogogo"
            ++ (crlf
                ++ (codes "Content-Type: "
                    ++ (mime ++ (crlf ++ (codes "Accept-Ranges: bytes" ++ crlf)))))))

abbrev register_new :
    Bytes
    → List (Bytes × FileHeads)
    → RegistryBuilder
    → Option FileHeads
    → FileHeads × (List (Bytes × FileHeads) × RegistryBuilder)
register_new mime heads rb (some h) = (h, (heads, rb))
register_new mime heads rb none =
    let (id200, rb1) = add_head (file_head (codes "HTTP/1.1 200 OK") mime) rb in
    let (id206, rb2) = add_head (file_head (codes "HTTP/1.1 206 Partial Content") mime) rb1 in
    let h : FileHeads = record { head_200 = id200; head_206 = id206 } in
    (h, ((mime, h) ∷ heads, rb2))

-- `registerFileMime`.
unfoldable pub register_file_mime :
    Bytes
    → List (Bytes × FileHeads)
    → RegistryBuilder
    → FileHeads × (List (Bytes × FileHeads) × RegistryBuilder)
unfolding bytes_eq add_head
register_file_mime mime heads rb = register_new mime heads rb (heads_of heads mime)

-- An open file: `size` is what Stat says, `contents` what it holds when it is copied, and a read that
-- reaches the byte at `fails_at` or a later one fails. `cut` is how the reads of a copy cut the bytes: whatever the
-- parts are, they are the bytes.
pub record OpenFile : Type 0 where
  pub has_stat : Bool
  pub seekable : Bool
  pub size : ℕ
  pub contents : Bytes
  pub fails_at : Option ℕ
  pub cut : Bytes → List Bytes
  pub concat-cut : (b : Bytes) → concat (cut b) ≡ b

abbrev pub until_failure : Bytes → ℕ → Option ℕ → Bytes × Option Fault
until_failure b off none = (drop off b, none)
until_failure b off (some k) =
    if leb (length b) k then (drop off b, none) else (take (k - off) (drop off b), some read_failed)

-- The bytes that the reads from an offset on give, and the error that ends them, if it is not the
-- end of the file.
abbrev pub read_from : ℕ → OpenFile → Bytes × Option Fault
read_from off file = until_failure file.contents off file.fails_at

-- `os.Open`, and the table of mime types by the extension of a path.
pub record FileSystem : Type 0 where
  pub opens : Bytes → Option OpenFile
  pub mime_by_path : Bytes → Bytes

abbrev or_octets : Bytes → Bytes
or_octets [] = codes "application/octet-stream"
or_octets (c ∷ m) = c ∷ m

-- `mimeForFile`.
unfoldable pub mime_for_file : FileSystem → Bytes → Bytes
mime_for_file fs path = or_octets (fs.mime_by_path path)

-- `headerValue`, whose `eqASCIIFold` folds as the parser's does.
unfoldable pub header_value : List Header → Bytes → Bytes
unfolding eq_fold_ascii
header_value [] name = []
header_value (h ∷ headers) name =
    let rest = header_value headers name in if eq_fold_ascii h.name name then h.value else rest

abbrev copied : Stream → ℕ → ℕ → Option Fault → Stream
copied rest size n (some f) = returns (some f)
copied rest size n none = if n == size then rest else returns (some broken)

-- `io.Copy` of the parts that are read, and the error of the last read: a failed or short write ends
-- it too.
unfoldable pub copy : List Bytes → Option Fault → Stream
copy [] e = returns e
copy (p ∷ parts) e = let rest = copy parts e in writes p (λ n f. copied rest (length p) n f)

-- At the end of the file, `io.CopyN` reports that bytes are missing.
abbrev pub or_eof : Option Fault → Fault
or_eof none = end_of_file
or_eof (some f) = f

-- `io.CopyN` of the first `n` bytes of the parts.
unfoldable pub copy_n : ℕ → List Bytes → Option Fault → Stream
copy_n zero parts e = returns none
copy_n (suc n) [] e = returns (some (or_eof e))
copy_n (suc n) (p ∷ parts) e =
    let rest = copy_n (suc n - length p) parts e in
    writes (take (suc n) p) (λ k f. copied rest (length (take (suc n) p)) k f)

-- The whole file.
abbrev pub whole_file : OpenFile → Stream
whole_file file = copy (file.cut (read_from 0 file).0) (read_from 0 file).1

abbrev pub end_int : End → ℤ
end_int minus_one = negsuc 0
end_int (at n) = pos n

-- `end - start + 1`, where `start <= end + 1`.
abbrev pub range_length : Range → ℕ
range_length r = elim r.end [ minus_one ↦ 0 - r.start | at n ↦ suc n - r.start ]

-- The part of the file that a range names.
abbrev pub part_of : Range → OpenFile → Stream
part_of r file =
    copy_n (range_length r) (file.cut (read_from r.start file).0) (read_from r.start file).1

abbrev pub serve_part : Resp → FileHeads → OpenFile → Range → Resp
serve_part resp heads file r =
    if not file.seekable
    then server_error resp
    else record (set_content_range (pos r.start) (end_int r.end) (pos file.size)
        (record resp { head_id = heads.head_206 })) { stream = some (part_of r file) }

abbrev pub serve_whole : Resp → FileHeads → OpenFile → Resp
serve_whole resp heads file = record resp {
  head_id = heads.head_200;
  stream = some (whole_file file);
}

-- A range that is not satisfiable gets the whole file.
abbrev pub serve_range : Resp → FileHeads → OpenFile → Option Range → Resp
serve_range resp heads file none = serve_whole resp heads file
serve_range resp heads file (some r) = serve_part resp heads file r

-- The Range header, if it is not empty.
abbrev pub serve_ranged : Resp → FileHeads → OpenFile → Bytes → Resp
serve_ranged resp heads file [] = serve_whole resp heads file
serve_ranged resp heads file (c ∷ range) =
    serve_range resp heads file (parse_byte_range (c ∷ range) file.size)

-- HEAD: a stream that is not run.
abbrev pub serve_open : Req → Resp → OpenFile → Option FileHeads → Resp
serve_open req resp file none = server_error resp
serve_open req resp file (some heads) =
    if is_head_method req.method
    then record resp { head_id = heads.head_200; body = []; stream = some (returns none) }
    else serve_ranged resp heads file (header_value req.headers (codes "Range"))

abbrev pub serve_path : Req → Resp → Option OpenFile → Option FileHeads → Resp
serve_path req resp none heads = not_found resp
serve_path req resp (some file) heads =
    if file.has_stat then serve_open req resp file heads else server_error resp

abbrev pub serve_blob : FileSystem → List (Bytes × FileHeads) → Req → Resp → Option Bytes → Resp
serve_blob fs heads req resp none = server_error resp
serve_blob fs heads req resp (some path) =
    serve_path req resp (fs.opens path) (heads_of heads (mime_for_file fs path))

abbrev pub file_blob : Manifest → ℕ → Option Bytes
file_blob m off = if not (leb off (length m.hole_blobs)) then none else some (drop off m.hole_blobs)

-- `serveFile`; `none` is the panic of an offset outside the blobs.
unfoldable pub serve_file :
    FileSystem → List (Bytes × FileHeads) → Req → RouteEntry → Manifest → Resp → Option Resp
unfolding read_file_blob mime_for_file header_value copy copy_n set_content_range parse_byte_range
    bytes_eq
serve_file fs heads req entry m resp = elim (file_blob m entry.hole_offset) [
  | none ↦ none
  | some blob ↦ some (serve_blob fs heads req resp (read_file_blob blob))
]
