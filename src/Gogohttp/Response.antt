-- ===== src/Gogohttp/Response.antt =====
-- modules/gogohttp/response.go: the response of a handler and what is written for it.
pub mod Registry
pub mod Reader
pub mod Chunks
pub mod Incoming
mod Tests
use web_spa.Base.{
  ℕ, zero, suc, ◌+◌, ℤ, pos, Bool, true, false, List, [], ◌∷◌, ◌++◌, Option, none, some, Bytes,
  codes, get_elem?, length, decimal, append_int, hex, if◌then◌else◌,
}
use Prim.Native.String.{String}
use web_spa.Gogohttp.Types.{ParseError, line_too_long, headers_too_long, too_many_headers}
use web_spa.Gogohttp.Scan.{cr, lf}
use web_spa.Gogohttp.Conn.{Fault, Conn, invalid_head_id, write}

abbrev pub crlf : Bytes
crlf = cr ∷ lf ∷ []

-- Header lines, each with its CR LF.
abbrev pub lines : List String → Bytes
lines [] = []
lines (s ∷ ss) = codes s ++ (crlf ++ lines ss)

-- The closure of a streamed response: it writes and goes on with the result, or it ends.
pub data Stream : Type 0 where
  writes : Bytes → (ℕ → Option Fault → Stream) → Stream
  returns : Option Fault → Stream
  panics : Stream

-- How a call of the handler's code, or of the writer, ended.
pub data Ended : Type 0 where
  fine panicked : Ended
  fault : Fault → Ended

abbrev pub ended : Option Fault → Ended
ended none = fine
ended (some f) = fault f

-- `registry` is indexed by `head_id`, with `none` for a nil head.
pub record Resp : Type 0 where
  pub head_id : ℕ
  pub extra_headers : Bytes
  pub body : Bytes
  pub stream : Option Stream
  pub hijack : Option (Conn → Conn × Ended)
  pub registry : List (Option Bytes)

-- `Resp.reset` keeps the registry.
abbrev pub reset_resp : Resp → Resp
reset_resp r = record r { head_id = 0; extra_headers = []; body = []; stream = none; hijack = none }

-- `SetContentRange`.
unfoldable pub set_content_range : ℤ → ℤ → ℤ → Resp → Resp
unfolding append_int
set_content_range start end total r = record r {
  extra_headers =
      codes "Content-Range: bytes "
      ++ (append_int start
          ++ (codes "-" ++ (append_int end ++ (codes "/" ++ (append_int total ++ crlf)))));
}

abbrev pub connection_close_line : Bytes
connection_close_line = lines ("Connection: close" ∷ [])

abbrev pub transfer_encoding_chunked : Bytes
transfer_encoding_chunked = lines ("Transfer-Encoding: chunked" ∷ [])

abbrev pub chunked_trailer : Bytes
chunked_trailer = b'0' ∷ crlf ++ crlf

-- The writer that a closure gets: the connection and the error that sticks.
pub record ChunkedWriter : Type 0 where
  pub conn : Conn
  pub err : Option Fault

abbrev pub after_chunk : Bytes → Conn × Option Fault → ChunkedWriter × (ℕ × Option Fault)
after_chunk b (c, none) = (record { conn = c; err = none }, (length b, none))
after_chunk b (c, some f) = (record { conn = c; err = some f }, (0, some f))

abbrev pub chunked_write_fresh : Bytes → Conn → ChunkedWriter × (ℕ × Option Fault)
chunked_write_fresh [] c = (record { conn = c; err = none }, (0, none))
chunked_write_fresh (x ∷ b) c =
    after_chunk (x ∷ b) (write (hex (length (x ∷ b)) ++ (crlf ++ ((x ∷ b) ++ crlf))) c)

abbrev pub chunked_write_at : Bytes → Conn → Option Fault → ChunkedWriter × (ℕ × Option Fault)
chunked_write_at b c (some f) = (record { conn = c; err = some f }, (0, some f))
chunked_write_at b c none = chunked_write_fresh b c

-- `chunkedWriter.Write`.
unfoldable pub chunked_write : Bytes → ChunkedWriter → ChunkedWriter × (ℕ × Option Fault)
unfolding hex write
chunked_write b w = chunked_write_at b w.conn w.err

-- The run of a closure on a writer.
unfoldable pub run_stream : Stream → ChunkedWriter → ChunkedWriter × Ended
unfolding chunked_write
run_stream (writes b next) w = let (w', (n, e)) = chunked_write b w in run_stream (next n e) w'
run_stream (returns e) w = (w, ended e)
run_stream panics w = (w, panicked)

abbrev pub with_end : Conn × Option Fault → Conn × Ended
with_end (c, e) = (c, ended e)

abbrev pub trailer_at : Conn → Option Fault → Conn × Ended
trailer_at c (some f) = (c, fault f)
trailer_at c none = with_end (write chunked_trailer c)

-- `chunkedWriter.writeTrailer`.
unfoldable pub write_trailer : ChunkedWriter → Conn × Ended
unfolding write
write_trailer w = trailer_at w.conn w.err

-- After the closure: the trailer, unless it returned an error.
abbrev pub finish_stream : ChunkedWriter × Ended → Conn × Ended
finish_stream (w, fine) = write_trailer w
finish_stream (w, panicked) = (w.conn, panicked)
finish_stream (w, fault f) = (w.conn, fault f)

abbrev pub stream_after : Stream → Conn × Option Fault → Conn × Ended
stream_after s (c, some f) = (c, fault f)
stream_after s (c, none) = finish_stream (run_stream s (record { conn = c; err = none }))

abbrev pub hijack_after : (Conn → Conn × Ended) → Conn × Option Fault → Conn × Ended
hijack_after h (c, some f) = (c, fault f)
hijack_after h (c, none) = h c

-- The four writers, after the head, the date and the `closeSeg` of `writeTo`.
unfoldable pub write_buffered : Resp → Bytes → Bytes → Bytes → Bool → Conn → Conn × Ended
unfolding write decimal
write_buffered r head date close_seg is_head c = with_end (
    write
      (head
        ++ (date
            ++ (codes "Content-Length: "
                ++ (decimal (length r.body)
                    ++ (crlf
                        ++ (close_seg
                            ++ (r.extra_headers ++ (crlf ++ (if is_head then [] else r.body)))))))))
      c)

unfoldable pub write_stream : Resp → Stream → Bytes → Bytes → Bytes → Conn → Conn × Ended
unfolding write run_stream write_trailer
write_stream r s head date close_seg c = stream_after s (
    write
      (head ++ (date ++ (transfer_encoding_chunked ++ (close_seg ++ (r.extra_headers ++ crlf))))) c)

unfoldable pub write_stream_head : Resp → Bytes → Bytes → Bytes → Conn → Conn × Ended
unfolding write
write_stream_head r head date close_seg c =
    with_end (write (head ++ (date ++ (close_seg ++ (r.extra_headers ++ crlf)))) c)

unfoldable pub write_hijack :
    Resp → (Conn → Conn × Ended) → Bytes → Bytes → Bytes → Conn → Conn × Ended
unfolding write
write_hijack r h head date close_seg c =
    hijack_after h (write (head ++ (date ++ (close_seg ++ (r.extra_headers ++ crlf)))) c)

-- The `switch` of `writeTo`.
abbrev pub write_mode :
    Resp
    → Option (Conn → Conn × Ended)
    → Option Stream
    → Bytes
    → Bytes
    → Bytes
    → Bool
    → Conn
    → Conn × Ended
write_mode r (some h) s head date close_seg is_head c = write_hijack r h head date close_seg c
write_mode r none (some s) head date close_seg true c = write_stream_head r head date close_seg c
write_mode r none (some s) head date close_seg false c = write_stream r s head date close_seg c
write_mode r none none head date close_seg is_head c =
    write_buffered r head date close_seg is_head c

-- The head that `writeTo` finds: an index out of range and a nil entry are both `none`.
abbrev pub registered : List (Option Bytes) → ℕ → Option Bytes
registered registry id = elim (get_elem? registry id) [ none ↦ none | some head ↦ head ]

abbrev pub write_head : Resp → Bytes → Bool → Bool → Conn → Option Bytes → Conn × Ended
write_head r date is_head close_conn c none = (c, fault invalid_head_id)
write_head r date is_head close_conn c (some head) =
    write_mode r r.hijack r.stream head date (if close_conn then connection_close_line else [])
      is_head c

-- `writeTo`; `date` is the line of `CurrentDate`.
unfoldable pub write_to : Bytes → Bool → Bool → Resp → Conn → Conn × Ended
unfolding write_buffered write_stream write_stream_head write_hijack
write_to date is_head close_conn r c =
    write_head r date is_head close_conn c (registered r.registry r.head_id)

-- The complete responses for errors that are found before there is a handler.
abbrev error_response : String → Bytes
error_response status =
    codes "HTTP/1.1 "
    ++ (codes status
        ++ (crlf
            ++ (lines ("Server: Gogogo" ∷ "Content-Length: 0" ∷ "Connection: close" ∷ []) ++ crlf)))

abbrev pub err_resp_400 : Bytes
err_resp_400 = error_response "400 Bad Request"

abbrev pub err_resp_413 : Bytes
err_resp_413 = error_response "413 Payload Too Large"

abbrev pub err_resp_414 : Bytes
err_resp_414 = error_response "414 URI Too Long"

abbrev pub err_resp_431 : Bytes
err_resp_431 = error_response "431 Request Header Fields Too Large"

abbrev pub err_resp_500 : Bytes
err_resp_500 = error_response "500 Internal Server Error"

-- `errResponseFor`; `errBodyTooLarge`, which no caller passes, is no error of the parser.
unfoldable pub err_response_for : ParseError → Bytes
err_response_for line_too_long = err_resp_414
err_response_for headers_too_long = err_resp_431
err_response_for too_many_headers = err_resp_431
err_response_for _ = err_resp_400
