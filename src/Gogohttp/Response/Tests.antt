-- ===== src/Gogohttp/Response/Tests.antt =====
-- Streamed responses of modules/gogohttp/response.go on a connection.
use web_spa.Base.{
  suc, ◌≡◌, refl, true, false, [], ◌∷◌, ◌++◌, some, none, Bytes, codes, hex, hex_from, length,
}
use web_spa.Gogohttp.Conn.{Conn, write}
use web_spa.Gogohttp.Response.{
  Resp, Stream, writes, returns, fine, chunked_write, run_stream, finish_stream, write_trailer,
  write_stream, write_to,
}
use web_spa.Gogohttp.Response.Chunks.{
  IsCut, FailsAt, run_stream-IsCut, streamed_head, written, write_to-read_chunked,
}
use web_spa.Gogohttp.Response.Reader.{read_chunked, concat}

abbrev hello : Stream
hello = writes (codes "hello") (λ n e. writes [] (λ m f. writes (codes " you") (λ k g. returns g)))

abbrev open_conn : Conn
open_conn = record {
  incoming = [];
  faults = none ∷ none ∷ [];
  sent = codes "before";
  read_limit = none;
  write_limit = none;
}

-- The first write goes out, the third fails after four bytes.
abbrev failing_conn : Conn
failing_conn = record open_conn { faults = none ∷ some 4 ∷ [] }

abbrev failed_conn : Conn
failed_conn = record open_conn {
  faults = [];
  sent = codes "before5" ++ 13 ∷ 10 ∷ codes "hello" ++ 13 ∷ 10 ∷ codes "4" ++ 13 ∷ 10 ∷ codes " ";
}

hello-FailsAt : FailsAt hello failing_conn failed_conn
unfolding FailsAt write hex hex_from
hello-FailsAt = refl

run_stream-IsCut_example :
    IsCut failed_conn
      (finish_stream (run_stream hello (record { conn = failing_conn; err = none })))
run_stream-IsCut_example = run_stream-IsCut hello failing_conn failed_conn hello-FailsAt

abbrev streamed : Resp
streamed = record {
  head_id = 1;
  extra_headers = [];
  body = [];
  stream = some hello;
  hijack = none;
  registry = none ∷ some (codes "HTTP/1.1 200 OK") ∷ [];
}

abbrev sent_conn : Conn
sent_conn = (write_to (codes "Date") false true streamed open_conn).0

ends_well : write_to (codes "Date") false true streamed open_conn ≡ (sent_conn, fine)
unfolding write_to write_stream write run_stream chunked_write hex hex_from write_trailer
ends_well = refl

write_to-read_chunked_example :
    (body : Bytes) × (sent_conn.sent
      ≡ open_conn.sent
        ++ (streamed_head streamed (codes "Date") (codes "HTTP/1.1 200 OK") true ++ body))
    × (read_chunked (suc (length (written hello))) (body ++ codes "next")
        ≡ some (concat (written hello), codes "next"))
write_to-read_chunked_example =
    write_to-read_chunked streamed hello (codes "Date") (codes "HTTP/1.1 200 OK") refl refl refl
      true open_conn sent_conn (codes "next") ends_well
