-- ===== src/Gogohttp/Server/Tests.antt =====
-- The connection loop of modules/gogohttp/server.go on two requests that come in three segments.
use web_spa.Base.{ℕ, false, List, [], ◌∷◌, ◌++◌, none, Bytes, codes, arith}
use web_spa.Gogohttp.Types.{Req}
use web_spa.Gogohttp.Scan.{cr, lf}
use web_spa.Gogohttp.Conn.{Conn}
use web_spa.Gogohttp.Server.{Server, handled, new_conn_state, receive, serve_conn}
use web_spa.Gogohttp.Server.Reading.{stream_of, IsWithin, Reads}
use web_spa.Gogohttp.Server.Framing.{IsReceived, receive-Reads}
use web_spa.Gogohttp.Server.Serving.{IsServed, serve_conn-IsServed}

abbrev crlf : Bytes
crlf = cr ∷ lf ∷ []

-- A handler that logs the requests.
abbrev logging : Server (List Req)
logging = record {
  handler = λ w req resp. handled (w ++ req ∷ []) req resp;
  header_registry = [];
  active_registry = λ w. none;
  date = λ w. [];
  read_header_timeout = 5;
  read_timeout = 0;
  write_timeout = 0;
  idle_timeout = 60;
  max_body_bytes = 1048576;
  max_read_buf = 65536;
}

abbrev segments : Conn
segments = record {
  incoming =
      record { bytes = codes "POST /a HTTP/1.1" ++ (crlf ++ codes "Content-Le"); failed = false }
      ∷ record {
        bytes =
            codes "ngth: 4"
            ++ (crlf ++ (crlf ++ (codes "bodyGET / HTTP/1.1" ++ (crlf ++ cr ∷ []))));
        failed = false;
      }
      ∷ record { bytes = lf ∷ []; failed = false }
      ∷ [];
  faults = [];
  sent = [];
  read_limit = none;
  write_limit = none;
}

abbrev limit : ℕ
limit = 131072

started : IsWithin limit new_conn_state
started = record { inside = omega arith; positive = omega arith; bounded = omega arith }

receive-Reads_example :
    Reads
      (IsReceived ([] ++ stream_of segments.incoming))
      limit
      new_conn_state
      segments
      (receive 200 logging new_conn_state segments)
receive-Reads_example =
    receive-Reads (List Req) logging limit (omega arith) 200 new_conn_state segments started
      (omega arith)

serve_conn-IsServed_example :
    IsServed
      (List Req)
      logging
      limit
      (omega arith)
      []
      ([] ++ stream_of segments.incoming)
      (serve_conn logging [] new_conn_state segments)
serve_conn-IsServed_example =
    serve_conn-IsServed (List Req) logging limit (omega arith) [] new_conn_state segments started
