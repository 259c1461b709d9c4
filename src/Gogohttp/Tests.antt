-- ===== src/Gogohttp/Tests.antt =====
-- The parser of modules/gogohttp on requests.
use web_spa.Base.{◌≡◌, refl, ◌↔◌, ◌≢◌, Bytes, codes, ◌++◌, ◌∷◌, [], some, length, true, bytes_eq}
use web_spa.Gogohttp.Types.{index_byte}
use web_spa.Gogohttp.Scan.{
  cr, lf, find_eol, find_eol_from, fold_ascii, eq_fold_ascii, parse_decimal, parse_decimal_from,
  is_token_char, method_from_bytes,
}
use web_spa.Gogohttp.Scan.Decimal.{IsDecimal, parse_decimal_iff}
use web_spa.Gogohttp.Parser.{
  parse, parse_request_line, index_after_start, parse_version, headers_loop, header_step,
  header_line, start_framing, parse_header, store_header, apply_header, finish, finish_cr,
  split_target, trim_left, trim_right,
}
use web_spa.Gogohttp.Parser.Loop.{InBounds, parse-InBounds}
use web_spa.Gogohttp.Parser.Stable.{is_settled, parse-append}
use web_spa.Gogohttp.Parser.Smuggling.{FramedOutcome, parse-FramedOutcome}

abbrev crlf : Bytes
crlf = cr ∷ lf ∷ []

abbrev request : Bytes
request =
    codes "POST /a?b=c HTTP/1.1"
    ++ (crlf ++ (codes "Content-Length: 12" ++ (crlf ++ (codes "Host: x" ++ (crlf ++ crlf)))))

abbrev more : Bytes
more = codes "GET / HTTP/1.1"

parse-FramedOutcome_example : FramedOutcome (parse request)
parse-FramedOutcome_example = parse-FramedOutcome request

parse-InBounds_example : InBounds 0 (length request) (parse request)
parse-InBounds_example = parse-InBounds request

settled : is_settled (parse request) ≡ true
unfolding parse find_eol find_eol_from parse_request_line index_after_start index_byte
    method_from_bytes bytes_eq parse_version headers_loop header_step header_line start_framing
    parse_header store_header is_token_char apply_header eq_fold_ascii finish finish_cr split_target
    trim_left trim_right fold_ascii parse_decimal parse_decimal_from
settled = refl

parse-append_example : parse (request ++ more) ≡ parse request
parse-append_example = parse-append request more settled

parse_decimal_iff_example :
    (parse_decimal (codes "120") ≡ some 120) ↔ ((codes "120" ≢ []) × IsDecimal 0 (codes "120") 120)
parse_decimal_iff_example = parse_decimal_iff (codes "120") 120
