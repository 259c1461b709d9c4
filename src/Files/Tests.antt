-- ===== src/Files/Tests.antt =====
-- The byte ranges of cmd/main/files.go on concrete headers.
use web_spa.Base.{◌≡◌, refl, false, codes, ◌++◌, [], some, none, arith}
use web_spa.Gogohttp.Types.{index_byte}
use web_spa.Fastdb.Tables.{has_prefix}
use web_spa.Files.{Signed, Range, at, minus_one, parse_int, digits, digits_from, parse_byte_range}
use web_spa.Files.Bounds.{Within, parse_byte_range-Within, parse_byte_range-empty}

abbrev tail : Range
tail = record { start = 5; end = at 9 }

served : parse_byte_range (codes "bytes=5-20") 10 ≡ some tail
unfolding parse_byte_range has_prefix index_byte parse_int digits digits_from
served = refl

parse_byte_range-Within_example : Within 10 tail
parse_byte_range-Within_example =
    parse_byte_range-Within (codes "bytes=5-20") 10 (omega arith) served

abbrev five : Signed
five = record { negative = false; size = 5 }

plain : index_byte (codes "5") b',' ≡ none
unfolding index_byte
plain = refl

number : parse_int (codes "5") ≡ some five
unfolding parse_int digits digits_from
number = refl

parse_byte_range-empty_example :
    parse_byte_range (codes "bytes=-" ++ codes "5") 0 ≡ some (record { start = 0; end = minus_one })
parse_byte_range-empty_example = parse_byte_range-empty b'5' [] five plain number refl (omega arith)
