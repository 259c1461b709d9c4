-- ===== src/Compiler/Tests.antt =====
-- A static route that cmd/build/v2_compiler.go puts into an empty manifest.
use web_spa.Base.{◌∷◌, codes, arith}
use web_spa.Compiler.{Compressors, new_v2_compiler, new_entry, fill_static_variants}
use web_spa.Compiler.Payloads.{IsFilled, fill_static_variants-IsFilled}

abbrev marks : Compressors
marks = record { gzip = λ b. 31 ∷ b; brotli = λ b. 27 ∷ b }

fill_static_variants-IsFilled_example :
    IsFilled marks new_v2_compiler (codes "<p>hi</p>") (codes "text/html") (
      fill_static_variants marks new_v2_compiler
        (new_entry new_v2_compiler (codes "about") 0 3)
        (codes "<p>hi</p>")
        (codes "text/html"))
fill_static_variants-IsFilled_example =
    fill_static_variants-IsFilled marks new_v2_compiler
      (new_entry new_v2_compiler (codes "about") 0 3) (codes "<p>hi</p>") (codes "text/html")
      (omega arith)
