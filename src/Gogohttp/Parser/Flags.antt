-- ===== src/Gogohttp/Parser/Flags.antt =====
-- The flags `hasCL` and `hasTE` of `Parse` in modules/gogohttp/parser.go, against the headers that
-- are stored.
use web_spa.Base.{
  ℕ, ◌+◌, ◌<◌, ◌≡◌, refl, ◌∙◌, Bool, true, false, not, ◌||◌, List, [], ◌∷◌, ◌++◌, none, some, Bytes,
  codes, arith, ◌==◌, all, count_p, count_p-append, all-append, if◌then◌else◌,
}
use web_spa.Gogohttp.Types.{Header, ContentLength, absent, chunked, explicit}
use web_spa.Gogohttp.Scan.{eq_fold_ascii, parse_decimal}
use web_spa.Gogohttp.Scan.Fold.{eq_fold_ascii-length}
use web_spa.Gogohttp.Parser.{accept, Framing, apply_header}

abbrev pub is_cl : Bytes → Bool
is_cl name = eq_fold_ascii name (codes "Content-Length")

abbrev pub is_te : Bytes → Bool
is_te name = eq_fold_ascii name (codes "Transfer-Encoding")

-- How many headers have such a name.
abbrev pub cl_count : List Header → ℕ
cl_count = count_p (λ h. is_cl h.name)

abbrev pub te_count : List Header → ℕ
te_count = count_p (λ h. is_te h.name)

-- Each Transfer-Encoding header says "chunked".
abbrev pub all_chunked : List Header → Bool
all_chunked = all (λ h. not (is_te h.name) || eq_fold_ascii h.value (codes "chunked"))

abbrev pub decodes_to : ℕ → Bytes → Bool
decodes_to n value = elim (parse_decimal value) [ none ↦ false | some m ↦ m == n ]

-- Each Content-Length header is a decimal numeral of value `n`.
abbrev pub all_decode : ℕ → List Header → Bool
all_decode n = all (λ h. not (is_cl h.name) || decodes_to n h.value)

-- How headers frame the body: by nothing, by one Content-Length, or by chunked Transfer-Encoding.
abbrev pub IsFramed : ContentLength → List Header → Type 0
IsFramed absent hs = (cl_count hs ≡ 0) × (te_count hs ≡ 0)
IsFramed (explicit n) hs = (cl_count hs ≡ 1) × (te_count hs ≡ 0) × (all_decode n hs ≡ true)
IsFramed chunked hs = (cl_count hs ≡ 0) × (0 < te_count hs) × (all_chunked hs ≡ true)

-- What the flags and the length of the loop say of the headers stored so far.
abbrev pub FlagsAgree : Bool → Bool → ContentLength → List Header → Type 0
FlagsAgree false false cl hs =
    (cl ≡ absent) × (cl_count hs ≡ 0) × (te_count hs ≡ 0) × (all_chunked hs ≡ true)
FlagsAgree true false cl hs =
    (n : ℕ) × (cl ≡ explicit n)
    × (cl_count hs ≡ 1)
    × (te_count hs ≡ 0)
    × (all_decode n hs ≡ true)
    × (all_chunked hs ≡ true)
FlagsAgree false true cl hs =
    (cl ≡ chunked) × (cl_count hs ≡ 0) × (0 < te_count hs) × (all_chunked hs ≡ true)
FlagsAgree true true cl hs = (0 < cl_count hs) × (0 < te_count hs)

abbrev pub Agrees : Framing → Type 0
Agrees st = FlagsAgree st.has_cl st.has_te st.req.content_length st.req.headers

-- A name is at most one of the two, since their lengths differ.
pub names_differ : (name : Bytes) → is_cl name ≡ true → is_te name ≡ true → ⊥
names_differ name h k = omega (
  arith,
  eq_fold_ascii-length name (codes "Content-Length") h,
  eq_fold_ascii-length name (codes "Transfer-Encoding") k,
)

pub apply_header-other :
    (name value : Bytes) (st st' : Framing)
    → is_cl name ≡ false
    → is_te name ≡ false
    → apply_header name value st ≡ accept st'
    → (st'.has_cl ≡ st.has_cl)
      × (st'.has_te ≡ st.has_te)
      × (st'.req.content_length ≡ st.req.content_length)
unfolding apply_header
apply_header-other name value st st' h k e = ground arith

pub apply_header-cl :
    (name value : Bytes) (st st' : Framing)
    → is_cl name ≡ true
    → apply_header name value st ≡ accept st'
    → (st.has_cl ≡ false)
      × (st'.has_cl ≡ true)
      × (st'.has_te ≡ st.has_te)
      × (n : ℕ) × (parse_decimal value ≡ some n)
      × (st'.req.content_length ≡ explicit n)
unfolding apply_header
apply_header-cl name value st st' h e =
    ground (arith, eq_fold_ascii-length name (codes "Content-Length") h)

pub apply_header-te :
    (name value : Bytes) (st st' : Framing)
    → is_te name ≡ true
    → apply_header name value st ≡ accept st'
    → (eq_fold_ascii value (codes "chunked") ≡ true)
      × (st'.has_cl ≡ st.has_cl)
      × (st'.has_te ≡ true)
      × (st'.req.content_length ≡ chunked)
unfolding apply_header
apply_header-te name value st st' h e =
    ground (arith, eq_fold_ascii-length name (codes "Transfer-Encoding") h)

all_decode_of_none : (n : ℕ) (hs : List Header) → cl_count hs ≡ 0 → all_decode n hs ≡ true
all_decode_of_none n [] h = refl
all_decode_of_none n (x ∷ hs) h = ground (arith, all_decode_of_none n hs)

module _ (hs : List Header) (h : Header) where
  cl_count-push : cl_count (hs ++ h ∷ []) ≡ cl_count hs + (if is_cl h.name then 1 else 0)
  cl_count-push = count_p-append _ hs (h ∷ []) ∙ (ground arith)

  te_count-push : te_count (hs ++ h ∷ []) ≡ te_count hs + (if is_te h.name then 1 else 0)
  te_count-push = count_p-append _ hs (h ∷ []) ∙ (ground arith)

  all_chunked-push :
      all_chunked hs ≡ true
      → (is_te h.name ≡ true → eq_fold_ascii h.value (codes "chunked") ≡ true)
      → all_chunked (hs ++ h ∷ []) ≡ true
  all_chunked-push e k = all-append _ hs (h ∷ []) ∙ (ground arith)

  all_decode-push :
      (n : ℕ)
      → all_decode n hs ≡ true
      → (is_cl h.name ≡ true → parse_decimal h.value ≡ some n)
      → all_decode n (hs ++ h ∷ []) ≡ true
  all_decode-push n e k = all-append _ hs (h ∷ []) ∙ (ground arith)

  pub push_other :
      (a b : Bool) (cl : ContentLength)
      → is_cl h.name ≡ false
      → is_te h.name ≡ false
      → FlagsAgree a b cl hs
      → FlagsAgree a b cl (hs ++ h ∷ [])
  push_other false false cl p q f = ground (arith, cl_count-push, te_count-push, all_chunked-push)
  push_other true false cl p q (n, e, one, zero_te, decodes, chunks) = (
    n,
    e,
    ground (arith, cl_count-push),
    ground (arith, te_count-push),
    all_decode-push n decodes (λ r. absurd (ground arith)),
    all_chunked-push chunks (λ r. absurd (ground arith)),
  )
  push_other false true cl p q f = ground (arith, cl_count-push, te_count-push, all_chunked-push)
  push_other true true cl p q f = ground (arith, cl_count-push, te_count-push)

  pub push_cl :
      (b : Bool) (cl : ContentLength) (n : ℕ)
      → is_cl h.name ≡ true
      → is_te h.name ≡ false
      → parse_decimal h.value ≡ some n
      → FlagsAgree false b cl hs
      → FlagsAgree true b (explicit n) (hs ++ h ∷ [])
  push_cl false cl n p q d f = (
    n,
    refl,
    ground (arith, cl_count-push),
    ground (arith, te_count-push),
    all_decode-push n (all_decode_of_none n hs f.1) (λ _. d),
    ground (arith, all_chunked-push),
  )
  push_cl true cl n p q d f = ground (arith, cl_count-push, te_count-push)

  pub push_te :
      (a b : Bool) (cl : ContentLength)
      → is_cl h.name ≡ false
      → is_te h.name ≡ true
      → eq_fold_ascii h.value (codes "chunked") ≡ true
      → FlagsAgree a b cl hs
      → FlagsAgree a true chunked (hs ++ h ∷ [])
  push_te false false cl p q d f = ground (arith, cl_count-push, te_count-push, all_chunked-push)
  push_te true false cl p q d f = ground (arith, cl_count-push, te_count-push)
  push_te false true cl p q d f = ground (arith, cl_count-push, te_count-push, all_chunked-push)
  push_te true true cl p q d f = ground (arith, cl_count-push, te_count-push)
