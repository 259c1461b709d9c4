-- ===== src/OutputCache/Encoding.antt =====
-- The encodings of a page in cmd/main/output_cache.go, and the header that asks for them.
use web_spa.Base.{
  ℕ, ◌<◌, ◌≡◌, refl, sym, ap, subst, ◌↔◌, ◌⊎◌, inl, inr, true, ◌&&◌, List, [], ◌∷◌, ◌++◌, Option,
  none, some, Bytes, codes, ltb, length, get_elem?, arith, Bool-cases,
}
use web_spa.Gogohttp.Types.{Header, Req}
use web_spa.Gogohttp.Scan.{eq_fold_ascii}
use web_spa.OutputCache.{
  Variants, starts_with, ends_before, ends_after, token_from, contains_token, accepts,
  accepts_compressed_encodings, pick_hole_variant,
}

-- The last byte of a text, or the one before it.
abbrev pub last_or : Option ℕ → Bytes → Option ℕ
last_or before [] = before
last_or before (x ∷ v) = last_or (some x) v

-- The token stands at a place of the text with a comma, space or tab, or nothing, before it, and
-- one of these, a semicolon or nothing after it.
pub record Occurs (before : Option ℕ) (v tok : Bytes) : Type 0 where
  pub front : Bytes
  pub back : Bytes
  pub split : v ≡ front ++ (tok ++ back)
  pub opens : ends_before (last_or before front) ≡ true
  pub closes : ends_after (get_elem? (tok ++ back) (length tok)) ≡ true

starts_with-append : (tok back : Bytes) → starts_with tok (tok ++ back) ≡ true
unfolding starts_with
starts_with-append [] [] = refl
starts_with-append [] (x ∷ back) = refl
starts_with-append (c ∷ tok) back = ground (arith, starts_with-append tok back)

starts_with-split : (tok v : Bytes) → starts_with tok v ≡ true → (back : Bytes) × (v ≡ tok ++ back)
unfolding starts_with
starts_with-split [] v h = (v, refl)
starts_with-split (c ∷ tok) [] h = absurd (ground arith)
starts_with-split (c ∷ tok) (x ∷ v) h =
    let (back, e) = starts_with-split tok v (ground arith) in
    let same : c ≡ x = ground arith in (back, λ i. sym same i ∷ e i)

token_here :
    (before : Option ℕ) (v tok : Bytes)
    → starts_with tok v ≡ true
    → ends_before before ≡ true
    → ends_after (get_elem? v (length tok)) ≡ true
    → Occurs before v tok
token_here before v tok starts opens closes =
    let (back, e) = starts_with-split tok v starts in
    record {
      front = [];
      back = back;
      split = e;
      opens = opens;
      closes = subst (λ w. ends_after (get_elem? w (length tok)) ≡ true) e closes;
    }

token_from-Occurs :
    (before : Option ℕ) (v tok : Bytes) → token_from before v tok ≡ true → Occurs before v tok
unfolding token_from
token_from-Occurs before [] tok h =
    token_here before [] tok (ground arith) (ground arith) (ground arith)
token_from-Occurs before (x ∷ v) tok h = elim (Bool-cases (token_from (some x) v tok)) [
  | inl later ↦
      let o = token_from-Occurs (some x) v tok later in
      record {
        front = x ∷ o.front;
        back = o.back;
        split = ap (◌∷◌ x) o.split;
        opens = o.opens;
        closes = o.closes;
      }
  | inr nothing ↦ token_here before (x ∷ v) tok (ground arith) (ground arith) (ground arith)
]

Occurs-token_from :
    (before : Option ℕ) (front back tok : Bytes)
    → ends_before (last_or before front) ≡ true
    → ends_after (get_elem? (tok ++ back) (length tok)) ≡ true
    → token_from before (front ++ (tok ++ back)) tok ≡ true
unfolding token_from
Occurs-token_from before [] back tok opens closes =
    at_front (tok ++ back) (starts_with-append tok back) closes
  where
    at_front :
        (v : Bytes)
        → starts_with tok v ≡ true
        → ends_after (get_elem? v (length tok)) ≡ true
        → token_from before v tok ≡ true
    at_front [] s e = ground arith
    at_front (x ∷ v) s e = ground arith
Occurs-token_from before (x ∷ front) back tok opens closes =
    ground (arith, Occurs-token_from (some x) front back tok opens closes)

-- The search finds a token exactly when it stands in the header's value as an item of its own.
pub contains_token_iff : (v tok : Bytes) → (contains_token v tok ≡ true) ↔ Occurs none v tok
unfolding contains_token
contains_token_iff v tok = (
  token_from-Occurs none v tok,
  λ o. rw (o.split) (Occurs-token_from none o.front o.back tok o.opens o.closes),
)

-- A header that is named Accept-Encoding and lists the encoding as an item of its own.
pub record Lists (headers : List Header) (tok : Bytes) : Type 0 where
  pub before : List Header
  pub header : Header
  pub later : List Header
  pub split : headers ≡ before ++ header ∷ later
  pub named : eq_fold_ascii header.name (codes "Accept-Encoding") ≡ true
  pub listed : Occurs none header.value tok

skip_header :
    {headers : List Header} {tok : Bytes} (h : Header) → Lists headers tok → Lists (h ∷ headers) tok
skip_header h l = record {
  before = h ∷ l.before;
  header = l.header;
  later = l.later;
  split = ap (◌∷◌ h) l.split;
  named = l.named;
  listed = l.listed;
}

accepts-Lists :
    (headers : List Header)
    → ((accepts headers).0 ≡ true → Lists headers (codes "br"))
      × ((accepts headers).1 ≡ true → Lists headers (codes "gzip"))
unfolding accepts
accepts-Lists [] = (λ h. absurd (ground arith), λ h. absurd (ground arith))
accepts-Lists (h ∷ headers) = elim (Bool-cases (eq_fold_ascii h.name (codes "Accept-Encoding"))) [
  | inr other ↦
      let (br, gz) = accepts-Lists headers in
      rw (other, accepts) (λ e. skip_header h (br e), λ e. skip_header h (gz e))
  | inl named ↦
      rw (named, accepts)
        (
          λ e. record {
            before = [];
            header = h;
            later = headers;
            split = refl;
            named = named;
            listed = (contains_token_iff h.value (codes "br")).0 e;
          },
          λ e. record {
            before = [];
            header = h;
            later = headers;
            split = refl;
            named = named;
            listed = (contains_token_iff h.value (codes "gzip")).0 e;
          },
        )
]

-- A compressed variant goes only to a client with an Accept-Encoding header that lists its
-- encoding as an item of its own, and only if it has a body; any other client gets the identity.
pub pick_hole_variant-Lists :
    (v : Variants) (req : Req)
    → ((pick_hole_variant v req ≡ v.brotli)
        × Lists req.headers (codes "br")
        × (0 < length v.brotli.body))
      ⊎ (((pick_hole_variant v req ≡ v.gzip)
            × Lists req.headers (codes "gzip")
            × (0 < length v.gzip.body))
          ⊎ (pick_hole_variant v req ≡ v.identity))
unfolding pick_hole_variant accepts_compressed_encodings
pick_hole_variant-Lists v req =
    elim (Bool-cases ((accepts req.headers).0 && ltb 0 (length v.brotli.body))) [
      | inl brotli ↦
          inl (rw brotli refl, (accepts-Lists req.headers).0 (ground arith), ground arith)
      | inr no_brotli ↦ elim (Bool-cases ((accepts req.headers).1 && ltb 0 (length v.gzip.body))) [
        | inl gzip ↦ inr (
            inl (
              rw (no_brotli, gzip) refl,
              (accepts-Lists req.headers).1 (ground arith),
              ground arith,
            ))
        | inr no_gzip ↦ inr (inr (rw (no_brotli, no_gzip) refl))
      ]
    ]
