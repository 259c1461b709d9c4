-- ===== src/Compiler/Payloads.antt =====
-- `AddStaticRoute` of cmd/build/v2_compiler.go: where the bodies of a route stand in the payloads.
use web_spa.Base.{
  ℕ, ◌+◌, ◌%◌, ◌<◌, ◌^◌, ◌≡◌, refl, ap, true, false, ◌&&◌, [], ◌++◌, some, Bytes, codes, ltb,
  ge→ltb, length, drop, length-append, take-length, drop-length, length-drop, drop-append_of_le,
  take-append_of_le, append-nil, subst, ltb→ge, append_assoc, arith, Bool-cases, Option-cases, inl,
  inr,
}
use web_spa.Gogohttp.Response.Registry.{id_of, mime_key}
use web_spa.Router.Manifest.{Variant, RouteEntry, slice}
use web_spa.Compiler.{
  V2Compiler, intern_mime, add_variant, fill_static_variants, Compressors, is_compressible,
}

-- The variant names these bytes of the payloads.
abbrev pub Holds : Bytes → Variant → Bytes → Type 0
Holds payloads v body = slice payloads v.data_offset v.data_len ≡ some body

slice-middle : (a b c : Bytes) → slice (a ++ (b ++ c)) (length a) (length b) ≡ some b
unfolding slice
slice-middle a b c =
    let inside : ltb (length (a ++ (b ++ c))) (length a + length b) ≡ false =
      ge→ltb _ _ (omega (arith, length-append a (b ++ c), length-append b c)) in
    rw inside (rw (drop-length a (b ++ c), take-length b c) refl)

intern_mime-payloads :
    (c : V2Compiler) (m encoding : Bytes) → (intern_mime c m encoding).0.payloads ≡ c.payloads
unfolding intern_mime
intern_mime-payloads c m encoding = elim (Option-cases (id_of c.mime_idx (mime_key m encoding))) [
  | inl missing ↦ rw missing refl
  | inr (id, found) ↦ rw found refl
]

-- A new variant holds its body, also after more bytes.
add_variant-Holds :
    (c : V2Compiler) (m encoding body more : Bytes)
    → length c.payloads + length body < 2 ^ 32
    → Holds
        ((add_variant c m encoding body).0.payloads ++ more)
        (add_variant c m encoding body).1
        body
unfolding add_variant
add_variant-Holds c m encoding body more small =
    let off : length c.payloads % 2 ^ 32 ≡ length c.payloads = omega arith in
    let len : length body % 2 ^ 32 ≡ length body = omega arith in
    rw (intern_mime-payloads c m encoding)
      (rw (off, len, append_assoc c.payloads body more) (slice-middle c.payloads body more))

add_variant-payloads :
    (c : V2Compiler) (m encoding body : Bytes)
    → (add_variant c m encoding body).0.payloads ≡ c.payloads ++ body
unfolding add_variant
add_variant-payloads c m encoding body =
    ap (λ (b : Bytes). b ++ body) (intern_mime-payloads c m encoding)

-- More bytes at the end change nothing for the variants that are there.
slice-append :
    (a more : Bytes) (off len : ℕ) (b : Bytes)
    → slice a off len ≡ some b
    → slice (a ++ more) off len ≡ some b
unfolding slice
slice-append a more off len b h = elim (Bool-cases (ltb (length a) (off + len))) [
  | inl outside ↦ absurd (ground arith)
  | inr inside ↦
      let still : ltb (length (a ++ more)) (off + len) ≡ false =
        ge→ltb _ _ (omega (arith, length-append a more, ltb→ge _ _ inside)) in
      rw still (
        rw
          (
            drop-append_of_le off a more (omega (arith, ltb→ge _ _ inside)),
            take-append_of_le len (drop off a) more
                (omega (arith, length-drop off a, ltb→ge _ _ inside)),
          )
          (rw inside at h))
]

-- The payloads of the new route: each of its variants names exactly its bytes, and every variant that
-- was there still names the bytes that it named.
pub record IsFilled (z : Compressors) (c : V2Compiler) (body m : Bytes)
    (o : V2Compiler × RouteEntry) : Type 0 where
  pub plain : Holds o.0.payloads o.1.identity body
  pub compressed :
      (is_compressible m && ltb 0 (length body)) ≡ true
      → Holds o.0.payloads o.1.gzip (z.gzip body) × Holds o.0.payloads o.1.brotli (z.brotli body)
  pub kept : (v : Variant) (b : Bytes) → Holds c.payloads v b → Holds o.0.payloads v b

module _ (z : Compressors) (c : V2Compiler) (entry : RouteEntry) (body m : Bytes)
    (small : length c.payloads + length body + length (z.gzip body) + length (z.brotli body)
      < 2 ^ 32) where
  abbrev c1 : V2Compiler
  c1 = (add_variant c m [] body).0

  abbrev c2 : V2Compiler
  c2 = (add_variant c1 m (codes "gzip") (z.gzip body)).0

  abbrev c3 : V2Compiler
  c3 = (add_variant c2 m (codes "br") (z.brotli body)).0

  p1 : c1.payloads ≡ c.payloads ++ body
  p1 = add_variant-payloads c m [] body

  p2 : c2.payloads ≡ c1.payloads ++ z.gzip body
  p2 = add_variant-payloads c1 m (codes "gzip") (z.gzip body)

  p3 : c3.payloads ≡ c2.payloads ++ z.brotli body
  p3 = add_variant-payloads c2 m (codes "br") (z.brotli body)

  grows :
      (a a' more : Bytes) (v : Variant) (b : Bytes) → a' ≡ a ++ more → Holds a v b → Holds a' v b
  grows a a' more v b e h = rw e (slice-append a more v.data_offset v.data_len b h)

  Holds-alone :
      (c : V2Compiler) (encoding b : Bytes)
      → length c.payloads + length b < 2 ^ 32
      → Holds (add_variant c m encoding b).0.payloads (add_variant c m encoding b).1 b
  Holds-alone c encoding b h =
      subst (λ (p : Bytes). Holds p (add_variant c m encoding b).1 b)
        (append-nil (add_variant c m encoding b).0.payloads) (add_variant-Holds c m encoding b [] h)

  plain_at : Holds c1.payloads (add_variant c m [] body).1 body
  plain_at = Holds-alone c [] body (omega arith)

  gzip_at : Holds c2.payloads (add_variant c1 m (codes "gzip") (z.gzip body)).1 (z.gzip body)
  gzip_at =
      Holds-alone c1 (codes "gzip") (z.gzip body)
        (omega (arith, ap length p1, length-append c.payloads body))

  brotli_at : Holds c3.payloads (add_variant c2 m (codes "br") (z.brotli body)).1 (z.brotli body)
  brotli_at = Holds-alone c2 (codes "br") (z.brotli body) (
      omega (
        arith,
        ap length p1,
        ap length p2,
        length-append c.payloads body,
        length-append c1.payloads (z.gzip body),
      ))

  -- Where the payloads with the new bodies fit 32 bits, the variants that fillStaticVariants gives an
  -- entry name the body and, if it is not empty and its type is compressible, its two compressed
  -- forms; and all variants of the payloads before name the same bytes as before.
  pub fill_static_variants-IsFilled : IsFilled z c body m (fill_static_variants z c entry body m)
  unfolding fill_static_variants
  fill_static_variants-IsFilled = elim (Bool-cases (is_compressible m && ltb 0 (length body))) [
    | inl both ↦
        let plain_v = (add_variant c m [] body).1 in
        let gzip_v = (add_variant c1 m (codes "gzip") (z.gzip body)).1 in
        rw both (record {
          plain = grows _ _ _ plain_v body p3 (grows _ _ _ plain_v body p2 plain_at);
          compressed = λ _. (grows _ _ _ gzip_v (z.gzip body) p3 gzip_at, brotli_at);
          kept = λ v b h. grows _ _ _ v b p3 (grows _ _ _ v b p2 (grows _ _ _ v b p1 h));
        })
    | inr one ↦ rw one (record {
      plain = plain_at;
      compressed = λ h. absurd (ground arith);
      kept = λ v b h. grows _ _ _ v b p1 h;
    })
  ]
