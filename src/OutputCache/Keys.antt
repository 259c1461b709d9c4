-- ===== src/OutputCache/Keys.antt =====
-- The part of a page's key in cmd/main/output_cache.go that comes from the URL bindings.
use mathlib.Core.List.{append_cancel_left}
use web_spa.Base.{
  ◌≡◌, refl, subst, Bool, true, not, ◌&&◌, List, [], ◌∷◌, ◌++◌, Bytes, ◌==◌, all, arith,
  append_assoc, ℕ, ◌≤◌, ◌≢◌, ap, Option, none, some, length, length-append,
}
use web_spa.Gogohttp.Types.{Req}
use web_spa.Lru.{find}
use web_spa.Lru.Sound.{IsSound}
use web_spa.OutputCache.Pages.{compose_hole_body_cached_again}
use web_spa.Router.Trie.{Param}
use web_spa.OutputCache.{
  binding_bytes, hash_bindings, OutputKey, output_key, OutputCache, Site, page_tables,
  page_variants, entry_size, compose_hole_body_cached, pick_hole_variant,
}

abbrev pub no_nul : Bytes → Bool
no_nul v = all (λ c. not (c == 0)) v

-- The values of the bindings of one route hold no NUL byte.
abbrev pub nul_free : List Param → Bool
nul_free [] = true
nul_free (b ∷ bs) = no_nul b.value && nul_free bs

abbrev pub names : List Param → List Bytes
names [] = []
names (b ∷ bs) = b.name ∷ names bs

-- A text is read back up to the first NUL byte.
nul_split :
    (v w r s : Bytes)
    → no_nul v ≡ true
    → no_nul w ≡ true
    → v ++ 0 ∷ r ≡ w ++ 0 ∷ s
    → (v ≡ w) × (r ≡ s)
nul_split [] [] r s h k e = (refl, cc)
nul_split [] (y ∷ w) r s h k e = absurd (ground arith)
nul_split (x ∷ v) [] r s h k e = absurd (ground arith)
nul_split (x ∷ v) (y ∷ w) r s h k e =
    let (vw, rs) = nul_split v w r s (ground arith) (ground arith) (cc) in
    let xy : x ≡ y = cc in ((λ i. xy i ∷ vw i), rs)

-- For the bindings of one route, which have the same names in the same order, and no NUL byte in a
-- value: different bindings are hashed from different bytes.
pub binding_bytes_inj :
    (bs cs : List Param)
    → names bs ≡ names cs
    → nul_free bs ≡ true
    → nul_free cs ≡ true
    → binding_bytes bs ≡ binding_bytes cs
    → bs ≡ cs
unfolding binding_bytes
binding_bytes_inj [] [] n h k e = refl
binding_bytes_inj [] (c ∷ cs) n h k e = absurd (ground arith)
binding_bytes_inj (b ∷ bs) [] n h k e = absurd (ground arith)
binding_bytes_inj (b ∷ bs) (c ∷ cs) n h k e =
    let name : b.name ≡ c.name = ground arith in
    let texts = append_cancel_left c.name _ _ (
      subst
        (λ m.
          m ++ (b'=' ∷ (b.value ++ (0 ∷ binding_bytes bs)))
          ≡ c.name ++ (b'=' ∷ (c.value ++ (0 ∷ binding_bytes cs))))
        name e) in
    let (value, rest) =
      nul_split b.value c.value (binding_bytes bs) (binding_bytes cs) (ground arith) (ground arith)
        (cc) in
    let tail = binding_bytes_inj bs cs (ground arith) (ground arith) (ground arith) rest in
    (λ i. record { name = name i; value = value i } ∷ tail i)

-- Bindings of one route with a NUL byte in a value.
abbrev pub nul_early : Bytes → Bytes → Bytes → Bytes → Bytes → List Param
nul_early a b x y z =
    record { name = a; value = x ++ 0 ∷ (b ++ b'=' ∷ y) } ∷ record { name = b; value = z } ∷ []

abbrev pub nul_late : Bytes → Bytes → Bytes → Bytes → Bytes → List Param
nul_late a b x y z =
    record { name = a; value = x } ∷ record { name = b; value = y ++ 0 ∷ (b ++ b'=' ∷ z) } ∷ []

abbrev pub key_of : ℕ → ℕ → List Param → OutputKey
key_of manifest off bindings = record {
  manifest = manifest;
  off = off;
  params = hash_bindings bindings;
}

same_hash :
    (a b x y z : Bytes) → hash_bindings (nul_early a b x y z) ≡ hash_bindings (nul_late a b x y z)
unfolding hash_bindings binding_bytes
same_hash a b x y z = simp (append_assoc)

longer : (x r : Bytes) → x ++ 0 ∷ r ≢ x
longer x r h = absurd (omega (arith, ap length h, length-append x (0 ∷ r)))

first_value : List Param → Bytes
first_value [] = []
first_value (p ∷ ps) = p.value

-- With a NUL byte in a value, a page is served for other bindings than those it was composed for:
-- these two lists of bindings of one route, which have the same names, differ, and when the page of
-- the first is composed, by a request that finds nothing in a sound cache, all its holes having
-- tables and the page fitting, then the next request for the second list is answered with it.
pub hash_bindings_collide :
    (a b x y z : Bytes) (manifest off : ℕ) (site : Site) (head head' : ℕ) (body : Bytes)
    (body' : Option Bytes) (req req' : Req) (oc : OutputCache) {tables : List Bytes}
    → IsSound oc.lru
    → find (key_of manifest off (nul_early a b x y z)) oc.lru.items ≡ none
    → page_tables (site.holes (key_of manifest off (nul_early a b x y z))) ≡ some tables
    → 1 ≤ oc.lru.max_entries
    → entry_size (page_variants site head body) tables ≤ oc.lru.max_bytes
    → (nul_early a b x y z ≢ nul_late a b x y z)
      × (names (nul_early a b x y z) ≡ names (nul_late a b x y z))
      × ((compose_hole_body_cached site
            (key_of manifest off (nul_late a b x y z))
            head'
            body'
            req'
            (compose_hole_body_cached site
              (key_of manifest off (nul_early a b x y z))
              head
              (some body)
              req
              oc).0).1
          ≡ some (pick_hole_variant (page_variants site head body) req'))
unfolding first_value
hash_bindings_collide a b x y z manifest off site head head' body body' req req' oc s miss known
      room fits =
    (
      (λ e. longer x (b ++ b'=' ∷ y) (ap first_value e)),
      refl,
      subst
          (λ (n : ℕ).
            (compose_hole_body_cached site (record { manifest = manifest; off = off; params = n })
              head' body' req'
              (compose_hole_body_cached site (key_of manifest off (nul_early a b x y z)) head
                (some body) req oc).0).1
            ≡ some (pick_hole_variant (page_variants site head body) req'))
          (same_hash a b x y z)
          (compose_hole_body_cached_again site (key_of manifest off (nul_early a b x y z)) head
            head' body body' req req' oc s miss known room fits),
    )
