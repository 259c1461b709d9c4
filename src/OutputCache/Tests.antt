-- ===== src/OutputCache/Tests.antt =====
-- The cache of finished pages of cmd/main/output_cache.go on concrete pages.
use web_spa.Base.{
  ℕ, ◌≡◌, ◌≢◌, ◌≤◌, ◌<◌, ◌↔◌, ◌⊎◌, refl, true, bytes_eq, codes, List, ◌∷◌, [], some, none, length,
  arith, if◌then◌else◌,
}
use web_spa.Lru.{find, has_table}
use web_spa.Lru.Lookup.{unless_listed}
use web_spa.Lru.Sound.{IsSound}
use web_spa.Router.Trie.{Param}
use web_spa.Holes.{HoleRecord}
use web_spa.Gogohttp.Types
use web_spa.Gogohttp.Types.{Req}
use web_spa.OutputCache.{
  output_key, OutputKey, Variants, new_output_cache, Site, page_variants, page_tables, get,
  invalidate, entry_size, tables_bytes, any_nil, union_tables, union_from, add_tables,
  contains_token, pick_hole_variant, compose_hole_body_cached,
}
use web_spa.OutputCache.Keys.{
  names, nul_early, nul_late, key_of, binding_bytes_inj, hash_bindings_collide,
}
use web_spa.OutputCache.Encoding.{Occurs, Lists, contains_token_iff, pick_hole_variant-Lists}
use web_spa.OutputCache.Pages.{
  changed, run, run-new_output_cache-IsSound, get-invalidate, compose_hole_body_cached_again,
}

abbrev key : OutputKey
key = record { manifest = 1; off = 1; params = 0 }

abbrev hole : HoleRecord
hole = record { position = 0; sql = codes "q"; template = []; tables = some (codes "news" ∷ []) }

abbrev site : Site
site = record {
  holes = λ k. some (hole ∷ []);
  gzip = λ b. codes "z";
  brotli = λ b. codes "b";
  head_gzip = 1;
  head_brotli = 2;
}

abbrev request : Req
request = record Types.reset {
  headers = record { name = codes "Accept-Encoding"; value = codes "gzip, br" } ∷ [];
}

abbrev page : Variants
page = page_variants site 0 (codes "hi")

run-new_output_cache-IsSound_example :
    IsSound (run (changed (codes "news") ∷ []) new_output_cache).lru
run-new_output_cache-IsSound_example = run-new_output_cache-IsSound (changed (codes "news") ∷ [])

empty-IsSound : IsSound new_output_cache.lru
unfolding run
empty-IsSound = run-new_output_cache-IsSound []

get-invalidate_example : (get key (invalidate (codes "news") new_output_cache)).1 ≡ (
    if bytes_eq (codes "news") []
    then none
    else unless_listed (codes "news") (get key new_output_cache).1)
get-invalidate_example = get-invalidate (codes "news") key new_output_cache empty-IsSound

no_page : find key new_output_cache.lru.items ≡ none
unfolding find new_output_cache
no_page = refl

known : page_tables (site.holes key) ≡ some (codes "news" ∷ [])
unfolding union_tables any_nil union_from add_tables has_table
known = refl

fits :
    (1 ≤ new_output_cache.lru.max_entries)
    × (entry_size page (codes "news" ∷ []) ≤ new_output_cache.lru.max_bytes)
unfolding new_output_cache entry_size tables_bytes
fits = omega arith

compose_hole_body_cached_again_example :
    (compose_hole_body_cached site key 0 none request
      (compose_hole_body_cached site key 0 (some (codes "hi")) request new_output_cache).0).1
    ≡ some (pick_hole_variant page request)
compose_hole_body_cached_again_example =
    compose_hole_body_cached_again site key 0 0 (codes "hi") none request request new_output_cache
      empty-IsSound no_page known fits.0 fits.1

contains_token_iff_example :
    (contains_token (codes "gzip, br") (codes "br") ≡ true)
    ↔ Occurs none (codes "gzip, br") (codes "br")
contains_token_iff_example = contains_token_iff (codes "gzip, br") (codes "br")

pick_hole_variant-Lists_example :
    ((pick_hole_variant page request ≡ page.brotli)
      × Lists request.headers (codes "br")
      × (0 < length page.brotli.body))
    ⊎ (((pick_hole_variant page request ≡ page.gzip)
          × Lists request.headers (codes "gzip")
          × (0 < length page.gzip.body))
        ⊎ (pick_hole_variant page request ≡ page.identity))
pick_hole_variant-Lists_example = pick_hole_variant-Lists page request

abbrev id_is : ℕ → List Param
id_is n = record { name = codes "id"; value = n ∷ [] } ∷ []

binding_bytes_inj_example : id_is b'7' ≡ id_is b'7'
binding_bytes_inj_example = binding_bytes_inj (id_is b'7') (id_is b'7') refl refl refl refl

abbrev early : List Param
early = nul_early (codes "a") (codes "b") (codes "1") (codes "2") (codes "3")

abbrev late : List Param
late = nul_late (codes "a") (codes "b") (codes "1") (codes "2") (codes "3")

no_early : find (key_of 1 1 early) new_output_cache.lru.items ≡ none
unfolding find new_output_cache
no_early = refl

hash_bindings_collide_example :
    (early ≢ late)
    × (names early ≡ names late)
    × ((compose_hole_body_cached site
          (key_of 1 1 late)
          0
          none
          request
          (compose_hole_body_cached site
            (key_of 1 1 early)
            0
            (some (codes "hi"))
            request
            new_output_cache).0).1
        ≡ some (pick_hole_variant page request))
hash_bindings_collide_example =
    hash_bindings_collide (codes "a") (codes "b") (codes "1") (codes "2") (codes "3") 1 1 site 0 0
      (codes "hi") none request request new_output_cache empty-IsSound no_early known fits.0 fits.1
