-- ===== src/Dispatch/Loading.antt =====
-- `loadState` of cmd/main/main.go: the manifests of the sites are put on one registry of heads, and the
-- middleware names of their routes are resolved. The loading of a manifest is an argument.
pub mod Remap
use web_spa.Base.{
  ℕ, zero, suc, ◌+◌, Bool, true, false, List, [], ◌∷◌, ◌++◌, Option, none, some, Bytes, codes,
  bytes_eq, ◌==◌, ltb, if◌then◌else◌, get_elem?, ◌>>=◌,
}
use web_spa.Gogohttp.Response.{crlf}
use web_spa.Gogohttp.Response.Registry.{
  RegistryBuilder, add_mime_with_encoding, add_head, split_mime_key,
}
use web_spa.Router.Manifest.{Variant, RouteEntry, Manifest}
use web_spa.Router.Methods.{allow_header_value}
use web_spa.Holes.{middleware_names_at}
use web_spa.Dispatch.{Hook, head_of}

-- The first loop of `remap`.
unfoldable pub mime_remap : List Bytes → RegistryBuilder → List ℕ × RegistryBuilder
unfolding add_mime_with_encoding split_mime_key
mime_remap [] rb = ([], rb)
mime_remap (key ∷ keys) rb =
    let (mime, encoding) = split_mime_key key in
    let (id, rb1) = add_mime_with_encoding mime encoding rb in
    let (ids, rb2) = mime_remap keys rb1 in (id ∷ ids, rb2)

-- A variant that is there gets its new head; an index out of range panics.
unfoldable pub remap_variant : List ℕ → Variant → Option Variant
remap_variant ids v =
    if ltb 0 v.data_len
    then (get_elem? ids v.head_id >>= λ id. some (record v { head_id = id }))
    else some v

abbrev pub remap_entry : List ℕ → RouteEntry → Option RouteEntry
remap_entry ids e = remap_variant ids e.identity >>= λ i. remap_variant ids e.gzip >>= λ g.
    remap_variant ids e.brotli >>= λ b. some (record e { identity = i; gzip = g; brotli = b })

-- The second loop of `remap`.
unfoldable pub remap_table : List ℕ → List RouteEntry → Option (List RouteEntry)
unfolding remap_variant
remap_table ids [] = some []
remap_table ids (e ∷ table) =
    remap_entry ids e >>= λ e'. remap_table ids table >>= λ table'. some (e' ∷ table')

abbrev with_table :
    Manifest → RegistryBuilder → Option (List RouteEntry) → Option (Manifest × RegistryBuilder)
with_table m rb none = none
with_table m rb (some table) = some (record m { table = table }, rb)

-- `remap`.
unfoldable pub remap : Manifest → RegistryBuilder → Option (Manifest × RegistryBuilder)
unfolding mime_remap remap_table
remap m rb =
    let (ids, rb') = mime_remap m.mime_table rb in with_table m rb' (remap_table ids m.table)

-- The sites so far, and the default one.
pub record SiteTable : Type 0 where
  pub sites : List (Bytes × Manifest)
  pub main_site : Option Manifest

-- A write to the map stands in front of the older ones.
unfoldable pub add_hosts : Manifest → List Bytes → List (Bytes × Manifest) → List (Bytes × Manifest)
unfolding bytes_eq
add_hosts m [] sites = sites
add_hosts m (host ∷ hosts) sites =
    add_hosts m hosts (if bytes_eq host (codes "*") then sites else (host, m) ∷ sites)

unfoldable pub has_star : List Bytes → Bool
unfolding bytes_eq
has_star [] = false
has_star (host ∷ hosts) =
    let rest = has_star hosts in if bytes_eq host (codes "*") then true else rest

abbrev default_site : Bool → Manifest → Option Manifest → Option Manifest
default_site true m main = some m
default_site false m none = some m
default_site false m (some main) = some main

-- The body of the loop over the sites of the configuration, for a site that is loaded and remapped.
unfoldable pub add_site : Manifest → List Bytes → SiteTable → SiteTable
unfolding add_hosts has_star
add_site m hosts t = record {
  sites = add_hosts m hosts t.sites;
  main_site = default_site (has_star hosts) m t.main_site;
}

abbrev allow_head : ℕ → Bytes
allow_head bits =
    codes "HTTP/1.1 405 Method Not Allowed"
    ++ (crlf
        ++ (codes "Server: Gogogo"
            ++ (crlf
                ++ (codes "Allow: "
                    ++ (allow_header_value bits
                        ++ (crlf ++ (codes "Content-Type: text/plain; charset=utf-8" ++ crlf)))))))

unfoldable pub has_mask : List (ℕ × ℕ) → ℕ → Bool
has_mask [] bits = false
has_mask ((b, id) ∷ heads) bits = let rest = has_mask heads bits in if b == bits then true else rest

abbrev add_allow_head : Bool → ℕ → List (ℕ × ℕ) → RegistryBuilder → List (ℕ × ℕ) × RegistryBuilder
add_allow_head true bits heads rb = (heads, rb)
add_allow_head false bits heads rb =
    let (id, rb') = add_head (allow_head bits) rb in ((bits, id) ∷ heads, rb')

-- The loop that prepares the heads of 405 responses.
unfoldable pub add_allow_heads :
    List RouteEntry → List (ℕ × ℕ) → RegistryBuilder → List (ℕ × ℕ) × RegistryBuilder
unfolding has_mask add_head allow_header_value
add_allow_heads [] heads rb = (heads, rb)
add_allow_heads (e ∷ table) heads rb =
    let (heads', rb') = add_allow_head (has_mask heads e.methods) e.methods heads rb in
    add_allow_heads table heads' rb'

abbrev hook_of : {U : Type 0} → List (Bytes × Hook U) → Bytes → Option (Hook U)
hook_of [] name = none
hook_of ((n, mw) ∷ registry) name = if bytes_eq n name then some mw else hook_of registry name

-- Names to functions; `none` is the error for a name that is not registered.
unfoldable pub resolve : {U : Type 0} → List (Bytes × Hook U) → List Bytes → Option (List (Hook U))
unfolding bytes_eq
resolve registry [] = some []
resolve registry (name ∷ names) =
    hook_of registry name >>= λ mw. resolve registry names >>= λ mws. some (mw ∷ mws)

-- A list of names that cannot be read is nil, and nil has no names.
abbrev names_or_nil : Option (List Bytes) → List Bytes
names_or_nil none = []
names_or_nil (some names) = names

abbrev pub entry_chain :
    {U : Type 0} → List (Bytes × Hook U) → Bytes → RouteEntry → Option (List (Hook U))
entry_chain registry blobs e =
    if e.mw_count == 0
    then some []
    else resolve registry (names_or_nil (middleware_names_at blobs e.mw_offset e.mw_count))

-- The loop over the table of one manifest.
unfoldable pub resolve_chains :
    {U : Type 0} → List (Bytes × Hook U) → Bytes → List RouteEntry → Option (List (List (Hook U)))
unfolding resolve middleware_names_at
resolve_chains registry blobs [] = some []
resolve_chains registry blobs (e ∷ table) = entry_chain registry blobs e >>= λ chain.
    resolve_chains registry blobs table >>= λ chains. some (chain ∷ chains)
