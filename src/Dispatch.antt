-- ===== src/Dispatch.antt =====
-- cmd/main/main.go: how a request finds its route and what runs for it. `U` is the state of the program
-- beside the cache of pages, and what composeHoleBody returns is a parameter.
pub mod Files
pub mod Chains
pub mod Allow
pub mod Loading
mod Tests
use Prim.Native.Nat.{bit_and}
use web_spa.Base.{
  ℕ, zero, suc, ◌+◌, Bool, true, false, not, ◌&&◌, ◌||◌, List, [], ◌∷◌, ◌++◌, Option, none, some,
  Bytes, codes, bytes_eq, map, ◌==◌, ltb, leb, if◌then◌else◌, get_elem?, length, take,
}
use web_spa.Gogohttp.Types
use web_spa.Gogohttp.Types.{Req, Header, Method, index_byte}
use web_spa.Gogohttp.Scan.{eq_fold_ascii}
use web_spa.Gogohttp.Response.{Resp}
use web_spa.Gogohttp.Response.Registry.{not_found, server_error}
use web_spa.Gogohttp.Server.{Handled, handled, panicking}
use web_spa.Router.Trie.{Param, Found, match}
use web_spa.Router.Manifest.{Variant, RouteEntry, Manifest, slice}
use web_spa.OutputCache.{
  OutputCache, OutputKey, VariantBody, Site, hash_bindings, starts_with, compose_hole_body_cached,
}

-- `methodBitFor`.
unfoldable pub method_bit_for : Method → ℕ
method_bit_for Method.get = 1
method_bit_for Method.head = 2
method_bit_for Method.post = 4
method_bit_for Method.put = 8
method_bit_for Method.patch = 16
method_bit_for Method.delete = 32
method_bit_for Method.options = 64
method_bit_for Method.connect = 128
method_bit_for Method.trace = 256
method_bit_for Method.unknown = 0

abbrev pub to_lower : ℕ → ℕ
to_lower c = if leb b'A' c && leb c b'Z' then c + 32 else c

-- The first loop of `stripPort`.
abbrev before_colon : Bytes → Option ℕ → Bytes
before_colon host none = host
before_colon host (some i) = take i host

-- `stripPort`.
unfoldable pub strip_port : Bytes → Bytes
unfolding index_byte
strip_port host = map to_lower (before_colon host (index_byte host b':'))

-- `bytes.Contains`.
unfoldable pub contains : Bytes → Bytes → Bool
unfolding starts_with
contains [] sub = starts_with sub []
contains (c ∷ s) sub = starts_with sub (c ∷ s) || contains s sub

-- The body of the loop of `pickVariant` at the header that decides.
abbrev pub variant_for : RouteEntry → Bytes → Variant
variant_for entry v =
    if ltb 0 entry.brotli.data_len && contains v (codes "br")
    then entry.brotli
    else if ltb 0 entry.gzip.data_len && contains v (codes "gzip")
    then entry.gzip
    else entry.identity

unfoldable pub variant_in : RouteEntry → List Header → Variant
unfolding contains eq_fold_ascii
variant_in entry [] = entry.identity
variant_in entry (h ∷ headers) =
    let rest = variant_in entry headers in
    if not (eq_fold_ascii h.name (codes "Accept-Encoding")) then rest else variant_for entry h.value

-- `pickVariant`.
unfoldable pub pick_variant : RouteEntry → Req → Variant
unfolding variant_in
pick_variant entry req = variant_in entry req.headers

-- `RouteCtx`, with the state that it leads to.
pub record RouteCtx (U : Type 0) : Type 0 where
  pub world : U
  pub cache : OutputCache
  pub req : Req
  pub resp : Resp
  pub bindings : List Param

-- `RouteCtx.Bind`: the empty text if there is no such binding.
unfoldable pub bind : List Param → Bytes → Bytes
unfolding bytes_eq
bind [] name = []
bind (b ∷ bindings) name =
    let rest = bind bindings name in if bytes_eq b.name name then b.value else rest

-- What a middleware or an action does to the context; a middleware also says whether to go on.
pub data Ran (U : Type 0) : Type 0 where
  ran : Bool → RouteCtx U → Ran U
  crashed : U → OutputCache → Ran U

abbrev pub Hook : Type 0 → Type 0
Hook U = RouteCtx U → Ran U

-- The loop over the chain.
unfoldable pub run_chain : {U : Type 0} → List (Hook U) → RouteCtx U → Ran U
run_chain [] c = ran true c
run_chain (mw ∷ chain) c = elim (mw c) [
  | ran goes_on c' ↦ elim goes_on [ true ↦ run_chain chain c' | false ↦ ran false c' ]
  | crashed u oc ↦ crashed u oc
]

-- `appState`. A manifest is known to `mw_chain` by its pointer.
pub record AppState (U : Type 0) : Type 0 where
  pub sites : List (Bytes × Manifest)
  pub main_site : Manifest
  pub allow_heads : List (ℕ × ℕ)
  pub mw_chain : ℕ → Option (List (List (Hook U)))
  pub action_table : ℕ → Option (Hook U)
  pub page_site : Site
  pub compose_hole_body : U → Manifest → RouteEntry → List Param → Option Bytes
  pub serve_file : U → Req → RouteEntry → Manifest → Resp → Option Resp

abbrev pub site_of : List (Bytes × Manifest) → Bytes → Option Manifest
site_of [] host = none
site_of ((h, m) ∷ sites) host = if bytes_eq h host then some m else site_of sites host

abbrev pub or_main : Manifest → Option Manifest → Manifest
or_main main none = main
or_main main (some m) = m

-- The manifest for the Host header. With no sites the lookup finds nothing.
unfoldable pub manifest_for : {U : Type 0} → AppState U → Bytes → Manifest
unfolding bytes_eq strip_port
manifest_for st [] = st.main_site
manifest_for st (c ∷ host) = or_main st.main_site (site_of st.sites (strip_port (c ∷ host)))

-- A map from masks to head ids, 0 for a mask that is not there.
abbrev pub head_of : List (ℕ × ℕ) → ℕ → ℕ
head_of [] bits = 0
head_of ((b, id) ∷ heads) bits = if b == bits then id else head_of heads bits

abbrev chain_at : {U : Type 0} → Option (List (List (Hook U))) → ℕ → List (Hook U)
chain_at none idx = []
chain_at (some chains) idx = elim (get_elem? chains idx) [ none ↦ [] | some chain ↦ chain ]

-- The middleware of a route.
abbrev pub chain_of : {U : Type 0} → AppState U → Manifest → ℕ → RouteEntry → List (Hook U)
chain_of st m idx entry = if ltb 0 entry.mw_count then chain_at (st.mw_chain m.pointer) idx else []

-- The ids of modules/actions/actions.go that the dispatch names.
abbrev pub action_static : ℕ
action_static = 0

abbrev pub action_file : ℕ
action_file = 7

abbrev pub page_key : Manifest → RouteEntry → List Param → OutputKey
page_key m entry params = record {
  manifest = m.pointer;
  off = entry.hole_offset;
  params = hash_bindings params;
}

-- The answer of a page with holes.
abbrev pub page_answer : {U : Type 0} → RouteCtx U → OutputCache × Option VariantBody → Ran U
page_answer c (oc, none) = ran true (record c { cache = oc; resp = server_error c.resp })
page_answer c (oc, some v) =
    ran true (record c { cache = oc; resp = record (c.resp) { head_id = v.head; body = v.body } })

-- The answer of a static route, whose payload may lie outside the manifest.
abbrev pub static_answer : {U : Type 0} → RouteCtx U → ℕ → Option Bytes → Ran U
static_answer c head none = crashed c.world c.cache
static_answer c head (some b) =
    ran true (record c { resp = record (c.resp) { head_id = head; body = b } })

abbrev pub file_answer : {U : Type 0} → RouteCtx U → Option Resp → Ran U
file_answer c none = crashed c.world c.cache
file_answer c (some r) = ran true (record c { resp = r })

abbrev pub action_answer : {U : Type 0} → RouteCtx U → Option (Hook U) → Ran U
action_answer c none = ran true (record c { resp = server_error c.resp })
action_answer c (some action) = action c

-- The `switch` on the action of `serve`.
unfoldable pub run_action :
    {U : Type 0} → AppState U → Manifest → RouteEntry → List Param → RouteCtx U → Ran U
unfolding pick_variant slice compose_hole_body_cached hash_bindings
run_action st m entry params c =
    if entry.action_id == action_static
    then (if not (entry.hole_offset == 0)
        then page_answer c (
            compose_hole_body_cached st.page_site (page_key m entry params) entry.identity.head_id
              (st.compose_hole_body c.world m entry params) c.req c.cache)
        else (let v = pick_variant entry c.req in
            static_answer c v.head_id (slice m.payloads v.data_offset v.data_len)))
    else if entry.action_id == action_file
    then file_answer c (st.serve_file c.world c.req entry m c.resp)
    else action_answer c (if ltb entry.action_id 256 then st.action_table entry.action_id else none)

abbrev pub after_chain : {U : Type 0} → (RouteCtx U → Ran U) → Ran U → Ran U
after_chain action (ran true c) = action c
after_chain action (ran false c) = ran false c
after_chain action (crashed u oc) = crashed u oc

-- The 405 response: its head holds the Allow line.
abbrev pub refuse_method : {U : Type 0} → AppState U → RouteEntry → RouteCtx U → Ran U
refuse_method st entry c = ran true (record c {
  resp = record (c.resp) {
    head_id = head_of st.allow_heads entry.methods;
    body = codes "Method Not Allowed" ++ 10 ∷ [];
  };
})

-- `serve` at the route that the path has matched.
unfoldable pub serve_entry :
    {U : Type 0} → AppState U → Manifest → ℕ → List Param → RouteCtx U → Option RouteEntry → Ran U
unfolding run_chain run_action method_bit_for
serve_entry st m idx params c none = crashed c.world c.cache
serve_entry st m idx params c (some entry) =
    if bit_and entry.methods (method_bit_for c.req.method) == 0
    then refuse_method st entry c
    else after_chain (run_action st m entry params)
        (run_chain (chain_of st m idx entry) (record c { bindings = params }))

unfoldable pub serve_found : {U : Type 0} → AppState U → Manifest → RouteCtx U → Found → Ran U
unfolding serve_entry
serve_found st m c none = crashed c.world c.cache
serve_found st m c (some (none, params)) = ran true (record c { resp = not_found c.resp })
serve_found st m c (some (some idx, params)) = serve_entry st m idx params c (get_elem? m.table idx)

-- `serve`.
unfoldable pub serve : {U : Type 0} → AppState U → RouteCtx U → Ran U
unfolding serve_found manifest_for match
serve st c = let m = manifest_for st c.req.host in serve_found st m c (match m.trie c.req.path)

abbrev pub as_handled : {U : Type 0} → Ran U → Handled (U × OutputCache)
as_handled (ran goes_on c) = handled (c.world, c.cache) c.req c.resp
as_handled (crashed u oc) = panicking (u, oc)

-- `buildHandler`: the handler of the server, for a state that does not change meanwhile.
unfoldable pub build_handler :
    {U : Type 0} → AppState U → U × OutputCache → Req → Resp → Handled (U × OutputCache)
unfolding serve
build_handler st (u, oc) req resp =
    as_handled (serve st (record { world = u; cache = oc; req = req; resp = resp; bindings = [] }))
