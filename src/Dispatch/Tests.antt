-- ===== src/Dispatch/Tests.antt =====
-- The dispatch of cmd/main/main.go and the files of cmd/main/files.go on a small manifest.
use web_spa.Base.{
  ℕ, ◌+◌, ◌<◌, ◌≡◌, refl, true, List, [], ◌∷◌, some, none, Bytes, codes, append-nil, bytes_eq,
  arith, length,
}
use web_spa.Gogohttp.Types
use web_spa.Gogohttp.Types.{Req, Method, get, unknown, method_string}
use web_spa.Gogohttp.Response.{Resp}
use web_spa.Gogohttp.Response.Reader.{concat}
use web_spa.Gogohttp.Response.Registry.{new_registry_builder, default_registry}
use web_spa.Gogohttp.Response.Registry.Heads.{new_registry_builder-IsRegistered}
use web_spa.Gogohttp.Server.{fresh_resp}
use web_spa.OutputCache.{new_output_cache, contains_token}
use web_spa.Router.Trie.{new_trie}
use web_spa.Router.Methods.{allow_header_value}
use web_spa.Router.Manifest.{Variant, RouteEntry, Manifest}
use web_spa.Holes.{read_file_blob, u16_at}
use web_spa.Dispatch.{AppState, RouteCtx, ran}
use web_spa.Dispatch.Allow.{admits, contains_token-allow_header_value}
use web_spa.Dispatch.Chains.{IsGuarded, serve-IsGuarded}
use web_spa.Dispatch.Files.{
  OpenFile, FileSystem, FileHeads, serve_file, header_value, mime_for_file,
}
use web_spa.Dispatch.Files.Parts.{IsServedFile, serve_file-IsServedFile}
use web_spa.Dispatch.Loading.{mime_remap}
use web_spa.Dispatch.Loading.Remap.{IsRemapped, mime_remap-IsRemapped}

contains_token-allow_header_value_example :
    contains_token (allow_header_value 3) (method_string get) ≡ admits 3 get
contains_token-allow_header_value_example =
    contains_token-allow_header_value 3 get (omega arith) (λ e. absurd (ground arith))

abbrev mime_keys : List Bytes
mime_keys = codes "text/html" ∷ codes "text/css|gzip" ∷ codes "text/html" ∷ []

room : length new_registry_builder.entries + length mime_keys < 65537
unfolding new_registry_builder default_registry
room = omega arith

mime_remap-IsRemapped_example :
    IsRemapped mime_keys new_registry_builder (mime_remap mime_keys new_registry_builder)
mime_remap-IsRemapped_example =
    mime_remap-IsRemapped mime_keys new_registry_builder new_registry_builder-IsRegistered
      (omega (arith, room))

abbrev absent : Variant
absent = record { head_id = 0; data_offset = 0; data_len = 0 }

abbrev file_entry : RouteEntry
file_entry = record {
  path_hash = 0;
  path_offset = 0;
  path_len = 0;
  action_id = 7;
  identity = absent;
  gzip = absent;
  brotli = absent;
  hole_offset = 1;
  methods = 3;
  mw_count = 0;
  mw_offset = 0;
}

abbrev site : Manifest
site = record {
  pointer = 1;
  table = file_entry ∷ [];
  payloads = [];
  paths = [];
  hole_blobs = 0 ∷ 5 ∷ 0 ∷ codes "a.txt";
  middleware_blobs = [];
  mime_table = [];
  trie = new_trie;
}

whole_cut : (b : Bytes) → concat (b ∷ []) ≡ b
unfolding concat
whole_cut b = append-nil b

abbrev text_file : OpenFile
text_file = record {
  has_stat = true;
  seekable = true;
  size = 10;
  contents = codes "0123456789";
  fails_at = none;
  cut = λ b. b ∷ [];
  concat-cut = whole_cut;
}

abbrev disk : FileSystem
disk = record { opens = λ path. some text_file; mime_by_path = λ path. codes "text/plain" }

abbrev heads : FileHeads
heads = record { head_200 = 40; head_206 = 41 }

abbrev range_request : Req
range_request = record Types.reset {
  method = get;
  headers = record { name = codes "range"; value = codes "bytes=2-5" } ∷ [];
}

blob_read : read_file_blob (5 ∷ 0 ∷ codes "a.txt") ≡ some (codes "a.txt")
unfolding read_file_blob u16_at
blob_read = refl

serve_file-IsServedFile_example :
    (r : Resp) × (serve_file disk
        ((codes "text/plain", heads) ∷ [])
        range_request
        file_entry
        site
        (fresh_resp [])
      ≡ some r)
    × IsServedFile heads text_file (header_value range_request.headers (codes "Range")) r
unfolding mime_for_file bytes_eq
serve_file-IsServedFile_example =
    serve_file-IsServedFile disk ((codes "text/plain", heads) ∷ []) range_request file_entry site
      (fresh_resp []) (5 ∷ 0 ∷ codes "a.txt") (codes "a.txt") text_file heads refl blob_read refl
      refl refl refl (omega arith) refl

abbrev app : AppState ℕ
app = record {
  sites = [];
  main_site = site;
  allow_heads = (3, 32) ∷ [];
  mw_chain = λ pointer. none;
  action_table = λ id. some (λ c. ran true c);
  page_site = record {
    holes = λ k. none;
    gzip = λ b. b;
    brotli = λ b. b;
    head_gzip = 33;
    head_brotli = 34;
  };
  compose_hole_body = λ u m e ps. none;
  serve_file = λ u req e m resp. some resp;
}

abbrev call : RouteCtx ℕ
call = record {
  world = 0;
  cache = new_output_cache;
  req = range_request;
  resp = fresh_resp [];
  bindings = [];
}

serve-IsGuarded_example : IsGuarded ℕ app call
serve-IsGuarded_example = serve-IsGuarded ℕ app call
