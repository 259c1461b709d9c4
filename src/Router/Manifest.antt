-- ===== src/Router/Manifest.antt =====
-- modules/router/v2_binary.go: the manifest of a site and the entries of its table.
pub mod Codec
pub mod Load
pub mod Places
pub mod Sections
use web_spa.Base.{ℕ, ◌+◌, List, Option, none, some, Bytes, ltb, if◌then◌else◌, length, take, drop}
use web_spa.Router.Trie.{Trie}

-- A variant is absent if `data_len` is 0.
pub record Variant : Type 0 where
  pub head_id : ℕ
  pub data_offset : ℕ
  pub data_len : ℕ

-- `variants[EncIdentity]`, `variants[EncGzip]` and `variants[EncBrotli]` are three fields.
pub record RouteEntry : Type 0 where
  pub path_hash : ℕ
  pub path_offset : ℕ
  pub path_len : ℕ
  pub action_id : ℕ
  pub identity : Variant
  pub gzip : Variant
  pub brotli : Variant
  pub hole_offset : ℕ
  pub methods : ℕ
  pub mw_count : ℕ
  pub mw_offset : ℕ

-- `pointer` stands for the address of the manifest, by which the maps of the server know it.
pub record Manifest : Type 0 where
  pub pointer : ℕ
  pub table : List RouteEntry
  pub payloads : Bytes
  pub paths : Bytes
  pub hole_blobs : Bytes
  pub middleware_blobs : Bytes
  pub mime_table : List Bytes
  pub trie : Trie

-- `s[off : off+len]`; `none` is a panic.
unfoldable pub slice : Bytes → ℕ → ℕ → Option Bytes
slice s off len = if ltb (length s) (off + len) then none else some (take len (drop off s))
