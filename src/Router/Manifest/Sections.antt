-- ===== src/Router/Manifest/Sections.antt =====
-- `Write` of cmd/build/v2_compiler.go and `Load` of modules/router/v2_binary.go: the file is read back.
use web_spa.Base.{
  true, ℕ, suc, ◌+◌, ◌-◌, ◌*◌, ◌^◌, ◌<◌, ◌≡◌, refl, sym, ap, ◌∙◌, List, [], ◌∷◌, ◌++◌, Option, some,
  Bytes, false, bytes_eq, bytes_eq_refl, ltb, ge→ltb, length, take, drop, length-append,
  append_assoc, append-nil, arith,
}
use web_spa.Holes.{u32_bytes, u32_at}
use web_spa.Router.Trie.{new_trie}
use web_spa.Router.Manifest.{RouteEntry, Manifest}
use web_spa.Router.Manifest.Codec.{
  entry_bytes, IsEntry, entry_at-entry_bytes, length-entry_bytes, drop-entry_bytes, u32_read,
}
use web_spa.Router.Manifest.Places.{Places, places, load_sections-places}
use web_spa.Router.Manifest.Load.{
  magic, entries_at, build_trie, with_trie, sizes_at, mimes_of, load_sections, load_table, load,
  Parts, entries_bytes, trailer, write_parts,
}

abbrev pub AllEntries : List RouteEntry → Type 0
AllEntries [] = Unit
AllEntries (e ∷ table) = IsEntry e × AllEntries table

entries_at-entries_bytes :
    (table : List RouteEntry) (s : Bytes)
    → AllEntries table
    → entries_at (length table) (entries_bytes table ++ s) ≡ table
unfolding entries_at entries_bytes
entries_at-entries_bytes [] s h = refl
entries_at-entries_bytes (e ∷ table) s (h, hs) =
    let t : Bytes = entries_bytes table ++ s in
    ap (entries_at (suc (length table))) (append_assoc (entry_bytes e) (entries_bytes table) s)
    ∙ ((λ i. entry_at-entry_bytes e t h i ∷ entries_at (length table) (drop-entry_bytes e t i))
        ∙ ap (◌∷◌ e) (entries_at-entries_bytes table s hs))

length-entries_bytes : (table : List RouteEntry) → length (entries_bytes table) ≡ 64 * length table
unfolding entries_bytes
length-entries_bytes [] = omega arith
length-entries_bytes (e ∷ table) = omega (
  arith,
  length-append (entry_bytes e) (entries_bytes table),
  length-entry_bytes e,
  length-entries_bytes table,
)

length-u32_bytes : (n : ℕ) → length (u32_bytes n) ≡ 4
unfolding u32_bytes
length-u32_bytes n = refl

-- The sizes of the sections and the table fit their fields.
pub record IsWritable (c : Parts) : Type 0 where
  pub entries : AllEntries c.nodes
  pub nodes : length c.nodes < 2 ^ 32
  pub paths : length c.paths < 2 ^ 32
  pub holes : length c.hole_blobs < 2 ^ 32
  pub middleware : length c.mw_blobs < 2 ^ 32
  pub json : length c.mime_json < 2 ^ 32

module _ (c : Parts) (v : IsWritable c) where
  file_of : Bytes
  file_of = write_parts c

  abbrev start_of : Bytes
  start_of = magic ++ (u32_bytes (length c.nodes) ++ entries_bytes c.nodes)

  laid_out :
      file_of
      ≡ start_of
        ++ (c.payloads ++ (c.paths ++ (c.hole_blobs ++ (c.mw_blobs ++ (c.mime_json ++ trailer c)))))
  unfolding file_of write_parts
  laid_out = ap (λ (b : Bytes). magic ++ b) (simp append_assoc)

  length-start_of : length start_of ≡ 12 + 64 * length c.nodes
  length-start_of = omega (
    arith,
    length-append (u32_bytes (length c.nodes)) (entries_bytes c.nodes),
    length-u32_bytes (length c.nodes),
    length-entries_bytes c.nodes,
  )

  abbrev four : (n : ℕ) → length (u32_bytes n) ≡ 4
  four = length-u32_bytes

  file_places :
      Places file_of start_of c.payloads c.paths c.hole_blobs c.mw_blobs c.mime_json
        (u32_bytes (length c.mw_blobs))
        (u32_bytes (length c.hole_blobs))
        (u32_bytes (length c.paths))
        (u32_bytes (length c.mime_json))
        laid_out
        (four _)
        (four _)
        (four _)
        (four _)
  file_places = places _ _ _ _ _ _ _ _ _ _ _ laid_out (four _) (four _) (four _) (four _)

  sizes_at-file : sizes_at file_of ≡ record {
    json = length c.mime_json;
    paths = length c.paths;
    holes = length c.hole_blobs;
    middleware = length c.mw_blobs;
  }
  sizes_at-file =
      let p = file_places in
      let js : u32_at (drop (length file_of - 4) file_of) ≡ length c.mime_json =
        ap u32_at (p.word4 ∙ sym (append-nil _)) ∙ u32_read (length c.mime_json) [] v.json in
      let pa : u32_at (drop (length file_of - 8) file_of) ≡ length c.paths =
        ap u32_at p.word3 ∙ u32_read (length c.paths) _ v.paths in
      let ho : u32_at (drop (length file_of - 12) file_of) ≡ length c.hole_blobs =
        ap u32_at p.word2 ∙ u32_read (length c.hole_blobs) _ v.holes in
      let mw : u32_at (drop (length file_of - 16) file_of) ≡ length c.mw_blobs =
        ap u32_at p.word1 ∙ u32_read (length c.mw_blobs) _ v.middleware in
      λ i. record { json = js i; paths = pa i; holes = ho i; middleware = mw i }

  -- The manifest that the file stands for, before its trie is built.
  abbrev pub manifest_of : ℕ → List Bytes → Manifest
  manifest_of pointer mimes = record {
    pointer = pointer;
    table = c.nodes;
    payloads = c.payloads;
    paths = c.paths;
    hole_blobs = c.hole_blobs;
    middleware_blobs = c.mw_blobs;
    mime_table = mimes;
    trie = new_trie;
  }

  abbrev after_table : Bytes
  after_table =
      c.payloads ++ (c.paths ++ (c.hole_blobs ++ (c.mw_blobs ++ (c.mime_json ++ trailer c))))

  table_at : entries_at (length c.nodes) (drop 12 file_of) ≡ c.nodes
  unfolding file_of write_parts u32_bytes
  table_at = entries_at-entries_bytes c.nodes after_table v.entries

  magic_at : bytes_eq (take 8 file_of) magic ≡ true
  unfolding file_of write_parts
  magic_at = bytes_eq_refl magic

  count_at : u32_at (drop 8 file_of) ≡ length c.nodes
  unfolding file_of write_parts
  count_at = u32_read (length c.nodes) (entries_bytes c.nodes ++ after_table) v.nodes

  module _ (decode : Bytes → Option (List Bytes)) (pointer : ℕ) (mimes : List Bytes)
      (known : mimes_of decode c.mime_json ≡ some mimes) where
    load_table-file :
        load_table decode pointer file_of (length c.nodes)
        ≡ with_trie (manifest_of pointer mimes) (build_trie c.paths c.nodes 0 new_trie)
    load_table-file =
        let z = file_places.size in
        let table_end : ℕ = 12 + 64 * length c.nodes in
        let a : ltb (length file_of) table_end ≡ false =
          ge→ltb _ _ (omega (arith, z, length-start_of)) in
        let b : ltb (length file_of) (table_end + 16) ≡ false =
          ge→ltb _ _ (omega (arith, z, length-start_of)) in
        let sections : load_table decode pointer file_of (length c.nodes)
            ≡ load_sections decode pointer file_of table_end
                (entries_at (length c.nodes) (drop 12 file_of)) (sizes_at file_of) =
          rw a (rw b refl) in
        sections
        ∙ ((λ i. load_sections decode pointer file_of table_end (table_at i) (sizes_at-file i))
            ∙ load_sections-places file_of start_of _ _ _ _ _ _ _ _ _ laid_out
                (four (length c.mw_blobs)) (four (length c.hole_blobs)) (four (length c.paths))
                (four (length c.mime_json)) decode pointer c.nodes mimes known table_end
                (sym length-start_of))

    load-file :
        load decode pointer file_of
        ≡ with_trie (manifest_of pointer mimes) (build_trie c.paths c.nodes 0 new_trie)
    unfolding load
    load-file =
        let a : ltb (length file_of) 12 ≡ false =
          ge→ltb _ _ (omega (arith, file_places.size, length-start_of)) in
        rw a (rw magic_at (ap (load_table decode pointer file_of) count_at ∙ load_table-file))

    -- What `Write` has written is read back by `Load`, if the entries and sizes fit their fields and
    -- the JSON text decodes: the table, the four sections and the mime types are the ones that were
    -- written, and the result is that of building the trie of their paths.
    pub load-write_parts :
        load decode pointer (write_parts c)
        ≡ with_trie (manifest_of pointer mimes) (build_trie c.paths c.nodes 0 new_trie)
    unfolding file_of
    load-write_parts = load-file
