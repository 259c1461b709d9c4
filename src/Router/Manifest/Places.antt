-- ===== src/Router/Manifest/Places.antt =====
-- Where the sections of a manifest stand that `Load` of modules/router/v2_binary.go looks for.
use web_spa.Base.{
  ℕ, ◌+◌, ◌-◌, ◌≡◌, refl, sym, ap, ◌∙◌, List, [], ◌++◌, Option, some, Bytes, false, ltb, ge→ltb,
  length, drop, length-append, take-length, drop-length, append_assoc, arith,
}
use web_spa.Router.Trie.{new_trie}
use web_spa.Router.Manifest.{RouteEntry, Manifest}
use web_spa.Router.Manifest.Load.{
  build_trie, with_trie, sub, Sizes, total, mimes_of, load_mimes, load_sections,
}

-- A part of a text, found by the lengths of what stands before it.
sub-at :
    (s a b c : Bytes) (i j : ℕ)
    → s ≡ a ++ (b ++ c)
    → i ≡ length a
    → j ≡ length a + length b
    → sub s i j ≡ b
sub-at s a b c i j e at_i at_j =
    let n : j - i ≡ length b = omega (arith, at_i, at_j) in
    rw (n, e, at_i) (rw (drop-length a (b ++ c)) (take-length b c))

-- A text that is laid out in parts, of which the last four are words of four bytes.
module _ (file start pay pa ho mw js w1 w2 w3 w4 : Bytes)
    (e : file ≡ start ++ (pay ++ (pa ++ (ho ++ (mw ++ (js ++ (w1 ++ (w2 ++ (w3 ++ w4)))))))))
    (four1 : length w1 ≡ 4) (four2 : length w2 ≡ 4) (four3 : length w3 ≡ 4)
    (four4 : length w4 ≡ 4) where
  e1 : file ≡ (start ++ pay) ++ (pa ++ (ho ++ (mw ++ (js ++ (w1 ++ (w2 ++ (w3 ++ w4)))))))
  e1 = e ∙ sym (append_assoc start pay _)

  e2 : file ≡ ((start ++ pay) ++ pa) ++ (ho ++ (mw ++ (js ++ (w1 ++ (w2 ++ (w3 ++ w4))))))
  e2 = e1 ∙ sym (append_assoc (start ++ pay) pa _)

  e3 : file ≡ (((start ++ pay) ++ pa) ++ ho) ++ (mw ++ (js ++ (w1 ++ (w2 ++ (w3 ++ w4)))))
  e3 = e2 ∙ sym (append_assoc ((start ++ pay) ++ pa) ho _)

  e4 : file ≡ ((((start ++ pay) ++ pa) ++ ho) ++ mw) ++ (js ++ (w1 ++ (w2 ++ (w3 ++ w4))))
  e4 = e3 ∙ sym (append_assoc (((start ++ pay) ++ pa) ++ ho) mw _)

  abbrev front : Bytes
  front = ((((start ++ pay) ++ pa) ++ ho) ++ mw) ++ js

  e5 : file ≡ front ++ (w1 ++ (w2 ++ (w3 ++ w4)))
  e5 = e4 ∙ sym (append_assoc ((((start ++ pay) ++ pa) ++ ho) ++ mw) js _)

  e6 : file ≡ (front ++ w1) ++ (w2 ++ (w3 ++ w4))
  e6 = e5 ∙ sym (append_assoc front w1 _)

  e7 : file ≡ ((front ++ w1) ++ w2) ++ (w3 ++ w4)
  e7 = e6 ∙ sym (append_assoc (front ++ w1) w2 _)

  e8 : file ≡ (((front ++ w1) ++ w2) ++ w3) ++ w4
  e8 = e7 ∙ sym (append_assoc ((front ++ w1) ++ w2) w3 _)

  length-front :
      length front ≡ length start + length pay + length pa + length ho + length mw + length js
  length-front = omega (
    arith,
    length-append start pay,
    length-append (start ++ pay) pa,
    length-append ((start ++ pay) ++ pa) ho,
    length-append (((start ++ pay) ++ pa) ++ ho) mw,
    length-append ((((start ++ pay) ++ pa) ++ ho) ++ mw) js,
  )

  -- Where the parts stand.
  pub record Places : Type 0 where
    pub size :
        length file ≡ length start + length pay + length pa + length ho + length mw + length js + 16
    pub word1 : drop (length file - 16) file ≡ w1 ++ (w2 ++ (w3 ++ w4))
    pub word2 : drop (length file - 12) file ≡ w2 ++ (w3 ++ w4)
    pub word3 : drop (length file - 8) file ≡ w3 ++ w4
    pub word4 : drop (length file - 4) file ≡ w4

  whole : length file ≡ length front + 16
  whole = omega (
    arith,
    ap length e8,
    length-append (((front ++ w1) ++ w2) ++ w3) w4,
    length-append ((front ++ w1) ++ w2) w3,
    length-append (front ++ w1) w2,
    length-append front w1,
  )

  drop_front : (a b : Bytes) (n : ℕ) → file ≡ a ++ b → n ≡ length a → drop n file ≡ b
  drop_front a b n h at = rw (h, at) (drop-length a b)

  pub places : Places
  places = record {
    size = omega (arith, whole, length-front);
    word1 = drop_front front _ _ e5 (omega (arith, whole));
    word2 = drop_front (front ++ w1) _ _ e6 (omega (arith, whole, length-append front w1));
    word3 =
        drop_front ((front ++ w1) ++ w2) _ _ e7
          (omega (arith, whole, length-append (front ++ w1) w2, length-append front w1));
    word4 = drop_front (((front ++ w1) ++ w2) ++ w3) _ _ e8 (
        omega (
          arith,
          whole,
          length-append ((front ++ w1) ++ w2) w3,
          length-append (front ++ w1) w2,
          length-append front w1,
        ));
  }

  module _ (decode : Bytes → Option (List Bytes)) (pointer : ℕ) (table : List RouteEntry)
      (mimes : List Bytes) (known : mimes_of decode js ≡ some mimes) where
    -- The sizes of the sections, as the trailer has them.
    abbrev right_sizes : Sizes
    right_sizes = record {
      json = length js;
      paths = length pa;
      holes = length ho;
      middleware = length mw;
    }

    abbrev sectioned : List Bytes → Manifest
    sectioned mime_table = record {
      pointer = pointer;
      table = table;
      payloads = pay;
      paths = pa;
      hole_blobs = ho;
      middleware_blobs = mw;
      mime_table = mime_table;
      trie = new_trie;
    }

    pub load_sections-places :
        (table_end : ℕ)
        → table_end ≡ length start
        → load_sections decode pointer file table_end table right_sizes
          ≡ with_trie (sectioned mimes) (build_trie pa table 0 new_trie)
    load_sections-places table_end at_end =
        let z : length file
            ≡ length start + length pay + length pa + length ho + length mw + length js + 16 =
          places.size in
        let l1 = length-append start pay in
        let l2 = length-append (start ++ pay) pa in
        let l3 = length-append ((start ++ pay) ++ pa) ho in
        let l4 = length-append (((start ++ pay) ++ pa) ++ ho) mw in
        let json_start = length file - 16 - length js in
        let mw_start = json_start - length mw in
        let holes_start = mw_start - length ho in
        let paths_start = holes_start - length pa in
        let s1 : sub file table_end paths_start ≡ pay =
          sub-at file start pay _ table_end paths_start e at_end (omega (arith, z)) in
        let s2 : sub file paths_start holes_start ≡ pa =
          sub-at file (start ++ pay) pa _ paths_start holes_start e1 (omega (arith, z, l1))
            (omega (arith, z, l1)) in
        let s3 : sub file holes_start mw_start ≡ ho =
          sub-at file ((start ++ pay) ++ pa) ho _ holes_start mw_start e2 (omega (arith, z, l1, l2))
            (omega (arith, z, l1, l2)) in
        let s4 : sub file mw_start json_start ≡ mw =
          sub-at file (((start ++ pay) ++ pa) ++ ho) mw _ mw_start json_start e3
            (omega (arith, z, l1, l2, l3)) (omega (arith, z, l1, l2, l3)) in
        let s5 : sub file json_start (json_start + length js) ≡ js =
          sub-at file ((((start ++ pay) ++ pa) ++ ho) ++ mw) js _ json_start _ e4
            (omega (arith, z, l1, l2, l3, l4)) (omega (arith, z, l1, l2, l3, l4)) in
        let fits : ltb (length file) (table_end + total right_sizes + 16) ≡ false =
          ge→ltb _ _ (omega (arith, z, at_end)) in
        rw fits (
          (λ i.
            load_mimes decode
              (record {
                pointer = pointer;
                table = table;
                payloads = s1 i;
                paths = s2 i;
                hole_blobs = s3 i;
                middleware_blobs = s4 i;
                mime_table = [];
                trie = new_trie;
              })
              (mimes_of decode (s5 i)))
          ∙ (rw known refl))
