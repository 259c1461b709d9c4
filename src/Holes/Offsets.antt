-- ===== src/Holes/Offsets.antt =====
-- The offset that a blob gets, and the path of a file route at it.
use web_spa.Base.{
  ◌+◌, ◌*◌, ◌/◌, ◌%◌, ◌^◌, ◌<◌, ◌≡◌, ap, ◌∙◌, [], ◌∷◌, ◌++◌, some, Bytes, length, drop, arith,
  length-append, take-length, drop-length, append_assoc,
}
use web_spa.Holes.{u16_bytes, u16_at, reserve, append_file_blob, read_file_blob}

-- What stands in the section at the offset that a writer returns.
pub drop-reserve :
    (blobs body later : Bytes)
    → length blobs < 2 ^ 32
    → drop (length (reserve blobs) % 2 ^ 32) ((reserve blobs ++ body) ++ later) ≡ body ++ later
drop-reserve blobs body later h =
    let offset : length (reserve blobs) % 2 ^ 32 ≡ length (reserve blobs) = small blobs h in
    rw (offset, append_assoc (reserve blobs) body later)
      (drop-length (reserve blobs) (body ++ later))
  where
    small : (s : Bytes) → length s < 2 ^ 32 → length (reserve s) % 2 ^ 32 ≡ length (reserve s)
    small [] k = omega arith
    small (x ∷ s) k = omega arith

read_path :
    (path later : Bytes)
    → length path < 65536
    → read_file_blob ((u16_bytes (length path) ++ path) ++ later) ≡ some path
unfolding read_file_blob u16_bytes u16_at
read_path path later h =
    let n : length path % 256 + 256 * (length path / 256 % 256) ≡ length path = omega arith in
    rw (n, take-length path later) (ground (arith, length-append path later))

-- A file route's path is read back from its offset, whatever follows in the section.
pub read_file_blob-append_file_blob :
    (path blobs later : Bytes)
    → length path < 65536
    → length blobs < 2 ^ 32
    → read_file_blob
        (drop (append_file_blob path blobs).1 ((append_file_blob path blobs).0 ++ later))
      ≡ some path
unfolding append_file_blob
read_file_blob-append_file_blob path blobs later h k =
    ap read_file_blob (drop-reserve blobs (u16_bytes (length path) ++ path) later k)
    ∙ read_path path later h
