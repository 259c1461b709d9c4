-- ===== src/Router/Manifest/Codec.antt =====
-- The 64 bytes of a `RouteEntry` of modules/router/v2_binary.go, as encoding/binary writes and reads
-- them in little-endian order, its padding as zeros.
use web_spa.Base.{
  ℕ, ◌+◌, ◌*◌, ◌/◌, ◌%◌, ◌^◌, ◌<◌, ◌≡◌, refl, [], ◌∷◌, ◌++◌, Bytes, drop, length, arith,
}
use web_spa.Holes.{u16_bytes, u32_bytes, u16_at, u32_at}
use web_spa.Router.Manifest.{Variant, RouteEntry}

unfoldable pub u64_bytes : ℕ → Bytes
unfolding u32_bytes
u64_bytes n = u32_bytes (n % 2 ^ 32) ++ u32_bytes (n / 2 ^ 32)

unfoldable pub u64_at : Bytes → ℕ
unfolding u32_at
u64_at s = u32_at s + 2 ^ 32 * u32_at (drop 4 s)

unfoldable pub variant_bytes : Variant → Bytes
unfolding u16_bytes u32_bytes
variant_bytes v =
    u16_bytes v.head_id ++ (u16_bytes 0 ++ (u32_bytes v.data_offset ++ u32_bytes v.data_len))

unfoldable pub variant_at : Bytes → Variant
unfolding u16_at u32_at
variant_at s = record {
  head_id = u16_at s;
  data_offset = u32_at (drop 4 s);
  data_len = u32_at (drop 8 s);
}

abbrev pub u8_at : Bytes → ℕ
u8_at [] = 0
u8_at (c ∷ s) = c

unfoldable pub entry_bytes : RouteEntry → Bytes
unfolding u64_bytes variant_bytes
entry_bytes e =
    u64_bytes e.path_hash
    ++ (u32_bytes e.path_offset
        ++ (u16_bytes e.path_len
            ++ (u16_bytes e.action_id
                ++ (variant_bytes e.identity
                    ++ (variant_bytes e.gzip
                        ++ (variant_bytes e.brotli
                            ++ (u32_bytes e.hole_offset
                                ++ (u16_bytes e.methods
                                    ++ ((e.mw_count % 256) ∷ 0 ∷ u32_bytes e.mw_offset)))))))))

unfoldable pub entry_at : Bytes → RouteEntry
unfolding u64_at variant_at
entry_at s = record {
  path_hash = u64_at s;
  path_offset = u32_at (drop 8 s);
  path_len = u16_at (drop 12 s);
  action_id = u16_at (drop 14 s);
  identity = variant_at (drop 16 s);
  gzip = variant_at (drop 28 s);
  brotli = variant_at (drop 40 s);
  hole_offset = u32_at (drop 52 s);
  methods = u16_at (drop 56 s);
  mw_count = u8_at (drop 58 s);
  mw_offset = u32_at (drop 60 s);
}

-- The fields hold what their types hold.
pub record IsVariant (v : Variant) : Type 0 where
  pub head_id : v.head_id < 65536
  pub data_offset : v.data_offset < 2 ^ 32
  pub data_len : v.data_len < 2 ^ 32

pub record IsEntry (e : RouteEntry) : Type 0 where
  pub path_hash : e.path_hash < 2 ^ 64
  pub path_offset : e.path_offset < 2 ^ 32
  pub path_len : e.path_len < 65536
  pub action_id : e.action_id < 65536
  pub identity : IsVariant e.identity
  pub gzip : IsVariant e.gzip
  pub brotli : IsVariant e.brotli
  pub hole_offset : e.hole_offset < 2 ^ 32
  pub methods : e.methods < 65536
  pub mw_count : e.mw_count < 256
  pub mw_offset : e.mw_offset < 2 ^ 32

u16_read : (n : ℕ) (s : Bytes) → n < 65536 → u16_at (u16_bytes n ++ s) ≡ n
unfolding u16_at u16_bytes
u16_read n s h = omega arith

pub u32_read : (n : ℕ) (s : Bytes) → n < 2 ^ 32 → u32_at (u32_bytes n ++ s) ≡ n
unfolding u32_at u32_bytes
u32_read n s h = omega arith

u64_read : (n : ℕ) (s : Bytes) → n < 2 ^ 64 → u64_at (u64_bytes n ++ s) ≡ n
unfolding u64_at u64_bytes u32_at u32_bytes
u64_read n s h = omega arith

variant_read : (v : Variant) (s : Bytes) → IsVariant v → variant_at (variant_bytes v ++ s) ≡ v
unfolding variant_at variant_bytes u16_bytes u32_bytes u16_at u32_at
variant_read v s h =
    let a : u16_at (variant_bytes v ++ s) ≡ v.head_id = omega (arith, h.head_id) in
    let b : u32_at (drop 4 (variant_bytes v ++ s)) ≡ v.data_offset = omega (arith, h.data_offset) in
    let c : u32_at (drop 8 (variant_bytes v ++ s)) ≡ v.data_len = omega (arith, h.data_len) in
    λ i. record { head_id = a i; data_offset = b i; data_len = c i }

-- An entry is read back from its bytes, whatever follows them.
pub entry_at-entry_bytes :
    (e : RouteEntry) (s : Bytes) → IsEntry e → entry_at (entry_bytes e ++ s) ≡ e
unfolding entry_at entry_bytes u64_bytes u32_bytes u16_bytes variant_bytes
entry_at-entry_bytes e s h =
    let t : Bytes = entry_bytes e ++ s in
    let hash : u64_at t ≡ e.path_hash = u64_read e.path_hash (drop 8 t) h.path_hash in
    let off : u32_at (drop 8 t) ≡ e.path_offset =
      u32_read e.path_offset (drop 12 t) h.path_offset in
    let len : u16_at (drop 12 t) ≡ e.path_len = u16_read e.path_len (drop 14 t) h.path_len in
    let action : u16_at (drop 14 t) ≡ e.action_id = u16_read e.action_id (drop 16 t) h.action_id in
    let v0 : variant_at (drop 16 t) ≡ e.identity = variant_read e.identity (drop 28 t) h.identity in
    let v1 : variant_at (drop 28 t) ≡ e.gzip = variant_read e.gzip (drop 40 t) h.gzip in
    let v2 : variant_at (drop 40 t) ≡ e.brotli = variant_read e.brotli (drop 52 t) h.brotli in
    let hole : u32_at (drop 52 t) ≡ e.hole_offset =
      u32_read e.hole_offset (drop 56 t) h.hole_offset in
    let mask : u16_at (drop 56 t) ≡ e.methods = u16_read e.methods (drop 58 t) h.methods in
    let mws : u8_at (drop 58 t) ≡ e.mw_count = omega (arith, h.mw_count) in
    let mw : u32_at (drop 60 t) ≡ e.mw_offset = u32_read e.mw_offset s h.mw_offset in
    λ i. record {
      path_hash = hash i;
      path_offset = off i;
      path_len = len i;
      action_id = action i;
      identity = v0 i;
      gzip = v1 i;
      brotli = v2 i;
      hole_offset = hole i;
      methods = mask i;
      mw_count = mws i;
      mw_offset = mw i;
    }

pub length-entry_bytes : (e : RouteEntry) → length (entry_bytes e) ≡ 64
unfolding entry_bytes u64_bytes u32_bytes u16_bytes variant_bytes
length-entry_bytes e = refl

pub drop-entry_bytes : (e : RouteEntry) (s : Bytes) → drop 64 (entry_bytes e ++ s) ≡ s
unfolding entry_bytes u64_bytes u32_bytes u16_bytes variant_bytes
drop-entry_bytes e s = refl
