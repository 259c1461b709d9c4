-- ===== src/Base/Numerals.antt =====
-- Go's integers in text: `strconv.AppendInt` and `strconv.AppendUint` of the standard library, and the
-- 64-bit FNV-1a hash of `hash/fnv`.
use Prim.Native.Nat.{ℕ, zero, suc, ◌+◌, ◌-◌, ◌*◌, ◌/◌, ◌%◌, ◌^◌, bit_xor}
use mathlib.Core.List.{[], ◌∷◌}
use web_spa.Base.Tests.{ltb, if◌then◌else◌}
use web_spa.Base.Text.{Bytes}

-- `negsuc n` is -(n + 1).
pub data ℤ : Type 0 where
  pos : ℕ → ℤ
  negsuc : ℕ → ℤ

-- The digits of `n` before those of `acc`; each round drops a digit, so `suc n` is fuel enough.
unfoldable pub decimal_from : ℕ → ℕ → Bytes → Bytes
decimal_from zero n acc = acc
decimal_from (suc fuel) n acc =
    let rest = decimal_from fuel (n / 10) ((b'0' + n % 10) ∷ acc) in
    if ltb n 10 then (b'0' + n) ∷ acc else rest

unfoldable pub decimal : ℕ → Bytes
unfolding decimal_from
decimal n = decimal_from (suc n) n []

unfoldable pub append_int : ℤ → Bytes
unfolding decimal
append_int (pos n) = decimal n
append_int (negsuc n) = b'-' ∷ decimal (suc n)

abbrev pub hex_digit : ℕ → ℕ
hex_digit d = if ltb d 10 then b'0' + d else b'a' + (d - 10)

unfoldable pub hex_from : ℕ → ℕ → Bytes → Bytes
hex_from zero n acc = acc
hex_from (suc fuel) n acc =
    let rest = hex_from fuel (n / 16) (hex_digit (n % 16) ∷ acc) in
    if ltb n 16 then hex_digit n ∷ acc else rest

unfoldable pub hex : ℕ → Bytes
unfolding hex_from
hex n = hex_from (suc n) n []

unfoldable pub fnv_1a_from : ℕ → Bytes → ℕ
fnv_1a_from h [] = h
fnv_1a_from h (b ∷ s) = fnv_1a_from (bit_xor h b * 1099511628211 % 2 ^ 64) s

unfoldable pub fnv_1a : Bytes → ℕ
unfolding fnv_1a_from
fnv_1a s = fnv_1a_from 14695981039346656037 s
