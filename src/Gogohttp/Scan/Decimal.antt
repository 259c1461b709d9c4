-- ===== src/Gogohttp/Scan/Decimal.antt =====
-- `parseDecimal` of modules/gogohttp/parser.go, against the value of a decimal numeral.
use web_spa.Base.{
  ℕ, ◌+◌, ◌-◌, ◌*◌, ◌≤◌, ◌≡◌, ◌≢◌, refl, ◌↔◌, true, [], ◌∷◌, some, Bytes, all, arith,
}
use web_spa.Gogohttp.Scan.{decimal_max, is_digit, parse_decimal_from, parse_decimal}

-- The value of digits that follow digits of value `n`, with no bound.
pub decimal_value : ℕ → Bytes → ℕ
decimal_value n [] = n
decimal_value n (c ∷ b) = decimal_value (n * 10 + (c - b'0')) b

decimal_value_mono : (n : ℕ) (b : Bytes) → n ≤ decimal_value n b
unfolding decimal_value
decimal_value_mono n [] = omega arith
decimal_value_mono n (c ∷ b) = omega (arith, decimal_value_mono (n * 10 + (c - b'0')) b)

-- The digits are a numeral of value `n` that the overflow guard admits.
abbrev pub IsDecimal : ℕ → Bytes → ℕ → Type 0
IsDecimal k b n = (all is_digit b ≡ true) × (decimal_value k b ≡ n) × (n ≤ decimal_max)

parse_decimal_from-IsDecimal :
    (k : ℕ) (b : Bytes) (n : ℕ)
    → k ≤ decimal_max
    → parse_decimal_from k b ≡ some n
    → IsDecimal k b n
unfolding parse_decimal_from decimal_value
parse_decimal_from-IsDecimal k [] n le h = ground arith
parse_decimal_from-IsDecimal k (c ∷ b) n le h =
    ground (arith, parse_decimal_from-IsDecimal (k * 10 + (c - b'0')) b n)

IsDecimal-parse_decimal_from :
    (k : ℕ) (b : Bytes) (n : ℕ)
    → k ≤ decimal_max
    → IsDecimal k b n
    → parse_decimal_from k b ≡ some n
unfolding parse_decimal_from decimal_value
IsDecimal-parse_decimal_from k [] n le h = ground arith
IsDecimal-parse_decimal_from k (c ∷ b) n le h = ground (
  arith,
  decimal_value_mono (k * 10 + (c - b'0')) b,
  IsDecimal-parse_decimal_from (k * 10 + (c - b'0')) b n,
)

-- A value is accepted exactly when it is a non-empty row of digits whose value is at most
-- 2^62 - 1, and the result is that value: no overflow, no sign, no blank.
pub parse_decimal_iff :
    (b : Bytes) (n : ℕ) → (parse_decimal b ≡ some n) ↔ ((b ≢ []) × IsDecimal 0 b n)
unfolding parse_decimal
parse_decimal_iff [] n = (λ h. absurd (ground arith), λ h. absurd (h.0 refl))
parse_decimal_iff (c ∷ b) n = (
  λ h. (λ e. absurd (ground arith), parse_decimal_from-IsDecimal 0 (c ∷ b) n (omega arith) h),
  λ h. IsDecimal-parse_decimal_from 0 (c ∷ b) n (omega arith) h.1,
)
