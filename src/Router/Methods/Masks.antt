-- ===== src/Router/Methods/Masks.antt =====
-- The masks of methods of modules/router/v2_binary.go, all 512 of them.
use web_spa.Base.{ℕ, zero, suc, ◌<◌, ◌≡◌, refl, Bool, true, ◌&&◌, ◌||◌, ◌==◌, ==_iff, arith}
use web_spa.Router.Methods.{with_head, parse_methods, allow_header_value}

-- Whether the masks from 0 on, as many as that, all pass.
unfoldable pub masks_pass : (ℕ → Bool) → ℕ → Bool
masks_pass test zero = true
masks_pass test (suc mask) = let smaller = masks_pass test mask in test mask && smaller

pub masks_pass_at :
    (test : ℕ → Bool) (count mask : ℕ)
    → mask < count
    → masks_pass test count ≡ true
    → test mask ≡ true
unfolding masks_pass
masks_pass_at test zero mask inside passed = elim inside [ ]
masks_pass_at test (suc last) mask inside passed = ground (arith, masks_pass_at test last mask)

round_trip : ℕ → Bool
round_trip m = m == 0 || parse_methods (allow_header_value m) == with_head m

round_trip_table : masks_pass round_trip 512 ≡ true
unfolding masks_pass round_trip parse_methods allow_header_value
round_trip_table = refl

-- The list of an Allow header is parsed back to the same methods, and HEAD where there is GET, for
-- every mask of the nine methods but the empty one.
pub parse_methods-allow_header_value :
    (bits : ℕ) → bits < 512 → 0 < bits → parse_methods (allow_header_value bits) ≡ with_head bits
unfolding round_trip
parse_methods-allow_header_value bits h some_method =
    (==_iff _ _).0 (ground (arith, masks_pass_at round_trip 512 bits h round_trip_table))
