-- ===== src/Dispatch/Allow.antt =====
-- The Allow line of a 405 response (cmd/main/main.go, modules/router/v2_binary.go), against the
-- methods that the dispatch admits.
use Prim.Native.Nat.{bit_and}
use web_spa.Base.{ℕ, ◌<◌, ◌≡◌, ◌≢◌, refl, sym, Bool, true, false, not, ◌==◌}
use web_spa.Gogohttp.Types.{Method, method_string, unknown}
use web_spa.OutputCache.{contains_token, token_from, starts_with}
use web_spa.Router.Methods.{allow_header_value}
use web_spa.Router.Methods.Masks.{masks_pass, masks_pass_at}
use web_spa.Dispatch.{method_bit_for}

-- Whether the dispatch admits a method on a route with this mask.
abbrev pub admits : ℕ → Method → Bool
admits bits m = not (bit_and bits (method_bit_for m) == 0)

same_bool : Bool → Bool → Bool
same_bool true b = b
same_bool false b = not b

same_bool→eq : (a b : Bool) → same_bool a b ≡ true → a ≡ b
unfolding same_bool
same_bool→eq true b h = sym h
same_bool→eq false true h = h
same_bool→eq false false h = refl

-- The Allow line of a mask lists a method exactly if the mask admits it.
lists_right : Method → ℕ → Bool
lists_right m bits =
    same_bool (contains_token (allow_header_value bits) (method_string m)) (admits bits m)

lists_right_table : (m : Method) → m ≢ unknown → masks_pass (lists_right m) 512 ≡ true
unfolding masks_pass lists_right same_bool contains_token token_from starts_with allow_header_value
    method_string method_bit_for
lists_right_table Method.unknown h = absurd (h refl)
lists_right_table Method.get h = refl
lists_right_table Method.head h = refl
lists_right_table Method.post h = refl
lists_right_table Method.put h = refl
lists_right_table Method.delete h = refl
lists_right_table Method.options h = refl
lists_right_table Method.patch h = refl
lists_right_table Method.connect h = refl
lists_right_table Method.trace h = refl

-- For every mask of the nine methods and every known method, the Allow line that the server prepares
-- for the mask lists the method exactly if the dispatch admits it on a route with that mask.
pub contains_token-allow_header_value :
    (bits : ℕ) (m : Method)
    → bits < 512
    → m ≢ unknown
    → contains_token (allow_header_value bits) (method_string m) ≡ admits bits m
unfolding lists_right
contains_token-allow_header_value bits m inside known =
    same_bool→eq _ _ (masks_pass_at (lists_right m) 512 bits inside (lists_right_table m known))
