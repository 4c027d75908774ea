-- ===== src/Pattern/Decimal.antt =====
-- go/yangpattern/runtime_program.go: the decimal strings that bound a repetition.
pub mod Laws
use cambium.Prelude.Comparison.{Comparison, above, below, compare_text}
use cambium.Prelude.{
  ℕ, zero, suc, ◌+◌, ◌-◌, ◌*◌, ◌/◌, ◌%◌, ◌^◌, ◌≤◌, ◌<◌, ◌≡◌, refl, sym, ap, ◌∙◌, ◌≢◌, ◌↔◌, ◌⊎◌, inl,
  inr, Bool, true, false, not, ◌&&◌, ◌||◌, Option, none, some, List, [], ◌∷◌, ◌++◌, map, arith, ltb,
  leb, ◌==◌, if◌then◌else◌, Bool-cases, Option-cases, length, All, Any, All-map, All-append, ltb→lt,
  leb→le,
}
use cambium.Strconv.{Text}
use cambium.Pattern.{add_sat, mul_sat}

unfoldable pub all_digits : Text → Bool
all_digits [] = true
all_digits (c ∷ s) = leb b'0' c && leb c b'9' && all_digits s

unfoldable pub canonical_decimal : Text → Bool
unfolding all_digits
canonical_decimal [] = false
canonical_decimal (c ∷ s) =
    if ltb 1 (length (c ∷ s)) && (c == b'0') then false else all_digits (c ∷ s)

unfoldable pub decimal_compare : Text → Text → Comparison
unfolding compare_text
decimal_compare a b =
    if ltb (length a) (length b)
    then below
    else if ltb (length b) (length a)
    then above
    else compare_text a b

-- The loop of `decimalUint`; the difference of two bytes wraps at 256.
unfoldable pub uint_from : ℕ → Text → ℕ
unfolding add_sat mul_sat
uint_from n [] = n
uint_from n (c ∷ s) = uint_from (add_sat (mul_sat n 10) ((c + (256 - b'0')) % 256)) s

unfoldable pub decimal_uint : Text → ℕ
unfolding uint_from
decimal_uint s = uint_from 0 s
