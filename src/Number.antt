-- ===== src/Number.antt =====
-- go/cambium/number.go: `Number`, a YANG integer or decimal64 value, and its arithmetic. A uint64
-- or uint8 field is a natural number; what the code computes on it wraps at the field's width.
pub mod Order
pub mod Text
use cambium.Prelude.{
  ℕ, zero, suc, ◌+◌, ◌-◌, ◌*◌, ◌/◌, ◌%◌, ◌^◌, ◌≤◌, ◌<◌, Bool, true, false, not, ◌&&◌, Option, none,
  some, ltb, leb, ◌==◌, if◌then◌else◌,
}
use cambium.Prelude.Result.{Result, ok, err}
use cambium.Prelude.Int.{ℤ, pos, negsuc, neg, neg_part, ltb_ℤ, eqb_ℤ}

pub record Number : Type 0 where
  pub value : ℕ
  pub fraction_digits : ℕ
  pub negative : Bool

abbrev pub two64 : ℕ
two64 = 2 ^ 64

abbrev pub max_int64 : ℕ
max_int64 = 2 ^ 63 - 1

abbrev pub max_fraction_digits : ℕ
max_fraction_digits = 18

-- The number fits the widths of its fields.
abbrev pub InWidth : Number → Type 0
InWidth n = (n.value < two64) × (n.fraction_digits < 256)

unfoldable pub is_decimal : Number → Bool
is_decimal n = not (n.fraction_digits == 0)

-- The magnitude and the sign as one integer: the quanta of 10^(-fraction_digits).
unfoldable pub signed : Number → ℤ
signed n = if n.negative then neg n.value else pos n.value

-- The factor by which `scaledBigInt` multiplies the magnitude.
unfoldable pub scale : ℕ → ℕ
scale fd = if ltb fd 18 then 10 ^ (18 - fd) else 1

unfoldable pub scaled_big_int : Number → ℤ
unfolding scale
scaled_big_int n =
    let out = n.value * scale n.fraction_digits in if n.negative then neg out else pos out

unfoldable pub less : Number → Number → Bool
less n m = ltb_ℤ (scaled_big_int n) (scaled_big_int m)

unfoldable pub equal : Number → Number → Bool
equal n m = eqb_ℤ (scaled_big_int n) (scaled_big_int m)

unfoldable pub add_quantum : Number → ℕ → Number
add_quantum n i =
    if n.negative
    then (if leb n.value i
        then record n { value = i - n.value; negative = false }
        else record n { value = n.value - i })
    else record n { value = (n.value + i) % two64 }

-- `for ; e > 0; e--`: the product wraps at 64 bits.
pow10_from : ℕ → ℕ → ℕ
pow10_from out zero = out
pow10_from out (suc e) = pow10_from (out * 10 % two64) e

unfoldable pub pow10_number : ℕ → ℕ
unfolding pow10_from
pow10_number e = pow10_from 1 e

-- `none` is the run-time panic of a division by zero.
unfoldable pub trunc : Number → Option ℕ
unfolding pow10_number
trunc n = let d = pow10_number n.fraction_digits in if d == 0 then none else some (n.value / d)

pub data IntError : Type 0 where
  called_on_decimal signed_overflow : IntError

unfoldable pub int : Number → Result IntError ℤ
unfolding is_decimal
int n =
    if is_decimal n
    then err called_on_decimal
    else if n.negative && (n.value == 2 ^ 63)
    then ok (neg (2 ^ 63))
    else if n.negative && leb n.value max_int64
    then ok (neg n.value)
    else if not n.negative && leb n.value max_int64
    then ok (pos n.value)
    else err signed_overflow

-- `uint64(-i)` of a negative int64, the least one included, whose negation wraps to itself.
unfoldable pub from_int : ℤ → Number
from_int (pos i) = record { value = i; fraction_digits = 0; negative = false }
from_int (negsuc i) = record {
  value = neg_part (negsuc i) % two64;
  fraction_digits = 0;
  negative = true;
}

unfoldable pub from_uint : ℕ → Number
from_uint i = record { value = i; fraction_digits = 0; negative = false }
