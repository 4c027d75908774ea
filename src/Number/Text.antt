-- ===== src/Number/Text.antt =====
-- go/cambium/number.go: `String`, `ParseInt`, `ParseDecimal` and `decimalValueFromString`.
pub mod Padding
pub mod RoundTrip
pub mod Decimal
use cambium.Prelude.{
  ℕ, zero, suc, ◌+◌, ◌-◌, Bool, true, false, ◌||◌, Option, none, some, List, [], ◌∷◌, ◌++◌, length,
  replicate, take, drop, ltb, leb, ◌==◌, if◌then◌else◌,
}
use cambium.Prelude.Int.{ℤ, pos, negsuc}
use cambium.Prelude.Result.{Result, ok, err, ◌>>=◌, map_err}
use cambium.Strconv.{
  Text, NumError, syntax_error, range_error, format_uint, parse_uint, parse_int64, trim_space,
}
use cambium.Number.{Number, is_decimal, max_fraction_digits}

pub data NumberError : Type 0 where
  empty_string sign_with_no_value bad_fraction_digits too_much_precision : NumberError
  conversion : NumError → NumberError

-- The digits with a point in front of the last `fd` of them, after zeros that leave one digit before it.
point_digits : ℕ → Text → Text
point_digits fd out =
    let padded =
      (if leb (length out) fd then replicate (fd - length out + 1) b'0' ++ out else out) in
    let split = length padded - fd in take split padded ++ (b'.' ∷ drop split padded)

unfoldable pub string : Number → Text
unfolding point_digits is_decimal
string n =
    let out = format_uint n.value in
    let out' = (if is_decimal n then point_digits n.fraction_digits out else out) in
    if n.negative then b'-' ∷ out' else out'

-- `n.Value, err = strconv.ParseUint(unsigned, 0, 64)`.
unsigned_value : Bool → Text → Result NumberError Number
unsigned_value negative s = map_err conversion (parse_uint s) >>= λ v.
    ok (record { value = v; fraction_digits = 0; negative = negative })

unfoldable pub parse_int_trimmed : Text → Result NumberError Number
unfolding unsigned_value
parse_int_trimmed [] = err empty_string
parse_int_trimmed (c ∷ []) =
    if (c == b'+') || (c == b'-') then err sign_with_no_value else unsigned_value false (c ∷ [])
parse_int_trimmed (c ∷ d ∷ s) =
    if c == b'+'
    then unsigned_value false (d ∷ s)
    else if c == b'-'
    then unsigned_value true (d ∷ s)
    else unsigned_value false (c ∷ d ∷ s)

unfoldable pub parse_int : Text → Result NumberError Number
unfolding parse_int_trimmed
parse_int s = parse_int_trimmed (trim_space s)

-- `strings.Index(s, sep)` for one character, with the texts before and behind it.
unfoldable pub cut : ℕ → Text → Option (Text × Text)
cut sep [] = none
cut sep (c ∷ s) =
    let rest = cut sep s in
    if c == sep
    then some ([], s)
    else (elim rest [ none ↦ none | some (before, after) ↦ some (c ∷ before, after) ])

-- The text without its point, and the count of digits that stood behind the point.
drop_point : Text → Option (Text × Text) → Result NumberError (Text × ℕ)
drop_point s none = ok (s, 0)
drop_point s (some (before, after)) =
    if ltb max_fraction_digits (length after)
    then err too_much_precision
    else ok (before ++ after, length after)

-- The magnitude and the sign of an int64.
unfoldable pub decimal_number : ℕ → ℤ → Number
decimal_number fd (pos v) = record { value = v; fraction_digits = fd; negative = false }
decimal_number fd (negsuc v) = record { value = v + 1; fraction_digits = fd; negative = true }

unfoldable pub decimal_value_from_string : Text → ℕ → Result NumberError Number
unfolding cut drop_point decimal_number
decimal_value_from_string s required =
    if ltb max_fraction_digits required || ltb required 1
    then err bad_fraction_digits
    else (drop_point s (cut b'.' s) >>= λ (digits, fd).
        if ltb required fd
        then err too_much_precision
        else (map_err conversion (parse_int64 (digits ++ replicate (required - fd) b'0')) >>= λ v.
            ok (decimal_number required v)))

unfoldable pub parse_decimal_trimmed : Text → ℕ → Result NumberError Number
unfolding decimal_value_from_string
parse_decimal_trimmed [] required = err empty_string
parse_decimal_trimmed (c ∷ []) required =
    if (c == b'+') || (c == b'-')
    then err sign_with_no_value
    else decimal_value_from_string (c ∷ []) required
parse_decimal_trimmed (c ∷ d ∷ s) required = decimal_value_from_string (c ∷ d ∷ s) required

unfoldable pub parse_decimal : Text → ℕ → Result NumberError Number
unfolding parse_decimal_trimmed
parse_decimal s required = parse_decimal_trimmed (trim_space s) required
