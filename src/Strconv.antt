-- ===== src/Strconv.antt =====
-- What go/cambium/number.go uses of Go's strconv and strings: `FormatUint`, `ParseUint` with base 0 or
-- 10, `ParseInt` with base 10, `TrimSpace` and `Split`. A text is the list of its code points.
pub mod Format
use cambium.Prelude.{
  ℕ, zero, suc, ◌+◌, ◌-◌, ◌*◌, ◌/◌, ◌%◌, ◌^◌, Bool, true, false, not, ◌&&◌, ◌||◌, List, [], ◌∷◌,
  ◌++◌, ltb, leb, ◌==◌, if◌then◌else◌,
}
use mathlib.Core.List.{reverse}
use cambium.Prelude.Int.{ℤ, pos, neg}
use cambium.Prelude.Result.{Result, ok, err, ◌>>=◌}

abbrev pub Text : Type 0
Text = List ℕ

pub data NumError : Type 0 where
  syntax_error range_error : NumError

abbrev pub max_uint64 : ℕ
max_uint64 = 2 ^ 64 - 1

-- `FormatUint(n, 10)`, from the last digit to the first; the fuel bounds the count of digits.
unfoldable pub digits_onto : ℕ → ℕ → Text → Text
digits_onto zero n acc = acc
digits_onto (suc f) n acc =
    let more = digits_onto f (n / 10) ((b'0' + n % 10) ∷ acc) in
    if ltb n 10 then (b'0' + n) ∷ acc else more

unfoldable pub format_uint : ℕ → Text
unfolding digits_onto
format_uint n = digits_onto (suc n) n []

-- `c | ('x' - 'X')`: sets bit 5.
unfoldable pub lower : ℕ → ℕ
lower c = if (c / 32) % 2 == 0 then c + 32 else c

unfoldable pub digit_value : ℕ → Result NumError ℕ
unfolding lower
digit_value c =
    if leb b'0' c && leb c b'9'
    then ok (c - b'0')
    else if leb b'a' (lower c) && leb (lower c) b'z'
    then ok (lower c - b'a' + 10)
    else err syntax_error

-- One digit more, in 64-bit arithmetic, with the two tests for overflow.
unfoldable pub add_digit : ℕ → ℕ → ℕ → Result NumError ℕ
add_digit base n d =
    let scaled = n * base % 2 ^ 64 in
    let n1 = (scaled + d) % 2 ^ 64 in
    if leb base d
    then err syntax_error
    else if leb (max_uint64 / base + 1) n
    then err range_error
    else if ltb n1 scaled || ltb max_uint64 n1
    then err range_error
    else ok n1

-- The loop of `ParseUint`: the number, and whether an underscore was passed over.
unfoldable pub parse_digits : Bool → ℕ → ℕ → Bool → Text → Result NumError (ℕ × Bool)
unfolding digit_value add_digit
parse_digits base0 base n underscores [] = ok (n, underscores)
parse_digits base0 base n underscores (c ∷ s) =
    let skipped = parse_digits base0 base n true s in
    let onward =
      (digit_value c >>= λ d.
      add_digit base n d >>= λ n1. parse_digits base0 base n1 underscores s) in
    if base0 && (c == b'_') then skipped else onward

pub data Saw : Type 0 where
  start digit underscore other : Saw

-- `underscoreOK`: an underscore stands only between digits, or between the base's prefix and a digit.
underscore_scan : Bool → Saw → Text → Bool
underscore_scan hex Saw.underscore [] = false
underscore_scan hex saw [] = true
underscore_scan hex saw (c ∷ s) =
    let after_digit = underscore_scan hex Saw.digit s in
    let after_underscore = underscore_scan hex Saw.underscore s in
    let after_other = underscore_scan hex Saw.other s in
    if (leb b'0' c && leb c b'9') || (hex && leb b'a' (lower c) && leb (lower c) b'f')
    then after_digit
    else if c == b'_'
    then elim saw [ digit ↦ after_underscore | _ ↦ false ]
    else elim saw [ underscore ↦ false | _ ↦ after_other ]

is_base_letter : ℕ → Bool
is_base_letter c = (lower c == b'b') || (lower c == b'o') || (lower c == b'x')

underscore_prefix : Text → Bool
underscore_prefix (z ∷ c ∷ s) =
    if (z == b'0') && is_base_letter c
    then underscore_scan (lower c == b'x') Saw.digit s
    else underscore_scan false Saw.start (z ∷ c ∷ s)
underscore_prefix s = underscore_scan false Saw.start s

unfoldable pub underscore_ok : Text → Bool
unfolding underscore_prefix underscore_scan is_base_letter lower
underscore_ok [] = true
underscore_ok (c ∷ s) =
    if (c == b'-') || (c == b'+') then underscore_prefix s else underscore_prefix (c ∷ s)

-- The base that a leading zero selects, with the text behind the prefix.
unfoldable pub base_of : Text → ℕ × Text
unfolding lower
base_of (z ∷ c ∷ d ∷ s) =
    if z == b'0'
    then (if lower c == b'b'
        then (2, d ∷ s)
        else if lower c == b'o'
        then (8, d ∷ s)
        else if lower c == b'x'
        then (16, d ∷ s)
        else (8, c ∷ d ∷ s))
    else (10, z ∷ c ∷ d ∷ s)
base_of (z ∷ s) = if z == b'0' then (8, s) else (10, z ∷ s)
base_of [] = (10, [])

checked : Text → ℕ × Bool → Result NumError ℕ
checked s (n, underscores) = if underscores && not (underscore_ok s) then err syntax_error else ok n

-- `ParseUint(s, 0, 64)`.
unfoldable pub parse_uint : Text → Result NumError ℕ
unfolding checked underscore_ok base_of parse_digits
parse_uint [] = err syntax_error
parse_uint (c ∷ s) = do
  let (base, digits) = base_of (c ∷ s)
  r ← parse_digits true base 0 false digits
  checked (c ∷ s) r

-- `ParseUint(s, 10, 64)`.
unfoldable pub parse_uint_base10 : Text → Result NumError ℕ
unfolding parse_digits
parse_uint_base10 [] = err syntax_error
parse_uint_base10 (c ∷ s) = do (n, _) ← parse_digits false 10 0 false (c ∷ s); ok n

-- The bounds of an int64.
unfoldable pub to_int64 : Bool → ℕ → Result NumError ℤ
to_int64 negative un =
    if not negative && leb (2 ^ 63) un
    then err range_error
    else if negative && ltb (2 ^ 63) un
    then err range_error
    else ok (if negative then neg un else pos un)

-- `ParseInt(s, 10, 64)`.
unfoldable pub parse_int64 : Text → Result NumError ℤ
unfolding parse_uint_base10 to_int64
parse_int64 [] = err syntax_error
parse_int64 (c ∷ s) =
    if (c == b'+') || (c == b'-')
    then (do un ← parse_uint_base10 s; to_int64 (c == b'-') un)
    else (do un ← parse_uint_base10 (c ∷ s); to_int64 false un)

-- `unicode.IsSpace`.
unfoldable pub is_space : ℕ → Bool
is_space c =
    (leb 9 c && leb c 13)
    || (c == 32)
    || (c == 0x85)
    || (c == 0xA0)
    || (c == 0x1680)
    || (leb 0x2000 c && leb c 0x200A)
    || (c == 0x2028)
    || (c == 0x2029)
    || (c == 0x202F)
    || (c == 0x205F)
    || (c == 0x3000)

unfoldable pub trim_left : Text → Text
unfolding is_space
trim_left [] = []
trim_left (c ∷ s) = let rest = trim_left s in if is_space c then rest else c ∷ s

unfoldable pub trim_space : Text → Text
unfolding trim_left
trim_space s = reverse (trim_left (reverse (trim_left s)))

-- `strings.Split(s, sep)` for a separator of one character, and for one character twice.
split_onto : ℕ → Text → Text → List Text
split_onto sep part [] = part ∷ []
split_onto sep part (c ∷ s) =
    let cut = part ∷ split_onto sep [] s in
    let longer = split_onto sep (part ++ c ∷ []) s in if c == sep then cut else longer

unfoldable pub split : ℕ → Text → List Text
unfolding split_onto
split sep s = split_onto sep [] s

split_twice_onto : ℕ → Text → Text → List Text
split_twice_onto sep part [] = part ∷ []
split_twice_onto sep part (c ∷ []) = (part ++ c ∷ []) ∷ []
split_twice_onto sep part (c ∷ d ∷ s) =
    let cut = part ∷ split_twice_onto sep [] s in
    let longer = split_twice_onto sep (part ++ c ∷ []) (d ∷ s) in
    if (c == sep) && (d == sep) then cut else longer

unfoldable pub split_twice : ℕ → Text → List Text
unfolding split_twice_onto
split_twice sep s = split_twice_onto sep [] s
