-- ===== src/YangRange/Parse.antt =====
-- go/cambium/number.go: `String` of ranges, `ParseRangesInt`, `ParseRangesDecimal` and
-- `parseChildRanges`, which resolves `min` and `max` in the parent's ranges.
use cambium.Prelude.Result.{◌>>=◌, ok, map_err, err, Result}
use cambium.Strconv.{split_twice, trim_space, split, Text}
use cambium.YangRange.{
  fine, bad, validate, contains, sort, bad, coalesce_ranges, Verdict, RangeError, YangRange, YRange,
}
use cambium.Number.Text.{parse_int, parse_decimal, string, NumberError}
pub mod Laws
use cambium.Prelude.{
  ℕ, zero, suc, ◌+◌, ◌-◌, ◌*◌, ◌/◌, ◌%◌, ◌^◌, ◌≤◌, ◌<◌, ◌≡◌, refl, sym, ap, ◌∙◌, ◌≢◌, ◌↔◌, ◌⊎◌, inl,
  inr, Bool, true, false, not, ◌&&◌, ◌||◌, Option, none, some, List, [], ◌∷◌, ◌++◌, map, arith, ltb,
  leb, ◌==◌, if◌then◌else◌, Bool-cases, Option-cases, length, All, Any, All-map, All-append, ltb→lt,
  leb→le,
}
use cambium.Number.{less, equal, Number}

pub data ParseError : Type 0 where
  no_parent_max no_parent_min too_many_dots out_of_order not_within : ParseError
  number : NumberError → ParseError
  range : RangeError → ParseError

-- `YRange.String`.
unfoldable pub range_string : YRange → Text
range_string r =
    if equal r.min r.max then string r.min else string r.min ++ (b'.' ∷ b'.' ∷ string r.max)

-- `YangRange.String`: `strings.Join` of the ranges by a bar.
unfoldable pub ranges_string : YangRange → Text
unfolding range_string
ranges_string [] = []
ranges_string (r ∷ []) = range_string r
ranges_string (r ∷ s ∷ rest) = range_string r ++ (b'|' ∷ ranges_string (s ∷ rest))

unfoldable pub text_eq : Text → Text → Bool
text_eq [] [] = true
text_eq (c ∷ s) (d ∷ t) = (c == d) && text_eq s t
text_eq _ _ = false

-- r[len(r)-1].Max of a sequence that begins with `first`.
unfoldable pub last_max : YRange → YangRange → Number
last_max first [] = first.max
last_max first (next ∷ rest) = last_max next rest

abbrev with_digits : ℕ → Number → Number
with_digits fd n = record n { fraction_digits = fd }

max_of : YangRange → ℕ → Result ParseError Number
max_of [] fd = err no_parent_max
max_of (first ∷ rest) fd = ok (with_digits fd (last_max first rest))

min_of : YangRange → ℕ → Result ParseError Number
min_of [] fd = err no_parent_min
min_of (first ∷ rest) fd = ok (with_digits fd first.min)

-- The closure `parseNumber`.
unfoldable pub parse_number : YangRange → Bool → ℕ → Text → Result ParseError Number
unfolding text_eq max_of min_of last_max
parse_number r decimal fd raw =
    if text_eq raw (b'm' ∷ b'a' ∷ b'x' ∷ [])
    then max_of r fd
    else if text_eq raw (b'm' ∷ b'i' ∷ b'n' ∷ [])
    then min_of r fd
    else if decimal
    then map_err ParseError.number (parse_decimal raw fd)
    else map_err ParseError.number (parse_int raw)

-- The upper end, from the texts behind the first one.
upper_bound : (Text → Result ParseError Number) → Number → List Text → Result ParseError Number
upper_bound parse lo [] = ok lo
upper_bound parse lo (b ∷ []) = parse (trim_space b)
upper_bound parse lo (b ∷ c ∷ bounds) = err too_many_dots

ordered_range : Number → Number → Result ParseError YRange
ordered_range lo hi = if less hi lo then err out_of_order else ok (record { min = lo; max = hi })

part_of_bounds : (Text → Result ParseError Number) → List Text → Result ParseError YRange
part_of_bounds parse [] = err too_many_dots
part_of_bounds parse (b ∷ bounds) =
    parse (trim_space b) >>= λ lo. upper_bound parse lo bounds >>= λ hi. ordered_range lo hi

-- The loop over the parts of the expression.
unfoldable pub parse_parts :
    (Text → Result ParseError Number) → List Text → Result ParseError YangRange
unfolding part_of_bounds upper_bound ordered_range
parse_parts parse [] = ok []
parse_parts parse (part ∷ parts) = part_of_bounds parse (split_twice b'.' part) >>= λ range.
    parse_parts parse parts >>= λ out. ok (range ∷ out)

validated : YangRange → Verdict → Result ParseError YangRange
validated out fine = ok out
validated out (bad e) = err (ParseError.range e)

-- What `parseChildRanges` does with the parts that it has read.
unfoldable pub child_ranges : YangRange → YangRange → Result ParseError YangRange
unfolding validated
child_ranges r parts =
    let out = coalesce_ranges (sort parts) in
    if contains r out then validated out (validate out) else err not_within

unfoldable pub parse_child_ranges : YangRange → Text → Bool → ℕ → Result ParseError YangRange
unfolding parse_parts child_ranges parse_number
parse_child_ranges r s decimal fd =
    parse_parts (parse_number r decimal fd) (split b'|' s) >>= child_ranges r

unfoldable pub parse_ranges_int : Text → Result ParseError YangRange
unfolding parse_child_ranges
parse_ranges_int s = parse_child_ranges [] s false 0

unfoldable pub parse_ranges_decimal : Text → ℕ → Result ParseError YangRange
unfolding parse_child_ranges
parse_ranges_decimal s fd = parse_child_ranges [] s true fd
