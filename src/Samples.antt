-- ===== src/Samples.antt =====
-- Runs of the definitions on small inputs, and the theorems at concrete inputs.
pub mod Features
pub mod Runes
pub mod Patterns
pub mod Naming
pub mod Orders
pub mod Leafrefs
pub mod Classes
use cambium.IfFeature.Expr.Printing.{print, Printable}
use mathlib.Core.List.{Perm}
use cambium.IfFeature.Expr.{eval_if_feature_expr}
use cambium.IfFeature.Expr.RoundTrip.{eval_if_feature_expr-print, tokenize-print}
use cambium.IfFeature.Completeness.{eval_tokens_complete, verdict}
use cambium.IfFeature.Soundness.{eval_tokens_sound}
use cambium.IfFeature.Fuel.{eval_tokens_total}
use cambium.XsdRanges.Subtract.{holds-subtract_ranges}
use cambium.XsdRanges.Complement.{holds-complement_ranges}
use cambium.XsdRanges.Normal.{holds-normalize_ranges, normalize_ranges-IsNormal}
use cambium.Number.Text.RoundTrip.{parse_int-string}
use cambium.IfFeature.Grammar.{
  or_end, negated, or_more, and_end, reference, plain, factors, alternatives, or_value, or_tokens,
  OrExpr,
}
use cambium.Number.Order.{int-from_int, signed-order, add_quantum-le, less_trichotomy}
use cambium.Prelude.Result.{err, ok}
use cambium.XsdRanges.{subtract_ranges, complement_ranges, normalize_ranges, RuneRange}
use cambium.IfFeature.{rejected, eval_tokens}
use cambium.IfFeature.Tokenizer.{
  tokenize_if_feature_expr, word_token, not_token, or_token, ident, same_word, codes, Token,
}
use cambium.Strconv.{Text}
use cambium.Number.Text.Decimal.{parse_decimal-string, IsDecimal64}
use cambium.Number.Text.{string, parse_decimal, parse_int}
use cambium.Prelude.Int.{◌≤ℤ◌, negsuc, ◌<ℤ◌}
use cambium.YangRange.Sorting.{sort-perm, sort-IsSorted, IsSorted}
use cambium.XsdRanges.Meaning.{holds, IsNormal}
use cambium.YangRange.Coalesce.{coalesce_ranges-Clean, IsSpaced, coalesce_ranges-Permits, HasNext}
use cambium.YangRange.Parse.Laws.{
  child_ranges-top, parse_child_ranges-Permits, parse_child_ranges-IsValid,
}
use cambium.YangRange.Parse.{child_ranges, parse_child_ranges}
use cambium.YangRange.Validation.{validate_iff}
use cambium.YangRange.Containment.{contains-Permits, contains_iff, Covered}
use cambium.YangRange.Meaning.{Le, Permits, IsValid}
use cambium.Prelude.{
  ℕ, ◌≡◌, refl, ◌↔◌, ◌⊎◌, inl, inr, Bool, true, false, not, ◌&&◌, Option, none, some, List, [], ◌∷◌,
  arith, if◌then◌else◌, All,
}
use cambium.Number.{signed, equal, Number, less, int, from_int, scaled_big_int, add_quantum}
use cambium.YangRange.Coalesce.{IsAscending}
use cambium.YangRange.{YRange, YangRange, validate, fine, contains, coalesce_ranges, sort}

abbrev whole : ℕ → Number
whole n = record { value = n; fraction_digits = 0; negative = false }

abbrev minus : ℕ → Number
minus n = record { value = n; fraction_digits = 0; negative = true }

abbrev span : ℕ → ℕ → YRange
span a b = record { min = whole a; max = whole b }

abbrev byte_ranges : YangRange
byte_ranges = span 0 10 ∷ span 20 255 ∷ []

abbrev narrow_ranges : YangRange
narrow_ranges = span 2 3 ∷ span 30 40 ∷ []

abbrev half : Number
half = record { value = 50; fraction_digits = 2; negative = true }

byte_ranges-IsValid : IsValid byte_ranges
unfolding validate less scaled_big_int
byte_ranges-IsValid = (validate_iff byte_ranges).0 refl

narrow_ranges-IsValid : IsValid narrow_ranges
unfolding validate less scaled_big_int
narrow_ranges-IsValid = (validate_iff narrow_ranges).0 refl

validate_iff_example : (validate byte_ranges ≡ fine) ↔ IsValid byte_ranges
validate_iff_example = validate_iff byte_ranges

contains_iff_example :
    (contains byte_ranges narrow_ranges ≡ true) ↔ All (Covered byte_ranges) narrow_ranges
contains_iff_example =
    contains_iff (span 0 10) (span 20 255 ∷ []) (span 2 3) (span 30 40 ∷ []) byte_ranges-IsValid
      narrow_ranges-IsValid

accepted : contains byte_ranges narrow_ranges ≡ true
unfolding contains less scaled_big_int
accepted = refl

half_range : Permits (span 30 40 ∷ []) (whole 35)
unfolding scaled_big_int
half_range = inl (omega arith, omega arith)

parsed : parse_child_ranges byte_ranges (codes "2..3|30..40") false 0 ≡ ok narrow_ranges
unfolding parse_child_ranges cambium.Strconv.split cambium.Strconv.split_twice
    cambium.Strconv.trim_space parse_int cambium.Strconv.parse_uint less scaled_big_int contains
    coalesce_ranges sort add_quantum validate
parsed = refl

parse_child_ranges-IsValid_example : IsValid narrow_ranges
parse_child_ranges-IsValid_example =
    parse_child_ranges-IsValid byte_ranges (codes "2..3|30..40") false 0 narrow_ranges parsed

parse_child_ranges-Permits_example : Permits byte_ranges (whole 35)
parse_child_ranges-Permits_example =
    parse_child_ranges-Permits (span 0 10) (span 20 255 ∷ []) (codes "2..3|30..40") false 0
      narrow_ranges (whole 35) parsed (inr half_range)

abbrev touching : YangRange
touching = span 0 10 ∷ span 11 20 ∷ span 15 30 ∷ span 40 50 ∷ []

touching-Le : All (λ r. Le r.min r.max) touching
unfolding scaled_big_int
touching-Le = (omega arith, (omega arith, (omega arith, (omega arith, tt))))

touching-HasNext : All (HasNext 0) touching
touching-HasNext =
    ((refl, omega arith), ((refl, omega arith), ((refl, omega arith), ((refl, omega arith), tt))))

touching-IsAscending : IsAscending touching
unfolding scaled_big_int
touching-IsAscending = ground arith

coalesce_ranges-Permits_example :
    Permits (coalesce_ranges touching) (whole 25) ↔ Permits touching (whole 25)
coalesce_ranges-Permits_example =
    coalesce_ranges-Permits 0 (whole 25) touching refl touching-IsAscending touching-HasNext

coalesce_ranges-Clean_example :
    IsValid (coalesce_ranges touching) × IsSpaced (coalesce_ranges touching)
coalesce_ranges-Clean_example =
    coalesce_ranges-Clean 0 touching touching-IsAscending touching-HasNext

child_ranges-top_example :
    (out : YangRange) × (child_ranges [] touching ≡ ok out)
    × ((x : Number) → x.fraction_digits ≡ 0 → Permits out x ↔ Permits touching x)
child_ranges-top_example = child_ranges-top 0 touching touching-Le touching-HasNext

signed-order_example :
    (scaled_big_int (minus 3) <ℤ scaled_big_int (whole 2)) ↔ (signed (minus 3) <ℤ signed (whole 2))
signed-order_example = signed-order (minus 3) (whole 2) refl

parse_int-string_example : parse_int (string (minus 128)) ≡ ok (minus 128)
parse_int-string_example = parse_int-string (minus 128) refl (omega arith)

half-IsDecimal64 : IsDecimal64 half
half-IsDecimal64 = record {
  some_digits = omega arith;
  few_digits = omega arith;
  positive = λ e. omega arith;
  below_zero = λ e. (omega arith, omega arith);
}

parse_decimal-string_example : parse_decimal (string half) 2 ≡ ok half
parse_decimal-string_example = parse_decimal-string half half-IsDecimal64
