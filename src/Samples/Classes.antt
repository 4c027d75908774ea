-- ===== src/Samples/Classes.antt =====
-- Runs and theorems of the character classes of patterns at small classes.
use cambium.XsdClass.Fuel.{class_expr_enough}
use cambium.XsdClass.Strides.{holds-unicode_range_table_ranges, in_entries}
use cambium.XsdClass.Rewriting.{native_pattern-print, unsupported_native_syntax-print}
use cambium.XsdClass.Native.{regexp_class_expr, unsupported_native_syntax, native_pattern}
use cambium.XsdClass.RoundTrip.{parse_class_expr_ranges-print}
use cambium.XsdRanges.Meaning.{holds}
use cambium.IfFeature.Tokenizer.{codes, same_word}
use cambium.XsdClass.Expr.{class_expr, parse_class_expr_ranges}
use cambium.XsdClass.Atom.{one_of, letter_ranges, literal_rune, decimal, class_letter}
use cambium.XsdClass.{
  unicode_block_class_ranges, unicode_range_table_ranges, unicode_category_ranges,
  unicode_class_ranges, GoUnicode, RangeTable,
}
use cambium.Prelude.{
  ℕ, ◌-◌, ◌≤◌, ◌≡◌, refl, true, false, ◌||◌, none, some, List, [], ◌∷◌, ◌++◌, arith, if◌then◌else◌,
  length,
}
use cambium.XsdRanges.{max_rune, RuneRange}
use cambium.XsdClass.Syntax.{
  IsClass, class_has, is_plain, rune_of, print_class, ClassExpr, plain, escaped, one, span, letter,
  property, group, without,
}

-- The decimal digits of ASCII, every second of the letters from a, and two wide ranges.
abbrev digits : RangeTable
digits = record {
  r16 =
      record { lo = 0x30; hi = 0x39; stride = 1 }
      ∷ record { lo = 0x61; hi = 0x65; stride = 2 }
      ∷ [];
  r32 = record { lo = 0x1D7CE; hi = 0x1D7FF; stride = 1 } ∷ [];
}

abbrev small_unicode : GoUnicode
small_unicode = record {
  categories = λ name. if same_word name (codes "Nd") then some digits else none;
  char_class = λ text. if same_word text (codes "[:digit:]") then some ((48, 57) ∷ []) else none;
}

-- [^a-c\d\]\p{IsGreek}-[x-[y]]]
abbrev nested_class : ClassExpr
nested_class =
    without true
      (span (plain b'a') (plain b'c')
        ∷ letter decimal false
        ∷ one (escaped b']')
        ∷ property false (codes "IsGreek")
        ∷ [])
      (without false (one (plain b'x') ∷ []) (group false (one (plain b'y') ∷ [])))

nested_text : print_class nested_class ≡ codes "[^a-c\\d\\]\\p{IsGreek}-[x-[y]]]"
unfolding print_class
nested_text = refl

abbrev digit_ranges : List RuneRange
digit_ranges =
    record { lo = 0x30; hi = 0x39 }
    ∷ record { lo = 0x61; hi = 0x61 }
    ∷ record { lo = 0x63; hi = 0x63 }
    ∷ record { lo = 0x65; hi = 0x65 }
    ∷ record { lo = 0x1D7CE; hi = 0x1D7FF }
    ∷ []

decimal_ranges : letter_ranges small_unicode decimal false ≡ some digit_ranges
unfolding letter_ranges same_word
decimal_ranges = refl

greek_ranges :
    unicode_class_ranges small_unicode (codes "IsGreek") false
    ≡ some (record { lo = 0x370; hi = 0x3FF } ∷ [])
unfolding unicode_class_ranges same_word
greek_ranges = refl

nested-IsClass : IsClass small_unicode nested_class
unfolding class_letter literal_rune rune_of is_plain one_of
nested-IsClass = (
  λ e. cc,
  (
    (refl, refl, (97, 99, refl, refl, omega arith)),
    (
      (digit_ranges, decimal_ranges),
      ((refl, (93, refl)), ((refl, λ e. cc, (_, greek_ranges)), tt)),
    ),
  ),
  (λ e. cc, (refl, tt), (λ e. cc, (refl, tt))),
)

parse_class_expr_ranges-print_example :
    (rs : List RuneRange) × (parse_class_expr_ranges small_unicode
        (print_class nested_class ++ codes "+")
      ≡ some (rs, length (print_class nested_class) - 1))
    × ((x : ℕ) → x ≤ max_rune → holds x rs ≡ class_has small_unicode x nested_class)
parse_class_expr_ranges-print_example =
    parse_class_expr_ranges-print small_unicode nested_class (codes "+") nested-IsClass

native_pattern-print_example :
    (rs : List RuneRange) × (native_pattern small_unicode (print_class nested_class ++ codes "+")
      ≡ regexp_class_expr rs false ++ native_pattern small_unicode (codes "+"))
    × ((x : ℕ) → x ≤ max_rune → holds x rs ≡ class_has small_unicode x nested_class)
native_pattern-print_example =
    native_pattern-print small_unicode true _ _ (codes "+") nested-IsClass

unsupported_native_syntax-print_example :
    unsupported_native_syntax small_unicode (print_class nested_class ++ codes "[a-[")
    ≡ unsupported_native_syntax small_unicode (codes "[a-[")
unfolding cambium.XsdClass.Atom.starts_posix print_class
unsupported_native_syntax-print_example =
    unsupported_native_syntax-print small_unicode nested_class (codes "[a-[") nested-IsClass refl

holds-unicode_range_table_ranges_example :
    holds b'c' (unicode_range_table_ranges digits)
    ≡ (in_entries b'c' digits.r16 || in_entries b'c' digits.r32)
holds-unicode_range_table_ranges_example =
    holds-unicode_range_table_ranges b'c' digits ((omega arith, omega arith, omega arith), tt)

class_expr_enough_example :
    class_expr small_unicode 16 (codes "[x-[y-[z]]]")
    ≡ class_expr small_unicode 11 (codes "[x-[y-[z]]]")
class_expr_enough_example =
    class_expr_enough small_unicode 16 11 (codes "[x-[y-[z]]]") (omega arith) (omega arith)

subtracts_text :
    native_pattern small_unicode (codes "[a-f-[c]]^\\d")
    ≡ codes "[\\x{61}-\\x{62}\\x{64}-\\x{66}]\\x{5E}[\\p{Nd}]"
unfolding native_pattern
subtracts_text = refl

malformed :
    unsupported_native_syntax small_unicode (codes "x[a-[")
    ≡ codes "unsupported or malformed character class syntax"
unfolding unsupported_native_syntax
malformed = refl

posix_text :
    parse_class_expr_ranges small_unicode (codes "[[:digit:]a]")
    ≡ some (record { lo = 48; hi = 57 } ∷ record { lo = 97; hi = 97 } ∷ [], 11)
unfolding parse_class_expr_ranges same_word
posix_text = refl
