-- ===== src/XsdClass.antt =====
-- go/internal/xsdregex/pattern.go: the atoms of a character class. A text is the list of its runes,
-- and a position in it the runes from there on.
use cambium.XsdClass.Tables.{
  xml_name_char_ranges, xml_name_start_ranges, xml_whitespace_ranges, unicode_block_ranges,
}
use cambium.IfFeature.Tokenizer.{codes, same_word}
pub mod Tables
pub mod Atom
pub mod Scan
pub mod Expr
pub mod Syntax
pub mod Atoms
pub mod Contents
pub mod Passing
pub mod Brackets
pub mod RoundTrip
pub mod Strides
pub mod Fuel
pub mod Native
pub mod Rewriting
use cambium.Prelude.{
  take, drop, ℕ, zero, suc, ◌+◌, ◌-◌, ◌*◌, ◌/◌, ◌%◌, ◌^◌, ◌≤◌, ◌<◌, ◌≡◌, refl, sym, ap, ◌∙◌, ◌≢◌,
  ◌↔◌, ◌⊎◌, inl, inr, Bool, true, false, not, ◌&&◌, ◌||◌, Option, none, some, List, [], ◌∷◌, ◌++◌,
  map, arith, ltb, leb, ◌==◌, if◌then◌else◌, Bool-cases, Option-cases, length, All, Any, All-map,
  All-append, ltb→lt, leb→le,
}
use mathlib.Core.Option
use cambium.Strconv.{Text}
use cambium.XsdRanges.{complement_ranges, normalize_ranges, max_rune, RuneRange}

-- An entry of a `unicode.RangeTable`, of R16 or of R32.
pub record Strided : Type 0 where
  pub lo : ℕ
  pub hi : ℕ
  pub stride : ℕ

-- R16 and R32.
pub record RangeTable : Type 0 where
  pub r16 : List Strided
  pub r32 : List Strided

-- What the parser takes from Go's libraries: the map `unicode.Categories`, and the ranges of the class
-- that `syntax.Parse` reads, if it reads one.
pub record GoUnicode : Type 0 where
  pub categories : Text → Option RangeTable
  pub char_class : Text → Option (List (ℕ × ℕ))

-- The loop of `appendStridedRange`, on as much fuel as there are code points.
unfoldable pub strided_from : (fuel r hi stride : ℕ) → List RuneRange
strided_from zero r hi stride = []
strided_from (suc fuel) r hi stride =
    let rest = strided_from fuel (r + stride) hi stride in
    if leb r hi then record { lo = r; hi = r } ∷ rest else []

unfoldable pub append_strided_range : List RuneRange → Strided → List RuneRange
unfolding strided_from
append_strided_range ranges e =
    if leb e.stride 1
    then ranges ++ record { lo = e.lo; hi = e.hi } ∷ []
    else ranges ++ strided_from (suc e.hi - e.lo) e.lo e.hi e.stride

unfoldable pub append_r16 : List RuneRange → List Strided → List RuneRange
unfolding append_strided_range
append_r16 ranges [] = ranges
append_r16 ranges (e ∷ es) = append_r16 (append_strided_range ranges e) es

unfoldable pub append_r32 : List RuneRange → List Strided → List RuneRange
unfolding append_strided_range
append_r32 ranges [] = ranges
append_r32 ranges (e ∷ es) =
    let skip = append_r32 ranges es in
    let onward = append_r32 (append_strided_range ranges e) es in
    if ltb max_rune e.lo || (ltb max_rune e.hi || ltb max_rune e.stride) then skip else onward

unfoldable pub unicode_range_table_ranges : RangeTable → List RuneRange
unfolding append_r16 append_r32
unicode_range_table_ranges t = normalize_ranges (append_r32 (append_r16 [] t.r16) t.r32)

unfoldable pub complement_if : Bool → List RuneRange → List RuneRange
unfolding complement_ranges
complement_if complement ranges = if complement then complement_ranges ranges else ranges

unfoldable pub block_of : List (Text × List RuneRange) → Text → Option (List RuneRange)
block_of [] name = none
block_of ((key, ranges) ∷ rest) name =
    if same_word key name then some ranges else block_of rest name

-- What is behind the prefix `Is`.
unfoldable pub block_name : Text → Option Text
block_name (c ∷ d ∷ rest) = if (c == b'I') && (d == b's') then some rest else none
block_name _ = none

-- `unicodeBlockClassRanges` behind the prefix.
unfoldable pub unicode_block_class_ranges : Text → Bool → Option (List RuneRange)
unfolding block_of complement_if
unicode_block_class_ranges name complement =
    Option.map (complement_if complement) (block_of unicode_block_ranges name)

module _ (go : GoUnicode) where
  unfoldable pub category_tables : List Text → Option (List RuneRange)
  unfolding unicode_range_table_ranges
  category_tables [] = some []
  category_tables (c ∷ cs) =
      let rest = category_tables cs in
      elim (go.categories c) [
        | none ↦ none
        | some table ↦ Option.map (λ rs. unicode_range_table_ranges table ++ rs) rest
      ]

  unfoldable pub unicode_category_ranges : List Text → Bool → Option (List RuneRange)
  unfolding category_tables complement_if
  unicode_category_ranges categories complement =
      Option.map (λ rs. complement_if complement (normalize_ranges rs)) (category_tables categories)

  unfoldable pub table_class_ranges : Text → Bool → Option (List RuneRange)
  unfolding complement_if unicode_range_table_ranges
  table_class_ranges category complement =
      Option.map (λ table. complement_if complement (unicode_range_table_ranges table))
        (go.categories category)

  unfoldable pub unicode_class_ranges : Text → Bool → Option (List RuneRange)
  unfolding unicode_block_class_ranges block_name table_class_ranges
  unicode_class_ranges category complement = elim (block_name category) [
    | some name ↦ unicode_block_class_ranges name complement
    | none ↦ table_class_ranges category complement
  ]
