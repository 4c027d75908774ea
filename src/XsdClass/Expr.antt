-- ===== src/XsdClass/Expr.antt =====
-- go/internal/xsdregex/pattern.go: the contents of a character class, and classes with subtraction.
use cambium.XsdClass.Scan.{Subtraction, find_class_subtraction, find_class_end}
use cambium.XsdClass.{complement_if, GoUnicode}
use cambium.XsdClass.Atom.{parse_class_atom, ClassAtom}
use cambium.Prelude.{
  take, drop, ℕ, zero, suc, ◌+◌, ◌-◌, Bool, true, false, not, ◌&&◌, ◌||◌, Option, none, some, List,
  [], ◌∷◌, ◌++◌, ltb, ◌==◌, if◌then◌else◌, length,
}
use mathlib.Core.Option
use cambium.Strconv.{Text}
use cambium.XsdRanges.{normalize_ranges, subtract_ranges, RuneRange}

-- A round of the loop of `parseClassContentRanges`: the ranges that it appends, the runes that it
-- reads, and `previousRange`.
pub record Piece : Type 0 where
  pub ranges : List RuneRange
  pub width : ℕ
  pub previous_range : Bool

unfoldable pub single_piece : ClassAtom → Piece
single_piece a = record { ranges = a.ranges; width = a.width; previous_range = false }

-- Two single runes, the ends of a range.
unfoldable pub range_piece : ClassAtom → ClassAtom → Option Piece
range_piece a b = elim a.single [
  | none ↦ none
  | some lo ↦ elim b.single [
    | none ↦ none
    | some hi ↦
        if a.raw_dash || (b.raw_dash || ltb hi lo)
        then none
        else some (record {
          ranges = record { lo = lo; hi = hi } ∷ [];
          width = a.width + (b.width + 1);
          previous_range = true;
        })
  ]
]

module _ (go : GoUnicode) where
  -- Behind the atom `a`, the runes from its `next` on.
  unfoldable pub after_atom : ClassAtom → Text → Option Piece
  unfolding single_piece range_piece parse_class_atom
  after_atom a [] = some (single_piece a)
  after_atom a (c ∷ []) = some (single_piece a)
  after_atom a (c ∷ d ∷ rest) =
      if c == b'-'
      then elim (parse_class_atom go (d ∷ rest)) [ none ↦ none | some b ↦ range_piece a b ]
      else some (single_piece a)

  -- `at_start` is `i == 0`.
  unfoldable pub content_piece : (at_start previous_range : Bool) → Text → Option Piece
  unfolding after_atom
  content_piece at_start previous_range runes = elim (parse_class_atom go runes) [
    | none ↦ none
    | some a ↦
        if a.raw_dash && (not at_start && (not (length runes == a.width) && not previous_range))
        then none
        else after_atom a (drop a.width runes)
  ]

  -- The loop; `skip` tells how many runes of the last piece are still to be passed.
  unfoldable pub content_pieces :
      (skip : ℕ) (at_start previous_range : Bool) → Text → Option (List RuneRange)
  unfolding content_piece
  content_pieces skip at_start previous_range [] = some []
  content_pieces (suc skip) at_start previous_range (c ∷ rest) =
      content_pieces skip at_start previous_range rest
  content_pieces zero at_start previous_range (c ∷ rest) =
      elim (content_piece at_start previous_range (c ∷ rest)) [
        | none ↦ none
        | some piece ↦
            Option.map (λ more. piece.ranges ++ more)
              (content_pieces (piece.width - 1) false piece.previous_range rest)
      ]

  unfoldable pub group_ranges : Bool → Text → Option (List RuneRange)
  unfolding content_pieces complement_if
  group_ranges negated [] = none
  group_ranges negated (c ∷ rest) =
      Option.map (λ rs. complement_if negated (normalize_ranges rs))
        (content_pieces 0 true false (c ∷ rest))

  unfoldable pub parse_class_content_ranges : Text → Option (List RuneRange)
  unfolding group_ranges
  parse_class_content_ranges [] = none
  parse_class_content_ranges (c ∷ rest) =
      if c == b'^' then group_ranges true rest else group_ranges false (c ∷ rest)

  -- A class without subtraction, and its last index.
  unfoldable pub plain_class : Text → Option (List RuneRange × ℕ)
  unfolding find_class_end parse_class_content_ranges
  plain_class runes = elim (find_class_end runes) [
    | none ↦ none
    | some end ↦
        Option.map (λ rs. (rs, end)) (parse_class_content_ranges (take (end - 1) (drop 1 runes)))
  ]

  -- The tests on the class that is subtracted.
  unfoldable pub subtracted :
      Subtraction → List RuneRange → List RuneRange × ℕ → Option (List RuneRange × ℕ)
  unfolding subtract_ranges
  subtracted s base (sub, end) =
      if (s.sub_start + end == s.sub_end) && (s.sub_end + 1 == s.end)
      then some (subtract_ranges base sub, s.end)
      else none

  -- `parseClassExprRanges` on the runes from a `[` on, and on fuel.
  unfoldable pub class_expr : (fuel : ℕ) → Text → Option (List RuneRange × ℕ)
  unfolding find_class_subtraction plain_class subtracted
  class_expr zero runes = none
  class_expr (suc fuel) runes = elim (find_class_subtraction runes) [
    | none ↦ plain_class runes
    | some s ↦ elim (parse_class_content_ranges (take (s.marker - 1) (drop 1 runes))) [
      | none ↦ none
      | some base ↦ elim (class_expr fuel (drop s.sub_start runes)) [
        | none ↦ none
        | some sub ↦ subtracted s base sub
      ]
    ]
  ]

  unfoldable pub parse_class_expr_ranges : Text → Option (List RuneRange × ℕ)
  unfolding class_expr
  parse_class_expr_ranges runes = class_expr (length runes) runes
