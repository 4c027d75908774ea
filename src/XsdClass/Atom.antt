-- ===== src/XsdClass/Atom.antt =====
-- go/internal/xsdregex/pattern.go: one atom of a character class.
use cambium.XsdClass.{complement_if, unicode_class_ranges, unicode_category_ranges, GoUnicode}
use cambium.XsdRanges.{RuneRange}
use cambium.IfFeature.Tokenizer.{codes}
use cambium.Strconv.{Text}
use cambium.Prelude.{
  take, drop, ℕ, suc, ◌+◌, Bool, true, false, ◌&&◌, ◌||◌, Option, none, some, List, [], ◌∷◌, map,
  ◌==◌, if◌then◌else◌, length,
}
use mathlib.Core.Option
use cambium.XsdClass.Tables.{xml_whitespace_ranges, xml_name_start_ranges, xml_name_char_ranges}

-- The letters behind a backslash that stand for a class: d, s, w, i, c, and in upper case their
-- complements.
pub data Letter : Type 0 where
  decimal space word name_start name_char : Letter

unfoldable pub class_letter : ℕ → Option (Letter × Bool)
class_letter c =
    if c == b'd'
    then some (decimal, false)
    else if c == b'D'
    then some (decimal, true)
    else if c == b's'
    then some (space, false)
    else if c == b'S'
    then some (space, true)
    else if c == b'w'
    then some (word, false)
    else if c == b'W'
    then some (word, true)
    else if c == b'i'
    then some (name_start, false)
    else if c == b'I'
    then some (name_start, true)
    else if c == b'c'
    then some (name_char, false)
    else if c == b'C'
    then some (name_char, true)
    else none

unfoldable pub one_of : ℕ → Text → Bool
one_of c [] = false
one_of c (d ∷ rest) = (c == d) || one_of c rest

-- The runes that a backslash makes literal, `\n`, `\r` and `\t` among them.
unfoldable pub literal_rune : ℕ → Option ℕ
unfolding one_of
literal_rune c =
    if c == b'n'
    then some 10
    else if c == b'r'
    then some 13
    else if c == b't'
    then some 9
    else if one_of c (codes ".\\?*+{}()|[]^$-")
    then some c
    else none

-- What `parseClassAtom` reads: `single` is `none` where `singleOK` is false, and `next` lies `width`
-- runes behind the start.
pub record ClassAtom : Type 0 where
  pub ranges : List RuneRange
  pub single : Option ℕ
  pub raw_dash : Bool
  pub width : ℕ

unfoldable pub literal : ℕ → ClassAtom
literal r = record {
  ranges = record { lo = r; hi = r } ∷ [];
  single = some r;
  raw_dash = false;
  width = 2;
}

-- An atom that is no single rune.
unfoldable pub set_atom : ℕ → List RuneRange → ClassAtom
set_atom width ranges = record { ranges = ranges; single = none; raw_dash = false; width = width }

-- The runes in front of the first `}`.
unfoldable pub before_brace : Text → Option Text
before_brace [] = none
before_brace (c ∷ rest) =
    let name = before_brace rest in if c == b'}' then some [] else Option.map (λ s. c ∷ s) name

-- The first `:]`: how many runes stand in front of it.
unfoldable pub before_close : Text → Option ℕ
before_close [] = none
before_close (c ∷ []) = none
before_close (c ∷ d ∷ rest) =
    let further = before_close (d ∷ rest) in
    if (c == b':') && (d == b']') then some 0 else Option.map suc further

-- `skipPOSIXCharacterClass`: how many runes the class has, from its `[` on.
unfoldable pub skip_posix_character_class : Text → Option ℕ
unfolding before_close
skip_posix_character_class runes = Option.map (λ k. k + 4) (before_close (drop 2 runes))

-- `skipEscape` on the runes behind the backslash: how many of them belong to the escape.
unfoldable pub skip_escape : Text → ℕ
unfolding before_brace
skip_escape [] = 0
skip_escape (c ∷ []) = 1
skip_escape (c ∷ d ∷ rest) =
    if ((c == b'p') || (c == b'P')) && (d == b'{')
    then elim (before_brace rest) [ some name ↦ length name + 3 | none ↦ 1 ]
    else 1

unfoldable pub range_of_pair : ℕ × ℕ → RuneRange
range_of_pair (lo, hi) = record { lo = lo; hi = hi }

unfoldable pub starts_posix : Text → Bool
starts_posix (c ∷ d ∷ rest) = (c == b'[') && (d == b':')
starts_posix _ = false

module _ (go : GoUnicode) where
  unfoldable pub letter_ranges : Letter → Bool → Option (List RuneRange)
  unfolding unicode_category_ranges
  letter_ranges decimal complement = unicode_category_ranges go (codes "Nd" ∷ []) complement
  letter_ranges space complement = some (complement_if complement xml_whitespace_ranges)
  letter_ranges word complement =
      unicode_category_ranges go (codes "L" ∷ codes "M" ∷ codes "N" ∷ codes "S" ∷ []) complement
  letter_ranges name_start complement = some (complement_if complement xml_name_start_ranges)
  letter_ranges name_char complement = some (complement_if complement xml_name_char_ranges)

  -- `\p{…}` or `\P{…}`, on the runes behind that letter.
  unfoldable pub property_atom : Bool → Text → Option ClassAtom
  unfolding before_brace unicode_class_ranges set_atom
  property_atom complement [] = none
  property_atom complement (d ∷ rest) =
      if d == b'{'
      then elim (before_brace rest) [
        | none ↦ none
        | some [] ↦ none
        | some (c ∷ name) ↦
            Option.map (set_atom (length name + 5)) (unicode_class_ranges go (c ∷ name) complement)
      ]
      else none

  -- `parseClassEscapeAtom` on the runes behind the backslash.
  unfoldable pub parse_class_escape_atom : Text → Option ClassAtom
  unfolding class_letter letter_ranges literal_rune literal property_atom
  parse_class_escape_atom [] = none
  parse_class_escape_atom (c ∷ rest) = elim (class_letter c) [
    | some (letter, complement) ↦ Option.map (set_atom 2) (letter_ranges letter complement)
    | none ↦ elim (literal_rune c) [
      | some r ↦ some (literal r)
      | none ↦ if (c == b'p') || (c == b'P') then property_atom (c == b'P') rest else none
    ]
  ]

  unfoldable pub parse_posix_class_atom : Text → Option ClassAtom
  unfolding skip_posix_character_class range_of_pair set_atom
  parse_posix_class_atom runes = elim (skip_posix_character_class runes) [
    | none ↦ none
    | some width ↦
        Option.map (λ pairs. set_atom width (map range_of_pair pairs))
          (go.char_class (take width runes))
  ]

  unfoldable pub parse_class_atom : Text → Option ClassAtom
  unfolding starts_posix parse_posix_class_atom parse_class_escape_atom
  parse_class_atom [] = none
  parse_class_atom (c ∷ rest) =
      if starts_posix (c ∷ rest)
      then parse_posix_class_atom (c ∷ rest)
      else if (c == b'[') || (c == b']')
      then none
      else if c == b'\\'
      then parse_class_escape_atom rest
      else some (record {
        ranges = record { lo = c; hi = c } ∷ [];
        single = some c;
        raw_dash = c == b'-';
        width = 1;
      })
