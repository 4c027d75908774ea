-- ===== src/XsdClass/Native.antt =====
-- go/internal/xsdregex/pattern.go: `NativePattern`, which rewrites an XML Schema pattern for Go's regexp
-- package, and `UnsupportedNativeSyntax`. A text is the list of its runes.
use cambium.XsdClass.Expr.{parse_class_expr_ranges}
use cambium.XsdClass.Scan.{jumps, ends_here, Round, scan, find_class_subtraction}
use cambium.XsdClass.{unicode_block_class_ranges, complement_if, GoUnicode, block_name}
use cambium.XsdClass.Atom.{
  name_char, word, name_start, space, skip_posix_character_class, decimal, starts_posix,
  skip_escape, class_letter, before_brace, Letter,
}
use cambium.IfFeature.Tokenizer.{codes}
use cambium.Prelude.{
  take, ℕ, zero, suc, ◌+◌, ◌-◌, ◌/◌, ◌%◌, Bool, true, false, not, ◌&&◌, ◌||◌, Option, none, some,
  List, [], ◌∷◌, ◌++◌, ltb, ◌==◌, if◌then◌else◌, length,
}
use mathlib.Core.Option
use cambium.Strconv.{Text}
use cambium.XsdRanges.{normalize_ranges, RuneRange}
use cambium.XsdClass.Tables.{xml_whitespace_ranges, xml_name_start_ranges, xml_name_char_ranges}

-- `%X` of Go's fmt.
unfoldable pub hex_digit : ℕ → ℕ
hex_digit d = if ltb d 10 then b'0' + d else b'A' + (d - 10)

unfoldable pub hex_onto : (fuel n : ℕ) → Text → Text
unfolding hex_digit
hex_onto zero n acc = acc
hex_onto (suc fuel) n acc =
    let more = hex_onto fuel (n / 16) (hex_digit (n % 16) ∷ acc) in
    if ltb n 16 then hex_digit n ∷ acc else more

unfoldable pub write_regexp_class_rune : ℕ → Text
unfolding hex_onto
write_regexp_class_rune r = codes "\\x{" ++ hex_onto (suc r) r [] ++ codes "}"

unfoldable pub write_range : RuneRange → Text
unfolding write_regexp_class_rune
write_range r =
    write_regexp_class_rune r.lo
    ++ (if ltb r.lo r.hi then b'-' ∷ write_regexp_class_rune r.hi else [])

unfoldable pub write_ranges : List RuneRange → Text
unfolding write_range
write_ranges [] = []
write_ranges (r ∷ rs) = write_range r ++ write_ranges rs

-- Brackets around what is written outside a class.
unfoldable pub bracketed : Bool → Text → Text
bracketed in_class out = if in_class then out else b'[' ∷ (out ++ codes "]")

unfoldable pub class_text : Bool → List RuneRange → Text
unfolding bracketed write_ranges
class_text false [] = codes "[^\\x{0}-\\x{10FFFF}]"
class_text in_class ranges = bracketed in_class (write_ranges ranges)

unfoldable pub regexp_class_expr : List RuneRange → Bool → Text
unfolding class_text
regexp_class_expr ranges in_class = class_text in_class (normalize_ranges ranges)

unfoldable pub write_categories : Bool → List Text → Text
write_categories complement [] = []
write_categories complement (c ∷ cs) =
    (if complement then codes "\\P{" else codes "\\p{")
    ++ (c ++ (codes "}" ++ write_categories complement cs))

unfoldable pub category_class_expr : List Text → Bool → Bool → Text
unfolding bracketed write_categories
category_class_expr categories complement in_class =
    bracketed in_class (write_categories complement categories)

-- The letters of `nativeEscapeReplacement`.
unfoldable pub letter_text : Letter → Bool → Bool → Text
unfolding category_class_expr regexp_class_expr
letter_text decimal complement in_class = category_class_expr (codes "Nd" ∷ []) complement in_class
letter_text space complement in_class =
    regexp_class_expr (complement_if complement xml_whitespace_ranges) in_class
letter_text word false in_class =
    category_class_expr (codes "L" ∷ codes "M" ∷ codes "N" ∷ codes "S" ∷ []) false in_class
letter_text word true in_class =
    category_class_expr (codes "P" ∷ codes "Z" ∷ codes "C" ∷ []) false in_class
letter_text name_start complement in_class =
    regexp_class_expr (complement_if complement xml_name_start_ranges) in_class
letter_text name_char complement in_class =
    regexp_class_expr (complement_if complement xml_name_char_ranges) in_class

-- `unicodeBlockClassRanges` with its test of the prefix.
unfoldable pub block_ranges : Text → Bool → Option (List RuneRange)
unfolding block_name unicode_block_class_ranges
block_ranges category complement = elim (block_name category) [
  | none ↦ none
  | some name ↦ unicode_block_class_ranges name complement
]

-- A block in braces, on the runes behind `\p` or `\P`; and how many runes follow the backslash.
unfoldable pub block_replacement : Bool → Bool → Text → Option (Text × ℕ)
unfolding before_brace block_ranges regexp_class_expr
block_replacement complement in_class [] = none
block_replacement complement in_class (d ∷ rest) =
    if d == b'{'
    then elim (before_brace rest) [
      | none ↦ none
      | some name ↦
          Option.map (λ rs. (regexp_class_expr rs in_class, length name + 3))
            (block_ranges name complement)
    ]
    else none

-- `nativeEscapeReplacement` on the runes behind the backslash.
unfoldable pub native_escape_replacement : Text → Bool → Option (Text × ℕ)
unfolding class_letter letter_text block_replacement
native_escape_replacement [] in_class = none
native_escape_replacement (c ∷ rest) in_class = elim (class_letter c) [
  | some (l, complement) ↦ some (letter_text l complement in_class, 1)
  | none ↦ if (c == b'p') || (c == b'P') then block_replacement (c == b'P') in_class rest else none
]

-- A round of the loop of `NativePattern`: what it writes, how many runes it jumps over, and `inClass`.
pub record Rewrite : Type 0 where
  pub out : Text
  pub skip : ℕ
  pub in_class : Bool

unfoldable pub escape_rewrite : Bool → Text → Rewrite
unfolding native_escape_replacement
escape_rewrite in_class rest = elim (native_escape_replacement rest in_class) [
  | some (expr, n) ↦ record { out = expr; skip = n; in_class = in_class }
  | none ↦ record { out = b'\\' ∷ take 1 rest; skip = 1; in_class = in_class }
]

-- The cases without a backslash or a bracket that opens.
unfoldable pub rune_rewrite : Bool → ℕ → Rewrite
rune_rewrite in_class c =
    if c == b']'
    then record { out = c ∷ []; skip = 0; in_class = false }
    else if (c == b'.') && not in_class
    then record {
      out = codes "[\\x{0}-\\x{9}\\x{B}-\\x{C}\\x{E}-\\x{10FFFF}]";
      skip = 0;
      in_class = in_class;
    }
    else if (c == b'^') && not in_class
    then record { out = codes "\\x{5E}"; skip = 0; in_class = in_class }
    else if (c == b'$') && not in_class
    then record { out = codes "\\x{24}"; skip = 0; in_class = in_class }
    else record { out = c ∷ []; skip = 0; in_class = in_class }

module _ (go : GoUnicode) where
  -- `nativeClassReplacement` on the runes from a `[` on; the second result is the last index.
  unfoldable pub native_class_replacement : Text → Option (Text × ℕ)
  unfolding find_class_subtraction parse_class_expr_ranges regexp_class_expr
  native_class_replacement runes = elim (find_class_subtraction runes) [
    | none ↦ none
    | some s ↦ elim (parse_class_expr_ranges go runes) [
      | none ↦ none
      | some (ranges, end) ↦
          if end == s.end then some (regexp_class_expr ranges false, s.end) else none
    ]
  ]

  unfoldable pub class_rewrite : Bool → Text → Rewrite
  unfolding native_class_replacement
  class_rewrite in_class runes = elim (native_class_replacement runes) [
    | some (expr, end) ↦ record { out = expr; skip = end; in_class = in_class }
    | none ↦ record { out = b'[' ∷ []; skip = 0; in_class = true }
  ]

  unfoldable pub rewrite_round : Bool → ℕ → Text → Rewrite
  unfolding escape_rewrite class_rewrite rune_rewrite
  rewrite_round in_class c rest =
      if c == b'\\'
      then escape_rewrite in_class rest
      else if c == b'['
      then class_rewrite in_class (c ∷ rest)
      else rune_rewrite in_class c

  unfoldable pub rewrite_from : (skip : ℕ) → Bool → Text → Text
  unfolding rewrite_round
  rewrite_from skip in_class [] = []
  rewrite_from (suc skip) in_class (c ∷ rest) = rewrite_from skip in_class rest
  rewrite_from zero in_class (c ∷ rest) =
      let r = rewrite_round in_class c rest in r.out ++ rewrite_from r.skip r.in_class rest

  unfoldable pub native_pattern : Text → Text
  unfolding rewrite_from
  native_pattern pattern = rewrite_from 0 false pattern

  -- The loop of `unsupportedNativeClassSyntax` behind the `[` of `whole`: whether the syntax is
  -- unsupported, and the end where it is not the index at which the loop stops.
  unfoldable pub support_round : Text → ℕ → ℕ → Text → Bool × Option ℕ → Round (Bool × Option ℕ)
  unfolding skip_escape starts_posix skip_posix_character_class native_class_replacement
  support_round whole i c rest s =
      let stop : Round (Bool × Option ℕ) = elim (native_class_replacement whole) [
        | some (expr, end) ↦ ends_here (false, some end)
        | none ↦ ends_here (true, none)
      ] in
      if c == b'\\'
      then jumps (skip_escape rest) s
      else if c == b'['
      then (if starts_posix (c ∷ rest)
          then elim (skip_posix_character_class (c ∷ rest)) [
            | some width ↦ jumps (width - 1) s
            | none ↦ stop
          ]
          else stop)
      else if c == b']'
      then ends_here (false, none)
      else jumps 0 s

  -- `unsupportedNativeClassSyntax` on the runes from a `[` on.
  unfoldable pub unsupported_native_class_syntax : Text → Bool × ℕ
  unfolding scan support_round
  unsupported_native_class_syntax [] = (false, 0)
  unsupported_native_class_syntax (c ∷ rest) =
      elim (scan (support_round (c ∷ rest)) 0 1 rest (false, none)) [
        | none ↦ (false, length rest)
        | some ((unsupported, none), i) ↦ (unsupported, i)
        | some ((unsupported, some end), i) ↦ (unsupported, end)
      ]

  -- The loop of `UnsupportedNativeSyntax`: whether it reports a class.
  unfoldable pub unsupported_from : (skip : ℕ) → Text → Bool
  unfolding unsupported_native_class_syntax skip_escape
  unsupported_from skip [] = false
  unsupported_from (suc skip) (c ∷ rest) = unsupported_from skip rest
  unsupported_from zero (c ∷ rest) =
      let (unsupported, end) = unsupported_native_class_syntax (c ∷ rest) in
      let jump = (if c == b'\\' then skip_escape rest else if c == b'[' then end else 0) in
      if (c == b'[') && unsupported then true else unsupported_from jump rest

  -- `UnsupportedNativeSyntax`: the reason, or the empty text.
  unfoldable pub unsupported_native_syntax : Text → Text
  unfolding unsupported_from
  unsupported_native_syntax pattern =
      if unsupported_from 0 pattern
      then codes "unsupported or malformed character class syntax"
      else []
