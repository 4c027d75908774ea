-- ===== src/XsdClass/Syntax.antt =====
-- Character classes of XML Schema as trees: their texts, and the code points that they stand for, with
-- no algorithm in it. A class is a group of items, negated or not, less a class or not.
use cambium.XsdRanges.Meaning.{holds}
use cambium.XsdClass.{unicode_class_ranges, GoUnicode}
use cambium.XsdClass.Atom.{
  name_char, name_start, word, space, one_of, decimal, letter_ranges, class_letter, literal_rune,
  Letter,
}
use cambium.Prelude.{
  ℕ, ◌≤◌, ◌≡◌, Bool, true, false, not, ◌&&◌, ◌||◌, Option, none, some, List, [], ◌∷◌, ◌++◌, leb,
  ◌==◌, if◌then◌else◌, All,
}
use cambium.Strconv.{Text}
use cambium.XsdRanges.{RuneRange}

-- One rune, as it is or behind a backslash.
pub data Single : Type 0 where
  plain escaped : ℕ → Single

pub data Item : Type 0 where
  one : Single → Item
  span : Single → Single → Item
  letter : Letter → Bool → Item
  property : Bool → Text → Item

pub data ClassExpr : Type 0 where
  group : Bool → List Item → ClassExpr
  without : Bool → List Item → ClassExpr → ClassExpr

-- The rune that an escape stands for.
unfoldable pub rune_of : Single → Option ℕ
unfolding literal_rune
rune_of (plain c) = some c
rune_of (escaped c) = literal_rune c

-- No rune with a meaning of its own in a class, nor `^`, which has one at the start of a group.
unfoldable pub is_plain : ℕ → Bool
is_plain c = not ((c == b'[') || ((c == b']') || ((c == b'\\') || ((c == b'-') || (c == b'^')))))

unfoldable pub letter_code : Letter → Bool → ℕ
letter_code decimal false = b'd'
letter_code decimal true = b'D'
letter_code space false = b's'
letter_code space true = b'S'
letter_code word false = b'w'
letter_code word true = b'W'
letter_code name_start false = b'i'
letter_code name_start true = b'I'
letter_code name_char false = b'c'
letter_code name_char true = b'C'

unfoldable pub print_single : Single → Text
print_single (plain c) = c ∷ []
print_single (escaped c) = b'\\' ∷ c ∷ []

unfoldable pub print_item : Item → Text
unfolding print_single letter_code
print_item (one s) = print_single s
print_item (span a b) = print_single a ++ b'-' ∷ print_single b
print_item (letter l complement) = b'\\' ∷ letter_code l complement ∷ []
print_item (property complement name) =
    b'\\' ∷ (if complement then b'P' else b'p') ∷ b'{' ∷ name ++ b'}' ∷ []

unfoldable pub print_items : List Item → Text
unfolding print_item
print_items [] = []
print_items (i ∷ items) = print_item i ++ print_items items

unfoldable pub print_group : Bool → List Item → Text
unfolding print_items
print_group negated items = if negated then b'^' ∷ print_items items else print_items items

-- The text between the brackets.
unfoldable pub print_body : ClassExpr → Text
unfolding print_group
print_body (group negated items) = print_group negated items
print_body (without negated items e) =
    print_group negated items ++ (b'-' ∷ b'[' ∷ print_body e ++ b']' ∷ [])

unfoldable pub print_class : ClassExpr → Text
unfolding print_body
print_class e = b'[' ∷ print_body e ++ b']' ∷ []

-- A group that negates holds what its items do not.
unfoldable pub flips : Bool → Bool → Bool
flips negated b = if negated then not b else b

module _ (go : GoUnicode) where
  -- The texts that the parser can read: a rune is plain, or its escape is known; the ends of a span do
  -- not run downwards; a letter's and a property's category is one of the tables.
  abbrev pub IsSingle : Single → Type 0
  IsSingle (plain c) = is_plain c ≡ true
  IsSingle (escaped c) = (class_letter c ≡ none) × ((r : ℕ) × (literal_rune c ≡ some r))

  abbrev pub IsItem : Item → Type 0
  IsItem (one s) = IsSingle s
  IsItem (span a b) =
      IsSingle a
      × IsSingle b
      × ((lo : ℕ) × (hi : ℕ) × (rune_of a ≡ some lo) × (rune_of b ≡ some hi) × lo ≤ hi)
  IsItem (letter l complement) = (rs : List RuneRange) × (letter_ranges go l complement ≡ some rs)
  IsItem (property complement name) =
      (one_of b'}' name ≡ false)
      × ¬ (name ≡ [])
      × ((rs : List RuneRange) × (unicode_class_ranges go name complement ≡ some rs))

  abbrev pub IsClass : ClassExpr → Type 0
  IsClass (group negated items) = (¬ (items ≡ [])) × All IsItem items
  IsClass (without negated items e) = (¬ (items ≡ [])) × All IsItem items × IsClass e

  -- The ranges of a set of code points that the tables name.
  unfoldable pub in_ranges : ℕ → Option (List RuneRange) → Bool
  in_ranges x none = false
  in_ranges x (some rs) = holds x rs

  unfoldable pub is_rune : ℕ → Option ℕ → Bool
  is_rune x none = false
  is_rune x (some r) = x == r

  unfoldable pub between : ℕ → Option ℕ → Option ℕ → Bool
  between x (some lo) (some hi) = leb lo x && leb x hi
  between x _ _ = false

  unfoldable pub item_has : ℕ → Item → Bool
  unfolding is_rune between in_ranges rune_of
  item_has x (one s) = is_rune x (rune_of s)
  item_has x (span a b) = between x (rune_of a) (rune_of b)
  item_has x (letter l complement) = in_ranges x (letter_ranges go l complement)
  item_has x (property complement name) = in_ranges x (unicode_class_ranges go name complement)

  unfoldable pub items_have : ℕ → List Item → Bool
  unfolding item_has
  items_have x [] = false
  items_have x (i ∷ items) = item_has x i || items_have x items

  unfoldable pub class_has : ℕ → ClassExpr → Bool
  unfolding items_have flips
  class_has x (group negated items) = flips negated (items_have x items)
  class_has x (without negated items e) = flips negated (items_have x items) && not (class_has x e)
