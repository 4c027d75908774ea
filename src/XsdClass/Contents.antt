-- ===== src/XsdClass/Contents.antt =====
-- go/internal/xsdregex/pattern.go: what `parseClassContentRanges` reads of a printed group.
use cambium.XsdRanges.Complement.{holds-complement_ranges}
use cambium.XsdRanges.Normal.{holds-normalize_ranges}
use cambium.XsdClass.Atoms.{
  parse_class_atom-property, parse_class_atom-single, parse_class_atom-letter, single_atom,
}
use cambium.XsdRanges.Meaning.{holds-append, holds}
use cambium.XsdClass.Atom.{Letter, set_atom, parse_class_atom, ClassAtom}
use cambium.XsdClass.Syntax.{
  flips, print_group, letter_code, items_have, print_items, is_plain, print_single, escaped, span,
  property, letter, one, plain, IsItem, IsSingle, between, is_rune, Single, in_ranges, rune_of,
  print_item, item_has, Item,
}
use cambium.XsdClass.Expr.{
  parse_class_content_ranges, group_ranges, Piece, content_pieces, range_piece, single_piece,
  content_piece, after_atom,
}
use cambium.XsdClass.{complement_if, GoUnicode}
use cambium.Prelude.{
  not, ◌≤◌, ◌-◌, suc, ◌||◌, All, sym, subst, append_assoc, length-append, drop, ℕ, ◌+◌, ◌≡◌, refl,
  ap, ◌∙◌, Bool, true, false, Option, none, some, List, [], ◌∷◌, ◌++◌, arith, ◌==◌, if◌then◌else◌,
  length,
}
use mathlib.Core.Option
use cambium.Strconv.{Text}
use cambium.XsdRanges.{max_rune, normalize_ranges, RuneRange}

abbrev pub starts_dash : Text → Bool
starts_dash [] = false
starts_dash (c ∷ rest) = c == b'-'

-- The first rune of an item is plain or a backslash.
unfoldable pub is_head : ℕ → Bool
is_head c = is_plain c || (c == b'\\')

abbrev pub Headed : Text → Type 0
Headed text = (c : ℕ) × (rest : Text) × (text ≡ c ∷ rest) × (is_head c ≡ true)

module _ (go : GoUnicode) where
  -- Behind an atom that no dash follows.
  after_atom-end :
      (a : ClassAtom) (rest : Text)
      → starts_dash rest ≡ false
      → after_atom go a rest ≡ some (single_piece a)
  unfolding after_atom
  after_atom-end a [] h = refl
  after_atom-end a (c ∷ []) h = refl
  after_atom-end a (c ∷ d ∷ rest) h = rw h refl

  drop-prefix {ℓ} : {A : Type ℓ} (xs ys : List A) → drop (length xs) (xs ++ ys) ≡ ys
  drop-prefix [] ys = refl
  drop-prefix (x ∷ xs) ys = drop-prefix xs ys

  abbrev atom_of : List RuneRange → Option ℕ → ℕ → ClassAtom
  atom_of rs single width = record { ranges = rs; single = single; raw_dash = false; width = width }

  content_piece-atom :
      (s p : Bool) (rs : List RuneRange) (single : Option ℕ) (width : ℕ) (text rest : Text)
      → parse_class_atom go (text ++ rest) ≡ some (atom_of rs single width)
      → width ≡ length text
      → content_piece go s p (text ++ rest) ≡ after_atom go (atom_of rs single width) rest
  unfolding content_piece
  content_piece-atom s p rs single width text rest h w =
      rw (h, content_piece)
        (ap (λ l. after_atom go (atom_of rs single width) l)
          (ap (λ k. drop k (text ++ rest)) w ∙ drop-prefix text rest))

  -- What the loop reads of an item: ranges with the item's code points, whatever comes behind it but a
  -- dash.
  record Reads (i : Item) : Type 0 where
    ranges : List RuneRange
    width : ℕ
    previous_range : Bool
    means : (x : ℕ) → holds x ranges ≡ item_has go x i
    measures : width ≡ length (print_item i)
    reads :
        (s p : Bool) (rest : Text)
        → starts_dash rest ≡ false
        → content_piece go s p (print_item i ++ rest)
          ≡ some (record { ranges = ranges; width = width; previous_range = previous_range })

  -- An item that is read as one atom.
  Reads-atom :
      (i : Item) (rs : List RuneRange) (single : Option ℕ) (width : ℕ)
      → ((x : ℕ) → holds x rs ≡ item_has go x i)
      → width ≡ length (print_item i)
      → ((rest : Text)
          → parse_class_atom go (print_item i ++ rest) ≡ some (atom_of rs single width))
      → Reads i
  unfolding single_piece
  Reads-atom i rs single width means measures parses = record {
    ranges = rs;
    width = width;
    previous_range = false;
    means = means;
    measures = measures;
    reads = λ s p rest dashless.
        content_piece-atom s p rs single width (print_item i) rest (parses rest) measures
        ∙ after_atom-end (atom_of rs single width) rest dashless;
  }

  rune_of-single : (s : Single) → IsSingle go s → (r : ℕ) × (rune_of s ≡ some r)
  unfolding rune_of
  rune_of-single (plain c) h = (c, refl)
  rune_of-single (escaped c) h = h.1

  single-Reads : (s : Single) → IsSingle go s → Reads (one s)
  unfolding print_item item_has single_atom is_rune
  single-Reads s h =
      let (r, e) = rune_of-single s h in
      Reads-atom (one s) (record { lo = r; hi = r } ∷ []) (some r) (length (print_single s))
        (λ x. rw e (ground arith)) refl (λ rest. parse_class_atom-single go s r rest h e)

  letter-Reads : (l : Letter) (b : Bool) → IsItem go (letter l b) → Reads (letter l b)
  unfolding print_item item_has in_ranges set_atom
  letter-Reads l b (rs, e) =
      Reads-atom (letter l b) rs none 2 (λ x. rw e refl) refl
        (λ rest. parse_class_atom-letter go l b rs rest e)

  property-Reads : (b : Bool) (name : Text) → IsItem go (property b name) → Reads (property b name)
  unfolding print_item item_has in_ranges set_atom
  property-Reads b [] h = absurd (h.1 refl)
  property-Reads b (c ∷ name) (free, _, (rs, e)) =
      Reads-atom (property b (c ∷ name)) rs none (length name + 5) (λ x. rw e refl)
        (omega (arith, length-append name (b'}' ∷ [])))
        (λ rest.
          ap (λ l. parse_class_atom go (b'\\' ∷ (if b then b'P' else b'p') ∷ b'{' ∷ c ∷ l))
            (append_assoc name (b'}' ∷ []) rest)
          ∙ parse_class_atom-property go b c name rs rest free e)

  after_atom-dash :
      (a : ClassAtom) (b : Single) (hi : ℕ) (rest : Text)
      → IsSingle go b
      → rune_of b ≡ some hi
      → after_atom go a (b'-' ∷ print_single b ++ rest) ≡ range_piece a (single_atom b hi)
  unfolding after_atom print_single
  after_atom-dash a (plain c) hi rest h e =
      rw (parse_class_atom-single go (plain c) hi rest h e) refl
  after_atom-dash a (escaped c) hi rest h e =
      rw (parse_class_atom-single go (escaped c) hi rest h e) refl

  -- Two single runes with a dash between them.
  span-Reads : (a b : Single) → IsItem go (span a b) → Reads (span a b)
  unfolding print_item item_has single_atom between after_atom range_piece
  span-Reads a b (ha, hb, (lo, hi, ea, eb, le)) = record {
    ranges = record { lo = lo; hi = hi } ∷ [];
    width = length (print_single a) + (length (print_single b) + 1);
    previous_range = true;
    means = λ x. rw (ea, eb) (ground arith);
    measures = omega (arith, length-append (print_single a) (b'-' ∷ print_single b));
    reads = λ s p rest dashless.
        ap (λ l. content_piece go s p l)
          (append_assoc (print_single a) (b'-' ∷ print_single b) rest)
        ∙ content_piece-atom s p (record { lo = lo; hi = lo } ∷ []) (some lo)
            (length (print_single a)) (print_single a) (b'-' ∷ print_single b ++ rest)
            (parse_class_atom-single go a lo (b'-' ∷ print_single b ++ rest) ha ea) refl
        ∙ after_atom-dash (single_atom a lo) b hi rest hb eb
        ∙ ground arith;
  }

  item-Reads : (i : Item) → IsItem go i → Reads i
  item-Reads (one s) h = single-Reads s h
  item-Reads (span a b) h = span-Reads a b h
  item-Reads (letter l b) h = letter-Reads l b h
  item-Reads (property b name) h = property-Reads b name h

  single-Headed : (s : Single) (rest : Text) → IsSingle go s → Headed (print_single s ++ rest)
  unfolding print_single is_head is_plain
  single-Headed (plain c) rest h = (c, rest, refl, ground (arith, h))
  single-Headed (escaped c) rest h = (b'\\', c ∷ rest, refl, refl)

  item-Headed : (i : Item) (rest : Text) → IsItem go i → Headed (print_item i ++ rest)
  unfolding print_item is_head is_plain
  item-Headed (one s) rest h = single-Headed s rest h
  item-Headed (span a b) rest h =
      subst Headed (sym (append_assoc (print_single a) (b'-' ∷ print_single b) rest))
        (single-Headed a (b'-' ∷ print_single b ++ rest) h.0)
  item-Headed (letter l b) rest h = (b'\\', letter_code l b ∷ rest, refl, refl)
  item-Headed (property b name) rest h = (b'\\', _, refl, refl)

  items-dashless :
      (items : List Item) → All (IsItem go) items → starts_dash (print_items items) ≡ false
  unfolding print_items is_head is_plain
  items-dashless [] h = refl
  items-dashless (i ∷ items) h =
      let (c, rest, e, head) = item-Headed i (print_items items) h.0 in rw e (ground (arith, head))

  content_pieces-skip :
      (s p : Bool) (xs rest : Text)
      → content_pieces go (length xs) s p (xs ++ rest) ≡ content_pieces go 0 s p rest
  unfolding content_pieces
  content_pieces-skip s p [] rest = refl
  content_pieces-skip s p (x ∷ xs) rest = content_pieces-skip s p xs rest

  content_pieces-step :
      (s p : Bool) (c : ℕ) (xs rest : Text) (piece : Piece) (more : List RuneRange)
      → content_piece go s p (c ∷ xs ++ rest) ≡ some piece
      → piece.width ≡ suc (length xs)
      → content_pieces go 0 false piece.previous_range rest ≡ some more
      → content_pieces go 0 s p (c ∷ xs ++ rest) ≡ some (piece.ranges ++ more)
  unfolding content_pieces
  content_pieces-step s p c xs rest piece more h w e =
      let skipped : content_pieces go (piece.width - 1) false piece.previous_range (xs ++ rest)
          ≡ some more =
        ap (λ k. content_pieces go k false piece.previous_range (xs ++ rest)) (omega (arith, w))
        ∙ content_pieces-skip false piece.previous_range xs rest
        ∙ e in
      rw (content_pieces, h, skipped) refl

  -- A text that is not empty and is read as one piece.
  content_pieces-piece :
      (s p : Bool) (text rest : Text) (piece : Piece) (more : List RuneRange)
      → Headed (text ++ [])
      → content_piece go s p (text ++ rest) ≡ some piece
      → piece.width ≡ length text
      → content_pieces go 0 false piece.previous_range rest ≡ some more
      → content_pieces go 0 s p (text ++ rest) ≡ some (piece.ranges ++ more)
  content_pieces-piece s p [] rest piece more (c, xs, e, _) h w m = cc
  content_pieces-piece s p (c ∷ xs) rest piece more headed h w m =
      content_pieces-step s p c xs rest piece more h w m

  -- What the loop reads of a sequence of items.
  record ReadsAll (items : List Item) : Type 0 where
    ranges : List RuneRange
    means : (x : ℕ) → holds x ranges ≡ items_have go x items
    reads : (s p : Bool) → content_pieces go 0 s p (print_items items) ≡ some ranges

  items-ReadsAll : (items : List Item) → All (IsItem go) items → ReadsAll items
  unfolding items_have print_items content_pieces
  items-ReadsAll [] h = record { ranges = []; means = λ x. refl; reads = λ s p. refl }
  items-ReadsAll (i ∷ items) h =
      let first = item-Reads i h.0 in
      let rest = items-ReadsAll items h.1 in
      record {
        ranges = first.ranges ++ rest.ranges;
        means = λ x. rw (holds-append x first.ranges rest.ranges, first.means x, rest.means x) refl;
        reads = λ s p.
            content_pieces-piece s p (print_item i) (print_items items) _ rest.ranges
              (item-Headed i [] h.0)
              (first.reads s p (print_items items) (items-dashless items h.1)) first.measures
              (rest.reads false first.previous_range);
      }

  flips-complement_if :
      (negated b : Bool) (x : ℕ) (rs : List RuneRange)
      → x ≤ max_rune
      → holds x rs ≡ b
      → holds x (complement_if negated (normalize_ranges rs)) ≡ flips negated b
  unfolding complement_if flips
  flips-complement_if false b x rs le h = holds-normalize_ranges x rs ∙ h
  flips-complement_if true b x rs le h =
      holds-complement_ranges x (normalize_ranges rs) le ∙ ap not (holds-normalize_ranges x rs ∙ h)

  group_ranges-Headed :
      (negated : Bool) (text : Text)
      → Headed text
      → group_ranges go negated text
        ≡ Option.map
            (λ rs. complement_if negated (normalize_ranges rs))
            (content_pieces go 0 true false text)
  unfolding group_ranges
  group_ranges-Headed negated [] (c, xs, e, _) = cc
  group_ranges-Headed negated (c ∷ rest) h = refl

  contents-Headed :
      (negated : Bool) (text : Text)
      → Headed text
      → parse_class_content_ranges go (if negated then b'^' ∷ text else text)
        ≡ group_ranges go negated text
  unfolding parse_class_content_ranges is_head is_plain
  contents-Headed true text h = refl
  contents-Headed false [] (c, xs, e, _) = cc
  contents-Headed false (c ∷ rest) (d, xs, e, head) =
      let same : c ≡ d = cc in
      let other : (c == b'^') ≡ false = ground (arith, same, head) in
      rw (parse_class_content_ranges, other) refl

  pub items-Headed :
      (items : List Item) → ¬ (items ≡ []) → All (IsItem go) items → Headed (print_items items)
  unfolding print_items
  items-Headed [] ne h = absurd (ne refl)
  items-Headed (i ∷ items) ne h = item-Headed i (print_items items) h.0

  -- What is read of a group.
  pub record ReadsGroup (negated : Bool) (items : List Item) : Type 0 where
    pub ranges : List RuneRange
    pub means : (x : ℕ) → x ≤ max_rune → holds x ranges ≡ flips negated (items_have go x items)
    pub reads : parse_class_content_ranges go (print_group negated items) ≡ some ranges

  pub group-ReadsGroup :
      (negated : Bool) (items : List Item)
      → ¬ (items ≡ [])
      → All (IsItem go) items
      → ReadsGroup negated items
  unfolding print_group
  group-ReadsGroup negated items some_items h =
      let all = items-ReadsAll items h in
      let headed = items-Headed items some_items h in
      record {
        ranges = complement_if negated (normalize_ranges all.ranges);
        means = λ x le.
            flips-complement_if negated (items_have go x items) x all.ranges le (all.means x);
        reads =
            contents-Headed negated (print_items items) headed
            ∙ group_ranges-Headed negated (print_items items) headed
            ∙ ap (λ o. Option.map (λ rs. complement_if negated (normalize_ranges rs)) o)
                (all.reads true false);
      }
