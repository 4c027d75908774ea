-- ===== src/XsdClass/Passing.antt =====
-- go/internal/xsdregex/pattern.go: how the two scans pass over printed items.
use cambium.XsdClass.{GoUnicode}
use cambium.XsdClass.Atoms.{literal_rune-p, before_brace-append}
use cambium.XsdClass.Scan.{ClassScan, next_opens, dashed, jumps, scan, end_round, scan_round, Round}
use cambium.XsdClass.Atom.{
  starts_posix, name_char, name_start, word, space, decimal, Letter, one_of, skip_escape,
}
use cambium.XsdClass.Syntax.{
  property, letter, span, escaped, one, plain, IsItem, IsSingle, Item, Single, print_group,
  print_items, print_item, print_single, letter_code, is_plain,
}
use cambium.Prelude.{
  length-append, append_assoc, ℕ, suc, ◌+◌, ◌≡◌, refl, ap, ◌∙◌, inl, inr, Bool, true, false, not,
  ◌&&◌, ◌||◌, List, [], ◌∷◌, ◌++◌, arith, ◌==◌, if◌then◌else◌, Bool-cases, length, All,
}
use cambium.Strconv.{Text}

-- A rune with no case of its own in the scans.
unfoldable pub is_ordinary : ℕ → Bool
is_ordinary c = not ((c == b'[') || ((c == b']') || ((c == b'\\') || (c == b'-'))))

is_plain-ordinary : (c : ℕ) → is_plain c ≡ true → is_ordinary c ≡ true
unfolding is_plain is_ordinary
is_plain-ordinary c h = ground (arith, h)

-- The runes behind a backslash that belong to a printed escape.
escape_length :
    (c : ℕ) (rest : Text) → ((c == b'p') || (c == b'P')) ≡ false → skip_escape (c ∷ rest) ≡ 1
unfolding skip_escape
escape_length c [] h = refl
escape_length c (d ∷ rest) h = rw h refl

property_length :
    (b : Bool) (name rest : Text)
    → one_of b'}' name ≡ false
    → skip_escape ((if b then b'P' else b'p') ∷ b'{' ∷ name ++ b'}' ∷ rest) ≡ length name + 3
unfolding skip_escape
property_length false name rest h = rw (before_brace-append name rest h) refl
property_length true name rest h = rw (before_brace-append name rest h) refl

letter_length : (l : Letter) (b : Bool) (rest : Text) → skip_escape (letter_code l b ∷ rest) ≡ 1
unfolding letter_code
letter_length decimal false rest = escape_length b'd' rest refl
letter_length decimal true rest = escape_length b'D' rest refl
letter_length space false rest = escape_length b's' rest refl
letter_length space true rest = escape_length b'S' rest refl
letter_length word false rest = escape_length b'w' rest refl
letter_length word true rest = escape_length b'W' rest refl
letter_length name_start false rest = escape_length b'i' rest refl
letter_length name_start true rest = escape_length b'I' rest refl
letter_length name_char false rest = escape_length b'c' rest refl
letter_length name_char true rest = escape_length b'C' rest refl

module _ {S : Type 0} (round : ℕ → ℕ → Text → S → Round S) where
  scan-skip :
      (xs rest : Text) (i : ℕ) (s : S)
      → scan round (length xs) i (xs ++ rest) s ≡ scan round 0 (i + length xs) rest s
  unfolding scan
  scan-skip [] rest i s = ap (λ k. scan round 0 k rest s) (omega arith)
  scan-skip (x ∷ xs) rest i s =
      scan-skip xs rest (suc i) s ∙ ap (λ k. scan round 0 k rest s) (omega arith)

  -- A round that jumps over the rest of a text.
  pub scan-jumps :
      (c : ℕ) (xs rest : Text) (i : ℕ) (s s' : S)
      → round i c (xs ++ rest) s ≡ jumps (length xs) s'
      → scan round 0 i (c ∷ xs ++ rest) s ≡ scan round 0 (i + length (c ∷ xs)) rest s'
  unfolding scan
  scan-jumps c xs rest i s s' h =
      rw (scan, h) (scan-skip xs rest (suc i) s' ∙ ap (λ k. scan round 0 k rest s') (omega arith))

  -- In this state the scan is left alone by everything but brackets and a dash before one.
  pub record Ignores (s : S) : Type 0 where
    pub on_ordinary : (i c : ℕ) (rest : Text) → is_ordinary c ≡ true → round i c rest s ≡ jumps 0 s
    pub on_escape : (i : ℕ) (rest : Text) → round i b'\\' rest s ≡ jumps (skip_escape rest) s
    pub on_dash : (i : ℕ) (rest : Text) → next_opens rest ≡ false → round i b'-' rest s ≡ jumps 0 s

  -- The scan goes on behind a text as if it were not there, but for the index.
  abbrev pub Passes : S → Text → Type 0
  Passes s text =
      (i : ℕ) (rest : Text)
      → scan round 0 i (text ++ rest) s ≡ scan round 0 (i + length text) rest s

  module _ (s : S) where
    pub Passes-append : (xs ys : Text) → Passes s xs → Passes s ys → Passes s (xs ++ ys)
    Passes-append xs ys p q i rest =
        ap (λ t. scan round 0 i t s) (append_assoc xs ys rest)
        ∙ p i (ys ++ rest)
        ∙ q (i + length xs) rest
        ∙ ap (λ k. scan round 0 k rest s) (omega (arith, length-append xs ys))

    module _ (ignores : Ignores s) where
      single-Passes : (go : GoUnicode) (a : Single) → IsSingle go a → Passes s (print_single a)
      unfolding print_single
      single-Passes go (plain c) h i rest =
          scan-jumps c [] rest i s s (ignores.on_ordinary i c rest (is_plain-ordinary c h))
      single-Passes go (escaped c) (_, (r, e)) i rest = scan-jumps b'\\' (c ∷ []) rest i s s (
          ignores.on_escape i (c ∷ rest)
          ∙ ap (λ k. jumps k s) (escape_length c rest (literal_rune-p c r e)))

      single-closed :
          (go : GoUnicode) (a : Single) (rest : Text)
          → IsSingle go a
          → next_opens (print_single a ++ rest) ≡ false
      unfolding print_single is_plain next_opens
      single-closed go (plain c) rest h = ground (arith, h)
      single-closed go (escaped c) rest h = refl

      dash-Passes : (go : GoUnicode) (b : Single) → IsSingle go b → Passes s (b'-' ∷ print_single b)
      dash-Passes go b hb i rest =
          scan-jumps b'-' [] (print_single b ++ rest) i s s
            (ignores.on_dash i (print_single b ++ rest) (single-closed go b rest hb))
          ∙ single-Passes go b hb (i + 1) rest
          ∙ ap (λ k. scan round 0 k rest s) (omega arith)

      letter-Passes : (l : Letter) (b : Bool) → Passes s (b'\\' ∷ letter_code l b ∷ [])
      letter-Passes l b i rest = scan-jumps b'\\' (letter_code l b ∷ []) rest i s s (
          ignores.on_escape i (letter_code l b ∷ rest)
          ∙ ap (λ k. jumps k s) (letter_length l b rest))

      property-Passes :
          (b : Bool) (name : Text)
          → one_of b'}' name ≡ false
          → Passes s (b'\\' ∷ (if b then b'P' else b'p') ∷ b'{' ∷ name ++ b'}' ∷ [])
      property-Passes b name free i rest =
          scan-jumps b'\\' ((if b then b'P' else b'p') ∷ b'{' ∷ name ++ b'}' ∷ []) rest i s s (
            ignores.on_escape i ((if b then b'P' else b'p') ∷ b'{' ∷ (name ++ b'}' ∷ []) ++ rest)
            ∙ ap (λ t. jumps (skip_escape ((if b then b'P' else b'p') ∷ b'{' ∷ t)) s)
                (append_assoc name (b'}' ∷ []) rest)
            ∙ ap (λ k. jumps k s)
                (property_length b name rest free ∙ omega (arith, length-append name (b'}' ∷ []))))

      item-Passes : (go : GoUnicode) (i : Item) → IsItem go i → Passes s (print_item i)
      unfolding print_item
      item-Passes go (one a) h = single-Passes go a h
      item-Passes go (span a b) (ha, hb, _) =
          Passes-append (print_single a) (b'-' ∷ print_single b) (single-Passes go a ha)
            (dash-Passes go b hb)
      item-Passes go (letter l b) h = letter-Passes l b
      item-Passes go (property b name) (free, _, _) = property-Passes b name free

      items-Passes :
          (go : GoUnicode) (items : List Item)
          → All (IsItem go) items
          → Passes s (print_items items)
      unfolding print_items
      items-Passes go [] h = λ i rest. ap (λ k. scan round 0 k rest s) (omega arith)
      items-Passes go (i ∷ items) h =
          Passes-append (print_item i) (print_items items) (item-Passes go i h.0)
            (items-Passes go items h.1)

      -- A printed group, with its `^` where it is negated.
      pub group-Passes :
          (go : GoUnicode) (negated : Bool) (items : List Item)
          → All (IsItem go) items
          → Passes s (print_group negated items)
      unfolding print_group is_ordinary
      group-Passes go false items h = items-Passes go items h
      group-Passes go true items h =
          Passes-append (b'^' ∷ []) (print_items items)
            (λ i rest. scan-jumps b'^' [] rest i s s (ignores.on_ordinary i b'^' rest refl))
            (items-Passes go items h)

dashed-closed :
    (p i : ℕ) (rest : Text) (s : ClassScan) → next_opens rest ≡ false → dashed p i rest s ≡ s
unfolding dashed
dashed-closed p i rest s h = elim (Bool-cases ((i == p) && starts_posix rest)) [
  | inl e ↦ rw e refl
  | inr e ↦ rw (e, h) (ground arith)
]

pub scan_round-Ignores : (p : ℕ) (s : ClassScan) → Ignores (scan_round p) s
unfolding scan_round is_ordinary
scan_round-Ignores p s = record {
  on_ordinary = λ i c rest h. ground (arith, h);
  on_escape = λ i rest. refl;
  on_dash = λ i rest h. ap (jumps 0) (dashed-closed p i rest s h);
}

pub end_round-Ignores : (d : ℕ) → Ignores end_round d
unfolding end_round is_ordinary
end_round-Ignores d = record {
  on_ordinary = λ i c rest h. ground (arith, h);
  on_escape = λ i rest. refl;
  on_dash = λ i rest h. refl;
}
