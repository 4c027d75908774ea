-- ===== src/XsdClass/Atoms.antt =====
-- go/internal/xsdregex/pattern.go: what `parseClassAtom` reads of a printed item.
use cambium.XsdClass.{unicode_class_ranges, GoUnicode}
use cambium.XsdClass.Atom.{
  name_char, name_start, word, space, set_atom, decimal, property_atom, letter_ranges, Letter,
  one_of, literal, before_brace, class_letter, parse_class_escape_atom, parse_class_atom, ClassAtom,
  literal_rune, starts_posix,
}
use cambium.XsdClass.Syntax.{
  letter_code, escaped, IsSingle, plain, print_single, rune_of, Single, is_plain,
}
use cambium.Prelude.{
  ℕ, ◌+◌, ◌≡◌, refl, sym, ap, ◌∙◌, inl, inr, Bool, true, false, ◌||◌, none, some, List, [], ◌∷◌,
  ◌++◌, arith, ◌==◌, if◌then◌else◌, Bool-cases, length,
}
use cambium.Strconv.{Text}
use cambium.XsdRanges.{RuneRange}

unfoldable pub single_atom : Single → ℕ → ClassAtom
single_atom s r = record {
  ranges = record { lo = r; hi = r } ∷ [];
  single = some r;
  raw_dash = false;
  width = length (print_single s);
}

starts_posix-ne : (c : ℕ) (rest : Text) → (c == b'[') ≡ false → starts_posix (c ∷ rest) ≡ false
unfolding starts_posix
starts_posix-ne c [] h = refl
starts_posix-ne c (d ∷ rest) h = rw h refl

literal_rune-other :
    (c k r : ℕ) → literal_rune c ≡ some r → literal_rune k ≡ none → (c == k) ≡ false
literal_rune-other c k r h e = elim (Bool-cases (c == k)) [
  | inl q ↦
      let same : c ≡ k = ground (arith, q) in
      let clash : some r ≡ none = sym h ∙ ap literal_rune same ∙ e in cc
  | inr q ↦ q
]

-- An escape that stands for a rune does not begin a property.
pub literal_rune-p : (c r : ℕ) → literal_rune c ≡ some r → ((c == b'p') || (c == b'P')) ≡ false
unfolding literal_rune
literal_rune-p c r h =
    ground (arith, literal_rune-other c b'p' r h refl, literal_rune-other c b'P' r h refl)

pub before_brace-append :
    (name rest : Text) → one_of b'}' name ≡ false → before_brace (name ++ b'}' ∷ rest) ≡ some name
unfolding before_brace one_of
before_brace-append [] rest h = refl
before_brace-append (c ∷ name) rest h = ground (arith, before_brace-append name rest)

module _ (go : GoUnicode) where
  parse_class_atom-plain :
      (c : ℕ) (rest : Text)
      → is_plain c ≡ true
      → parse_class_atom go (c ∷ rest) ≡ some (single_atom (plain c) c)
  unfolding parse_class_atom is_plain single_atom print_single
  parse_class_atom-plain c rest h = ground (arith, starts_posix-ne c rest)

  escape-literal :
      (c r : ℕ) (rest : Text)
      → class_letter c ≡ none
      → literal_rune c ≡ some r
      → parse_class_escape_atom go (c ∷ rest) ≡ some (literal r)
  unfolding parse_class_escape_atom
  escape-literal c r rest h e = rw (parse_class_escape_atom, h, e) refl

  escape-letter :
      (c : ℕ) (l : Letter) (b : Bool) (rs : List RuneRange) (rest : Text)
      → class_letter c ≡ some (l, b)
      → letter_ranges go l b ≡ some rs
      → parse_class_escape_atom go (c ∷ rest) ≡ some (set_atom 2 rs)
  unfolding parse_class_escape_atom
  escape-letter c l b rs rest h e = rw (parse_class_escape_atom, h, e) refl

  pub parse_class_atom-single :
      (s : Single) (r : ℕ) (rest : Text)
      → IsSingle go s
      → rune_of s ≡ some r
      → parse_class_atom go (print_single s ++ rest) ≡ some (single_atom s r)
  unfolding rune_of print_single parse_class_atom parse_class_escape_atom starts_posix literal
      single_atom
  parse_class_atom-single (plain c) r rest h e =
      parse_class_atom-plain c rest h ∙ ap (λ x. some (single_atom (plain c) x)) cc
  parse_class_atom-single (escaped c) r rest h e = escape-literal c r rest h.0 e

  class_letter-code : (l : Letter) (b : Bool) → class_letter (letter_code l b) ≡ some (l, b)
  unfolding class_letter letter_code
  class_letter-code decimal false = refl
  class_letter-code decimal true = refl
  class_letter-code space false = refl
  class_letter-code space true = refl
  class_letter-code word false = refl
  class_letter-code word true = refl
  class_letter-code name_start false = refl
  class_letter-code name_start true = refl
  class_letter-code name_char false = refl
  class_letter-code name_char true = refl

  pub parse_class_atom-letter :
      (l : Letter) (b : Bool) (rs : List RuneRange) (rest : Text)
      → letter_ranges go l b ≡ some rs
      → parse_class_atom go (b'\\' ∷ letter_code l b ∷ rest) ≡ some (set_atom 2 rs)
  unfolding parse_class_atom parse_class_escape_atom starts_posix
  parse_class_atom-letter l b rs rest h =
      escape-letter (letter_code l b) l b rs rest (class_letter-code l b) h

  pub parse_class_atom-property :
      (b : Bool) (c : ℕ) (name : Text) (rs : List RuneRange) (rest : Text)
      → one_of b'}' (c ∷ name) ≡ false
      → unicode_class_ranges go (c ∷ name) b ≡ some rs
      → parse_class_atom go (b'\\' ∷ (if b then b'P' else b'p') ∷ b'{' ∷ (c ∷ name) ++ b'}' ∷ rest)
        ≡ some (set_atom (length name + 5) rs)
  unfolding parse_class_atom parse_class_escape_atom starts_posix class_letter literal_rune one_of
      property_atom
  parse_class_atom-property false c name rs rest h e =
      rw (before_brace-append (c ∷ name) rest h, e) refl
  parse_class_atom-property true c name rs rest h e =
      rw (before_brace-append (c ∷ name) rest h, e) refl
