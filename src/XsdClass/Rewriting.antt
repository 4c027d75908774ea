-- ===== src/XsdClass/Rewriting.antt =====
-- go/internal/xsdregex/pattern.go: `NativePattern` and `UnsupportedNativeSyntax` on printed classes.
use cambium.IfFeature.Tokenizer.{codes}
use cambium.XsdClass.Passing.{scan-jumps, group-Passes, Ignores, is_ordinary}
use cambium.XsdClass.Atom.{starts_posix}
use cambium.XsdClass.Native.{
  unsupported_native_syntax, unsupported_from, unsupported_native_class_syntax, support_round,
  class_rewrite, rewrite_round, regexp_class_expr, native_pattern, rewrite_from,
  native_class_replacement,
}
use cambium.XsdClass.Brackets.{
  scan-ends, find_class_subtraction-less, find_class_subtraction-group, split_at,
}
use cambium.XsdClass.Scan.{scan, jumps, ends_here, find_class_subtraction}
use cambium.XsdClass.RoundTrip.{less_text, group_text, parse_class_expr_ranges-print}
use cambium.XsdRanges.Meaning.{holds}
use cambium.Prelude.{
  if◌then◌else◌, ◌+◌, sym, Option, length-append, ℕ, ◌-◌, ◌≤◌, ◌≡◌, refl, ap, ◌∙◌, Bool, false,
  none, some, List, [], ◌∷◌, ◌++◌, arith, length, All,
}
use cambium.XsdClass.{GoUnicode}
use cambium.XsdClass.Syntax.{
  class_has, IsItem, print_body, print_group, print_class, IsClass, Item, without, group, ClassExpr,
}
use cambium.Prelude.{
  ℕ, ◌-◌, ◌≤◌, ◌≡◌, refl, ap, ◌∙◌, Bool, false, none, some, List, [], ◌∷◌, ◌++◌, arith, length, All,
}
use cambium.Strconv.{Text}
use cambium.XsdRanges.{max_rune, RuneRange}

-- A class with subtraction.
abbrev pub Subtracts : ClassExpr → Type 0
Subtracts (group negated items) = ⊥
Subtracts (without negated items e) = Unit

module _ (go : GoUnicode) where
  end_of-less :
      (negated : Bool) (items : List Item) (e : ClassExpr)
      → length (print_class (without negated items e)) - 1
        ≡ (split_at (length (print_group negated items)) (length (print_body e))).end
  unfolding print_class print_body
  end_of-less negated items e =
      let tail = b'-' ∷ b'[' ∷ print_body e ++ b']' ∷ [] in
      omega (
        arith,
        length-append (print_group negated items ++ tail) (b']' ∷ []),
        length-append (print_group negated items) tail,
        length-append (print_body e) (b']' ∷ []),
      )

  native_class_replacement-less :
      (negated : Bool) (items : List Item) (e : ClassExpr) (rest : Text)
      → IsClass go (without negated items e)
      → (rs : List RuneRange) × (native_class_replacement go
            (print_class (without negated items e) ++ rest)
          ≡ some (regexp_class_expr rs false, length (print_class (without negated items e)) - 1))
        × ((x : ℕ) → x ≤ max_rune → holds x rs ≡ class_has go x (without negated items e))
  unfolding native_class_replacement
  native_class_replacement-less negated items e rest h =
      let (rs, read, means) = parse_class_expr_ranges-print go (without negated items e) rest h in
      let found : find_class_subtraction (print_class (without negated items e) ++ rest)
          ≡ some (split_at (length (print_group negated items)) (length (print_body e))) =
        ap find_class_subtraction (less_text negated items e rest)
        ∙ find_class_subtraction-less go negated items e rest h in
      (
        rs,
        rw (native_class_replacement, found, read, end_of-less negated items e) (ground arith),
        means,
      )

  native_class_replacement-group :
      (negated : Bool) (items : List Item) (rest : Text)
      → All (IsItem go) items
      → native_class_replacement go (print_class (group negated items) ++ rest) ≡ none
  unfolding native_class_replacement
  native_class_replacement-group negated items rest h =
      let none_found : find_class_subtraction (print_class (group negated items) ++ rest) ≡ none =
        ap find_class_subtraction (group_text negated items rest)
        ∙ find_class_subtraction-group go negated items rest h in
      rw (native_class_replacement, none_found) refl

  rewrite_from-skip :
      (b : Bool) (xs rest : Text)
      → rewrite_from go (length xs) b (xs ++ rest) ≡ rewrite_from go 0 b rest
  unfolding rewrite_from
  rewrite_from-skip b [] rest = refl
  rewrite_from-skip b (x ∷ xs) rest = rewrite_from-skip b xs rest

  rewrite_round-class :
      (b : Bool) (rest expr : Text) (n : ℕ)
      → native_class_replacement go (b'[' ∷ rest) ≡ some (expr, n)
      → rewrite_round go b b'[' rest ≡ record { out = expr; skip = n; in_class = b }
  unfolding rewrite_round class_rewrite
  rewrite_round-class b rest expr n h = rw (h, class_rewrite) refl

  rewrite_from-class :
      (b : Bool) (xs rest expr : Text)
      → native_class_replacement go (b'[' ∷ (xs ++ rest)) ≡ some (expr, length xs)
      → rewrite_from go 0 b (b'[' ∷ (xs ++ rest)) ≡ expr ++ rewrite_from go 0 b rest
  unfolding rewrite_from
  rewrite_from-class b xs rest expr h =
      rw (rewrite_from, rewrite_round-class b (xs ++ rest) expr (length xs) h)
        (ap (λ t. expr ++ t) (rewrite_from-skip b xs rest))

  -- A printed class with subtraction is replaced by a Go class for ranges that hold a code point, at
  -- most the largest, exactly when the class does, and the text behind it is rewritten as if it stood
  -- alone.
  pub native_pattern-print :
      (negated : Bool) (items : List Item) (e : ClassExpr) (rest : Text)
      → IsClass go (without negated items e)
      → (rs : List RuneRange) × (native_pattern go (print_class (without negated items e) ++ rest)
          ≡ regexp_class_expr rs false ++ native_pattern go rest)
        × ((x : ℕ) → x ≤ max_rune → holds x rs ≡ class_has go x (without negated items e))
  unfolding native_pattern print_class
  native_pattern-print negated items e rest h =
      let (rs, replaced, means) = native_class_replacement-less negated items e rest h in
      let xs = print_body (without negated items e) ++ b']' ∷ [] in
      (
        rs,
        rewrite_from-class false xs rest (regexp_class_expr rs false)
            (replaced ∙ ap (λ k. some (regexp_class_expr rs false, k)) (omega arith)),
        means,
      )

  -- The loop of `unsupportedNativeClassSyntax` leaves everything but brackets alone.
  support_round-Ignores : (whole : Text) (s : Bool × Option ℕ) → Ignores (support_round go whole) s
  unfolding support_round is_ordinary
  support_round-Ignores whole s = record {
    on_ordinary = λ i c rest h. ground (arith, h);
    on_escape = λ i rest. refl;
    on_dash = λ i rest h. refl;
  }

  support_round-stops :
      (whole : Text) (i : ℕ) (rest expr : Text) (end : ℕ) (s : Bool × Option ℕ)
      → starts_posix (b'[' ∷ rest) ≡ false
      → native_class_replacement go whole ≡ some (expr, end)
      → support_round go whole i b'[' rest s ≡ ends_here (false, some end)
  unfolding support_round
  support_round-stops whole i rest expr end s h e = rw (support_round, h, e) refl

  support_round-dash :
      (whole : Text) (i : ℕ) (rest : Text) (s : Bool × Option ℕ)
      → support_round go whole i b'-' rest s ≡ jumps 0 s
  unfolding support_round
  support_round-dash whole i rest s = refl

  support_round-closes :
      (whole : Text) (i : ℕ) (rest : Text) (s : Bool × Option ℕ)
      → support_round go whole i b']' rest s ≡ ends_here (false, none)
  unfolding support_round
  support_round-closes whole i rest s = refl

  supported-group :
      (negated : Bool) (items : List Item) (rest : Text)
      → All (IsItem go) items
      → unsupported_native_class_syntax go (b'[' ∷ (print_group negated items ++ (b']' ∷ rest)))
        ≡ (false, 1 + length (print_group negated items))
  unfolding unsupported_native_class_syntax
  supported-group negated items rest h =
      let g = print_group negated items in
      let whole = b'[' ∷ (g ++ (b']' ∷ rest)) in
      let round = support_round go (b'[' ∷ (g ++ (b']' ∷ rest))) in
      let s : Bool × Option ℕ = (false, none) in
      let found : scan round 0 1 (g ++ (b']' ∷ rest)) s ≡ some (s, 1 + length g) =
        group-Passes round s (support_round-Ignores whole s) go negated items h 1 (b']' ∷ rest)
        ∙ scan-ends round b']' (1 + length g) rest s s
            (support_round-closes whole (1 + length g) rest s) in
      rw (unsupported_native_class_syntax, found) refl

  supported-less :
      (negated : Bool) (items : List Item) (tail expr : Text) (end : ℕ)
      → All (IsItem go) items
      → starts_posix (b'[' ∷ tail) ≡ false
      → native_class_replacement go (b'[' ∷ (print_group negated items ++ (b'-' ∷ b'[' ∷ tail)))
        ≡ some (expr, end)
      → unsupported_native_class_syntax go
          (b'[' ∷ (print_group negated items ++ (b'-' ∷ b'[' ∷ tail)))
        ≡ (false, end)
  unfolding unsupported_native_class_syntax
  supported-less negated items tail expr end h colonless e =
      let g = print_group negated items in
      let whole = b'[' ∷ (g ++ (b'-' ∷ b'[' ∷ tail)) in
      let round = support_round go whole in
      let s : Bool × Option ℕ = (false, none) in
      let m = 1 + length g in
      let found : scan round 0 1 (g ++ (b'-' ∷ b'[' ∷ tail)) s ≡ some ((false, some end), m + 1) =
        group-Passes round s (support_round-Ignores whole s) go negated items h 1
          (b'-' ∷ b'[' ∷ tail)
        ∙ scan-jumps round b'-' [] (b'[' ∷ tail) m s s (support_round-dash whole m (b'[' ∷ tail) s)
        ∙ scan-ends round b'[' (m + 1) tail s (false, some end)
            (support_round-stops whole (m + 1) tail expr end s colonless e) in
      rw (unsupported_native_class_syntax, found) refl

  unsupported_from-skip :
      (xs rest : Text) → unsupported_from go (length xs) (xs ++ rest) ≡ unsupported_from go 0 rest
  unfolding unsupported_from
  unsupported_from-skip [] rest = refl
  unsupported_from-skip (x ∷ xs) rest = unsupported_from-skip xs rest

  unsupported_from-class :
      (xs rest : Text)
      → unsupported_native_class_syntax go (b'[' ∷ (xs ++ rest)) ≡ (false, length xs)
      → unsupported_from go 0 (b'[' ∷ (xs ++ rest)) ≡ unsupported_from go 0 rest
  unfolding unsupported_from
  unsupported_from-class xs rest h = rw (unsupported_from, h) (unsupported_from-skip xs rest)

  starts_posix-first :
      (t xs ys : Text)
      → starts_posix (b'[' ∷ (t ++ (b']' ∷ xs))) ≡ starts_posix (b'[' ∷ (t ++ (b']' ∷ ys)))
  unfolding starts_posix
  starts_posix-first [] xs ys = refl
  starts_posix-first (c ∷ t) xs ys = refl

  -- The class that is subtracted first does not look like a POSIX class.
  abbrev pub IsColonless : ClassExpr → Type 0
  IsColonless (group negated items) = Unit
  IsColonless (without negated items e) = starts_posix (print_class e) ≡ false

  supported :
      (e : ClassExpr) (rest : Text)
      → IsClass go e
      → IsColonless e
      → unsupported_native_class_syntax go (print_class e ++ rest)
        ≡ (false, length (print_class e) - 1)
  unfolding print_class print_body
  supported (group negated items) rest h c =
      ap (λ t. unsupported_native_class_syntax go t) (group_text negated items rest)
      ∙ supported-group negated items rest h.1
      ∙ ap (λ k. (false, k)) (omega (arith, length-append (print_group negated items) (b']' ∷ [])))
  supported (without negated items e) rest h c =
      let (rs, replaced, means) = native_class_replacement-less negated items e rest h in
      ap (λ t. unsupported_native_class_syntax go t) (less_text negated items e rest)
      ∙ supported-less negated items _ (regexp_class_expr rs false) _ h.1
          (starts_posix-first (print_body e) (b']' ∷ rest) [] ∙ c)
          (ap (λ t. native_class_replacement go t) (sym (less_text negated items e rest))
            ∙ replaced)

  -- Of a text that begins with a printed class `UnsupportedNativeSyntax` reports what it reports of the
  -- rest: it finds nothing wrong with the class. A class that is subtracted does not begin with `[:`.
  pub unsupported_native_syntax-print :
      (e : ClassExpr) (rest : Text)
      → IsClass go e
      → IsColonless e
      → unsupported_native_syntax go (print_class e ++ rest) ≡ unsupported_native_syntax go rest
  unfolding unsupported_native_syntax print_class
  unsupported_native_syntax-print e rest h c =
      let xs = print_body e ++ b']' ∷ [] in
      ap (λ b. if b then codes "unsupported or malformed character class syntax" else [])
        (unsupported_from-class xs rest (supported e rest h c ∙ ap (λ k. (false, k)) (omega arith)))
