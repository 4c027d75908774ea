-- ===== src/XsdClass/RoundTrip.antt =====
-- go/internal/xsdregex/pattern.go: `parseClassExprRanges` on printed classes.
use cambium.XsdRanges.Subtract.{holds-subtract_ranges}
use cambium.XsdClass.Contents.{group-ReadsGroup}
use cambium.XsdClass.Brackets.{
  find_class_subtraction-less, find_class_subtraction-group, find_class_end-group, less_tail,
  split_at,
}
use cambium.XsdRanges.Meaning.{holds}
use cambium.XsdClass.Expr.{
  parse_class_expr_ranges, parse_class_content_ranges, subtracted, class_expr, plain_class,
}
use cambium.XsdClass.{GoUnicode}
use cambium.XsdClass.Syntax.{
  IsClass, IsItem, print_group, without, class_has, Item, group, print_class, print_body, ClassExpr,
}
use cambium.Prelude.{
  length-append, append_assoc, drop, take, ℕ, zero, suc, ◌+◌, ◌-◌, ◌≤◌, ◌≡◌, refl, sym, ap, ◌∙◌,
  Bool, some, List, [], ◌∷◌, ◌++◌, arith, length, All,
}
use cambium.Strconv.{Text}
use cambium.XsdRanges.{subtract_ranges, max_rune, RuneRange}

-- How deep the subtractions of a class are nested.
nesting : ClassExpr → ℕ
nesting (group negated items) = 1
nesting (without negated items e) = suc (nesting e)

nesting-le : (e : ClassExpr) → nesting e ≤ length (print_class e)
unfolding nesting print_body print_class
nesting-le (group negated items) = omega arith
nesting-le (without negated items e) = omega (
  arith,
  nesting-le e,
  length-append (print_body e) (b']' ∷ []),
  length-append (print_group negated items ++ (b'-' ∷ b'[' ∷ print_body e ++ b']' ∷ []))
      (b']' ∷ []),
  length-append (print_group negated items) (b'-' ∷ b'[' ∷ print_body e ++ b']' ∷ []),
)

module _ {ℓ} {A : Type ℓ} where
  take-prefix : (xs ys : List A) → take (length xs) (xs ++ ys) ≡ xs
  take-prefix [] ys = refl
  take-prefix (x ∷ xs) ys = ap (λ l. x ∷ l) (take-prefix xs ys)

  drop-behind : (xs ys : List A) (k : ℕ) → k ≡ length xs → drop k (xs ++ ys) ≡ ys
  drop-behind [] ys k e = rw e refl
  drop-behind (x ∷ xs) ys k e = rw e (drop-behind xs ys (length xs) refl)

-- The class's text, with what follows.
pub group_text :
    (negated : Bool) (items : List Item) (rest : Text)
    → print_class (group negated items) ++ rest
      ≡ b'[' ∷ (print_group negated items ++ (b']' ∷ rest))
unfolding print_class print_body
group_text negated items rest =
    ap (λ l. b'[' ∷ l) (append_assoc (print_group negated items) (b']' ∷ []) rest)

pub less_text :
    (negated : Bool) (items : List Item) (e : ClassExpr) (rest : Text)
    → print_class (without negated items e) ++ rest
      ≡ b'[' ∷ (print_group negated items ++ less_tail e rest)
unfolding print_class print_body
less_text negated items e rest =
    let g = print_group negated items in
    let tail = b'-' ∷ b'[' ∷ print_body e ++ b']' ∷ [] in
    ap (λ l. b'[' ∷ l)
      (append_assoc (g ++ tail) (b']' ∷ []) rest
        ∙ append_assoc g tail (b']' ∷ rest)
        ∙ ap (λ l. g ++ (b'-' ∷ b'[' ∷ l)) (append_assoc (print_body e) (b']' ∷ []) (b']' ∷ rest)))

sub_text :
    (e : ClassExpr) (rest : Text)
    → print_class e ++ (b']' ∷ rest) ≡ b'[' ∷ (print_body e ++ (b']' ∷ b']' ∷ rest))
unfolding print_class
sub_text e rest = ap (λ l. b'[' ∷ l) (append_assoc (print_body e) (b']' ∷ []) (b']' ∷ rest))

module _ (go : GoUnicode) where
  -- What is read of a class, with enough fuel: its code points, and where it ends.
  record ReadsClass (e : ClassExpr) : Type 0 where
    ranges : List RuneRange
    means : (x : ℕ) → x ≤ max_rune → holds x ranges ≡ class_has go x e
    reads :
        (fuel : ℕ) (rest : Text)
        → nesting e ≤ fuel
        → class_expr go fuel (print_class e ++ rest) ≡ some (ranges, 1 + length (print_body e))

  plain_class-group :
      (negated : Bool) (items : List Item) (rest : Text) (rs : List RuneRange)
      → All (IsItem go) items
      → parse_class_content_ranges go (print_group negated items) ≡ some rs
      → plain_class go (b'[' ∷ (print_group negated items ++ (b']' ∷ rest)))
        ≡ some (rs, 1 + length (print_group negated items))
  unfolding plain_class
  plain_class-group negated items rest rs h e =
      let g = print_group negated items in
      let inner : parse_class_content_ranges go (take (1 + length g - 1) (g ++ (b']' ∷ rest)))
          ≡ some rs =
        ap (λ k. parse_class_content_ranges go (take k (g ++ (b']' ∷ rest)))) (omega arith)
        ∙ ap (λ t. parse_class_content_ranges go t) (take-prefix g (b']' ∷ rest))
        ∙ e in
      rw (plain_class, find_class_end-group go negated items rest h, inner) refl

  class_expr-group :
      (negated : Bool) (items : List Item) (rest : Text) (rs : List RuneRange) (fuel : ℕ)
      → All (IsItem go) items
      → parse_class_content_ranges go (print_group negated items) ≡ some rs
      → 1 ≤ fuel
      → class_expr go fuel (print_class (group negated items) ++ rest)
        ≡ some (rs, 1 + length (print_group negated items))
  unfolding class_expr
  class_expr-group negated items rest rs zero h e le = absurd (omega arith)
  class_expr-group negated items rest rs (suc fuel) h e le =
      ap (λ t. class_expr go (suc fuel) t) (group_text negated items rest)
      ∙ rw (class_expr, find_class_subtraction-group go negated items rest h)
          (plain_class-group negated items rest rs h e)

  subtracted_lem :
      (g body : ℕ) (base sub : List RuneRange)
      → subtracted go (split_at g body) base (sub, 1 + body)
        ≡ some (subtract_ranges base sub, (split_at g body).end)
  unfolding subtracted
  subtracted_lem g body base sub = ground arith

  class_expr-less :
      (negated : Bool) (items : List Item) (e : ClassExpr) (rest : Text) (base sub : List RuneRange)
      (fuel : ℕ)
      → IsClass go (without negated items e)
      → parse_class_content_ranges go (print_group negated items) ≡ some base
      → class_expr go fuel (print_class e ++ (b']' ∷ rest)) ≡ some (sub, 1 + length (print_body e))
      → class_expr go (suc fuel) (print_class (without negated items e) ++ rest)
        ≡ some (
          subtract_ranges base sub,
          (split_at (length (print_group negated items)) (length (print_body e))).end,
        )
  unfolding class_expr
  class_expr-less negated items e rest base sub fuel h he hs =
      let g = print_group negated items in
      let tail = less_tail e rest in
      let outer : parse_class_content_ranges go (take (1 + length g - 1) (g ++ tail)) ≡ some base =
        ap (λ k. parse_class_content_ranges go (take k (g ++ tail))) (omega arith)
        ∙ ap (λ t. parse_class_content_ranges go t) (take-prefix g tail)
        ∙ he in
      let behind : drop (1 + length g + 1) (b'[' ∷ (g ++ tail)) ≡ print_class e ++ (b']' ∷ rest) =
        let sub_tail = b'[' ∷ (print_body e ++ (b']' ∷ b']' ∷ rest)) in
        ap (λ l. drop (1 + length g + 1) (b'[' ∷ l)) (sym (append_assoc g (b'-' ∷ []) sub_tail))
        ∙ drop-behind (b'[' ∷ (g ++ b'-' ∷ [])) sub_tail (1 + length g + 1)
            (omega (arith, length-append g (b'-' ∷ [])))
        ∙ sym (sub_text e rest) in
      let inner : class_expr go fuel (drop (1 + length g + 1) (b'[' ∷ (g ++ tail)))
          ≡ some (sub, 1 + length (print_body e)) =
        ap (λ t. class_expr go fuel t) behind ∙ hs in
      ap (λ t. class_expr go (suc fuel) t) (less_text negated items e rest)
      ∙ rw (class_expr, find_class_subtraction-less go negated items e rest h, outer, inner)
          (subtracted_lem (length g) (length (print_body e)) base sub)

  less-reads :
      (negated : Bool) (items : List Item) (e : ClassExpr) (rest : Text) (base : List RuneRange)
      (sub : ReadsClass e) (fuel : ℕ)
      → IsClass go (without negated items e)
      → parse_class_content_ranges go (print_group negated items) ≡ some base
      → suc (nesting e) ≤ fuel
      → class_expr go fuel (print_class (without negated items e) ++ rest)
        ≡ some (
          subtract_ranges base sub.ranges,
          1 + length (print_group negated items ++ (b'-' ∷ b'[' ∷ print_body e ++ b']' ∷ [])),
        )
  less-reads negated items e rest base sub zero h he le = absurd (omega arith)
  less-reads negated items e rest base sub (suc fuel) h he le =
      class_expr-less negated items e rest base sub.ranges fuel h he
        (sub.reads fuel (b']' ∷ rest) (omega (arith, le)))
      ∙ ap (λ k. some (subtract_ranges base sub.ranges, k))
          (omega (
            arith,
            length-append (print_group negated items) (b'-' ∷ b'[' ∷ print_body e ++ b']' ∷ []),
            length-append (print_body e) (b']' ∷ []),
          ))

  class-ReadsClass : (e : ClassExpr) → IsClass go e → ReadsClass e
  unfolding nesting class_has print_body
  class-ReadsClass (group negated items) h =
      let read = group-ReadsGroup go negated items h.0 h.1 in
      record {
        ranges = read.ranges;
        means = read.means;
        reads =
            λ fuel rest le. class_expr-group negated items rest read.ranges fuel h.1 read.reads le;
      }
  class-ReadsClass (without negated items e) h =
      let base = group-ReadsGroup go negated items h.0 h.1 in
      let sub = class-ReadsClass e h.2 in
      record {
        ranges = subtract_ranges base.ranges sub.ranges;
        means = λ x le.
            rw (holds-subtract_ranges x base.ranges sub.ranges, base.means x le, sub.means x le)
              refl;
        reads =
            λ fuel rest le. less-reads negated items e rest base.ranges sub fuel h base.reads le;
      }

  -- For a class that the parser can read, whatever text follows it, `parseClassExprRanges` returns the
  -- index of its last bracket, and ranges that hold a code point, at most the largest, exactly when the
  -- class does.
  pub parse_class_expr_ranges-print :
      (e : ClassExpr) (rest : Text)
      → IsClass go e
      → (rs : List RuneRange) × (parse_class_expr_ranges go (print_class e ++ rest)
          ≡ some (rs, length (print_class e) - 1))
        × ((x : ℕ) → x ≤ max_rune → holds x rs ≡ class_has go x e)
  unfolding parse_class_expr_ranges print_class
  parse_class_expr_ranges-print e rest h =
      let read = class-ReadsClass e h in
      (
        read.ranges,
        read.reads (length (print_class e ++ rest)) rest
              (omega (arith, nesting-le e, length-append (print_class e) rest))
            ∙ ap (λ k. some (read.ranges, k))
                (omega (arith, length-append (print_body e) (b']' ∷ []))),
        read.means,
      )
