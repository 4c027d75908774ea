-- ===== src/Canonical/Order.antt =====
-- go/datatree/datatree_order.go: the laws of the order of `compareOrderKeys`.
use cambium.Prelude.{
  subst, ℕ, ◌+◌, ◌/◌, ◌%◌, ◌≡◌, refl, sym, ap, ◌∙◌, Bool, true, false, List, [], ◌∷◌, arith, length,
}
use cambium.Prelude.Comparison.{
  Comparison, below, same, above, order_of, compare_text, first_of, flip, Composes, order_of-flip,
  order_of-Composes, first_of-flip, first_of-Composes, below_left, below_right, above_left,
  above_right, compare_text-flip, compare_text-Composes,
}
use cambium.Prelude.Int.{ℤ, pos_part, neg_part}
use cambium.Canonical.{
  OrderKind, order_bytes, order_signed, order_unsigned, order_sized_bytes, order_bits, OrderKey,
  order_of_ℤ, compare_sparse_bitmaps, compare_by_kind, compare_valid, compare_validity,
  compare_order_keys,
}

order_of_ℤ-flip : (a b : ℤ) → order_of_ℤ b a ≡ flip (order_of_ℤ a b)
order_of_ℤ-flip a b = order_of-flip (pos_part a + neg_part b) (pos_part b + neg_part a)

order_of_ℤ-Composes : (a b c : ℤ) → Composes (order_of_ℤ a b) (order_of_ℤ b c) (order_of_ℤ a c)
order_of_ℤ-Composes a b c = ground arith

order_of-Composes_back : (a b c : ℕ) → Composes (order_of b a) (order_of c b) (order_of c a)
order_of-Composes_back a b c = ground arith

-- The comparison of two bitmaps, by the first index and then by its byte.
compare_sparse-cons :
    (x y : ℕ) (xs ys : List ℕ)
    → compare_sparse_bitmaps (x ∷ xs) (y ∷ ys)
      ≡ first_of
          (order_of (y / 256) (x / 256))
          (first_of (order_of (x % 256) (y % 256)) (compare_sparse_bitmaps xs ys))
unfolding compare_sparse_bitmaps
compare_sparse-cons x y xs ys = ground arith

compare_sparse-flip :
    (xs ys : List ℕ) → compare_sparse_bitmaps ys xs ≡ flip (compare_sparse_bitmaps xs ys)
compare_sparse-flip [] [] = unfold compare_sparse_bitmaps in refl
compare_sparse-flip [] (y ∷ ys) = unfold compare_sparse_bitmaps in refl
compare_sparse-flip (x ∷ xs) [] = unfold compare_sparse_bitmaps in refl
compare_sparse-flip (x ∷ xs) (y ∷ ys) =
    let bytes = order_of (x % 256) (y % 256) in
    let rest = compare_sparse_bitmaps xs ys in
    rw
      (
        compare_sparse-cons y x ys xs,
        compare_sparse-cons x y xs ys,
        compare_sparse-flip xs ys,
        first_of-flip (order_of (y / 256) (x / 256)) (first_of bytes rest),
        first_of-flip bytes rest,
        sym (order_of-flip (y / 256) (x / 256)),
        sym (order_of-flip (x % 256) (y % 256)),
      )
      refl

compare_sparse-Composes :
    (xs ys zs : List ℕ)
    → Composes
        (compare_sparse_bitmaps xs ys)
        (compare_sparse_bitmaps ys zs)
        (compare_sparse_bitmaps xs zs)
compare_sparse-Composes [] [] [] = unfold compare_sparse_bitmaps in refl
compare_sparse-Composes [] [] (z ∷ zs) = unfold compare_sparse_bitmaps in refl
compare_sparse-Composes [] (y ∷ ys) [] = unfold compare_sparse_bitmaps in tt
compare_sparse-Composes [] (y ∷ ys) (z ∷ zs) =
    unfold compare_sparse_bitmaps in below_left (compare_sparse_bitmaps (y ∷ ys) (z ∷ zs))
compare_sparse-Composes (x ∷ xs) [] [] = unfold compare_sparse_bitmaps in refl
compare_sparse-Composes (x ∷ xs) [] (z ∷ zs) = unfold compare_sparse_bitmaps in tt
compare_sparse-Composes (x ∷ xs) (y ∷ ys) [] =
    unfold compare_sparse_bitmaps in above_right (compare_sparse_bitmaps (x ∷ xs) (y ∷ ys))
compare_sparse-Composes (x ∷ xs) (y ∷ ys) (z ∷ zs) =
    rw (compare_sparse-cons x y xs ys, compare_sparse-cons y z ys zs, compare_sparse-cons x z xs zs)
      (first_of-Composes (order_of (y / 256) (x / 256)) (order_of (z / 256) (y / 256))
        (order_of (z / 256) (x / 256)) _ _ _ (order_of-Composes_back (x / 256) (y / 256) (z / 256))
        (λ p q.
          first_of-Composes (order_of (x % 256) (y % 256)) (order_of (y % 256) (z % 256))
            (order_of (x % 256) (z % 256)) _ _ _ (order_of-Composes (x % 256) (y % 256) (z % 256))
            (λ p' q'. compare_sparse-Composes xs ys zs)))

-- The kind of a key is that of the member type, as it is for the keys of one type.
abbrev pub IsOfType : (ℕ → OrderKind) → OrderKey → Type 0
IsOfType kinds x = x.kind ≡ kinds x.member

by_kind-flip :
    (k : OrderKind) (x y : OrderKey) → compare_by_kind k y x ≡ flip (compare_by_kind k x y)
unfolding compare_by_kind
by_kind-flip order_signed x y = order_of_ℤ-flip x.i y.i
by_kind-flip order_unsigned x y = order_of-flip x.u y.u
by_kind-flip order_sized_bytes x y =
    rw (order_of-flip (length x.b) (length y.b), compare_text-flip x.b y.b)
      (sym (first_of-flip (order_of (length x.b) (length y.b)) (compare_text x.b y.b)))
by_kind-flip order_bits x y = compare_sparse-flip x.bits y.bits
by_kind-flip order_bytes x y = compare_text-flip x.b y.b

by_kind-Composes :
    (k : OrderKind) (x y z : OrderKey)
    → Composes (compare_by_kind k x y) (compare_by_kind k y z) (compare_by_kind k x z)
unfolding compare_by_kind
by_kind-Composes order_signed x y z = order_of_ℤ-Composes x.i y.i z.i
by_kind-Composes order_unsigned x y z = order_of-Composes x.u y.u z.u
by_kind-Composes order_sized_bytes x y z =
    first_of-Composes (order_of (length x.b) (length y.b)) (order_of (length y.b) (length z.b))
      (order_of (length x.b) (length z.b)) _ _ _
      (order_of-Composes (length x.b) (length y.b) (length z.b))
      (λ p q. compare_text-Composes x.b y.b z.b)
by_kind-Composes order_bits x y z = compare_sparse-Composes x.bits y.bits z.bits
by_kind-Composes order_bytes x y z = compare_text-Composes x.b y.b z.b

-- Two valid keys are compared by their members, the first one greater, and then by kind.
valid-first_of :
    (x y : OrderKey)
    → compare_valid x y ≡ first_of (order_of y.member x.member) (compare_by_kind x.kind x y)
unfolding compare_valid
valid-first_of x y = ground arith

order_of-same : (a b : ℕ) → order_of a b ≡ same → a ≡ b
order_of-same a b h = ground arith

first_of_cong : (r s t : Comparison) → (r ≡ same → s ≡ t) → first_of r s ≡ first_of r t
first_of_cong below s t h = refl
first_of_cong same s t h = h refl
first_of_cong above s t h = refl

valid-flip :
    (kinds : ℕ → OrderKind) (x y : OrderKey)
    → IsOfType kinds x
    → IsOfType kinds y
    → compare_valid y x ≡ flip (compare_valid x y)
valid-flip kinds x y h k =
    let r = order_of x.member y.member in
    valid-first_of y x
    ∙ first_of_cong r (compare_by_kind y.kind y x) (compare_by_kind x.kind y x) (λ p.
      ap (λ q. compare_by_kind q y x)
        (k ∙ ap kinds (sym (order_of-same x.member y.member p)) ∙ sym h))
    ∙ sym (
        ap flip (valid-first_of x y)
        ∙ first_of-flip (order_of y.member x.member) (compare_by_kind x.kind x y)
        ∙ ap (λ q. first_of q (flip (compare_by_kind x.kind x y)))
            (sym (order_of-flip y.member x.member))
        ∙ ap (λ q. first_of r q) (sym (by_kind-flip x.kind x y)))

valid-Composes :
    (kinds : ℕ → OrderKind) (x y z : OrderKey)
    → IsOfType kinds x
    → IsOfType kinds y
    → IsOfType kinds z
    → Composes (compare_valid x y) (compare_valid y z) (compare_valid x z)
valid-Composes kinds x y z h k l =
    rw (valid-first_of x y, valid-first_of y z, valid-first_of x z)
      (first_of-Composes (order_of y.member x.member) (order_of z.member y.member)
        (order_of z.member x.member) _ _ _ (order_of-Composes_back x.member y.member z.member)
        (λ p q.
          let e : y.kind ≡ x.kind = k ∙ ap kinds (order_of-same y.member x.member p) ∙ sym h in
          subst
            (λ q.
              Composes (compare_by_kind x.kind x y) (compare_by_kind q y z)
                (compare_by_kind x.kind x z))
            (sym e) (by_kind-Composes x.kind x y z)))

module _ (kinds : ℕ → OrderKind) where
  validity-flip :
      (v w : Bool) (x y : OrderKey)
      → IsOfType kinds x
      → IsOfType kinds y
      → compare_validity w v y x ≡ flip (compare_validity v w x y)
  unfolding compare_validity
  validity-flip true true x y h k = valid-flip kinds x y h k
  validity-flip true false x y h k = refl
  validity-flip false true x y h k = refl
  validity-flip false false x y h k = compare_text-flip x.b y.b

  validity-Composes :
      (u v w : Bool) (x y z : OrderKey)
      → IsOfType kinds x
      → IsOfType kinds y
      → IsOfType kinds z
      → Composes (compare_validity u v x y) (compare_validity v w y z) (compare_validity u w x z)
  unfolding compare_validity
  validity-Composes true true true x y z h k l = valid-Composes kinds x y z h k l
  validity-Composes true true false x y z h k l = below_right (compare_valid x y)
  validity-Composes true false true x y z h k l = tt
  validity-Composes true false false x y z h k l = below_left (compare_text y.b z.b)
  validity-Composes false true true x y z h k l = above_left (compare_valid y z)
  validity-Composes false true false x y z h k l = tt
  validity-Composes false false true x y z h k l = above_right (compare_text x.b y.b)
  validity-Composes false false false x y z h k l = compare_text-Composes x.b y.b z.b

  -- For two keys of one type, `compareOrderKeys` of the keys the other way round gives the opposite answer.
  pub compare_order_keys-flip :
      (x y : OrderKey)
      → IsOfType kinds x
      → IsOfType kinds y
      → compare_order_keys y x ≡ flip (compare_order_keys x y)
  unfolding compare_order_keys
  compare_order_keys-flip x y h k = validity-flip x.valid y.valid x y h k

  -- For three keys of one type, the answers of `compareOrderKeys` compose: the order is transitive, and a
  -- key that compares equal to another compares with a third as the other does.
  pub compare_order_keys-Composes :
      (x y z : OrderKey)
      → IsOfType kinds x
      → IsOfType kinds y
      → IsOfType kinds z
      → Composes (compare_order_keys x y) (compare_order_keys y z) (compare_order_keys x z)
  unfolding compare_order_keys
  compare_order_keys-Composes x y z h k l = validity-Composes x.valid y.valid z.valid x y z h k l
