-- ===== src/YangRange/Sorting.antt =====
-- go/cambium/number.go: `Sort` and the order of `Less`.
use cambium.YangRange.Coalesce.{IsAscending}
use cambium.Number.Order.{not_less→le, less→lt}
use mathlib.Core.List.{Perm}
use mathlib.Core.List.Perm
use cambium.Prelude.{◌↔◌, All-map, All, true, ◌≡◌, ◌⊎◌, false, [], ◌∷◌, arith, Bool-cases, inl, inr}
use cambium.Number.{Number, less}
use cambium.YangRange.{YRange, YangRange, range_less, insert_range, sort}
use cambium.YangRange.Meaning.{Within, Permits, Le, Lt}

insert_range-perm : (x : YRange) (r : YangRange) → Perm (insert_range x r) (x ∷ r)
unfolding insert_range
insert_range-perm x [] = Perm.refl (x ∷ [])
insert_range-perm x (y ∷ r) = elim (Bool-cases (range_less y x)) [
  | inl b ↦ rw b (Perm.trans (Perm.cons y (insert_range-perm x r)) (Perm.swap x y r))
  | inr b ↦ rw b (Perm.refl (x ∷ y ∷ r))
]

-- `Sort` gives the same ranges in some order.
pub sort-perm : (r : YangRange) → Perm (sort r) r
unfolding sort
sort-perm [] = Perm.refl []
sort-perm (x ∷ r) = Perm.trans (insert_range-perm x (sort r)) (Perm.cons x (sort-perm r))

-- `a` stands before `b`, by the lower end and then by the upper one.
abbrev pub Before : YRange → YRange → Type 0
Before a b = Lt a.min b.min ⊎ (Le a.min b.min × Le b.min a.min × Le a.max b.max)

not_range_less→Before : (a b : YRange) → range_less b a ≡ false → Before a b
unfolding range_less
not_range_less→Before a b h = elim (Bool-cases (less b.min a.min)) [
  | inl up ↦ absurd (cc)
  | inr down ↦ elim (Bool-cases (less a.min b.min)) [
    | inl up ↦ inl (less→lt a.min b.min up)
    | inr same ↦ inr (
      not_less→le b.min a.min down,
      not_less→le a.min b.min same,
      ground (arith, not_less→le b.max a.max),
    )
  ]
]

range_less→Before : (a b : YRange) → range_less a b ≡ true → Before a b
unfolding range_less
range_less→Before a b h = elim (Bool-cases (less a.min b.min)) [
  | inl up ↦ inl (less→lt a.min b.min up)
  | inr down ↦ elim (Bool-cases (less b.min a.min)) [
    | inl above ↦ absurd (cc)
    | inr same ↦ inr (
      not_less→le b.min a.min same,
      not_less→le a.min b.min down,
      ground (arith, less→lt a.max b.max),
    )
  ]
]

Before-trans : (a b c : YRange) → Before a b → Before b c → Before a c
Before-trans a b c (inl p) (inl q) = inl (omega arith)
Before-trans a b c (inl p) (inr q) = inl (omega arith)
Before-trans a b c (inr p) (inl q) = inl (omega arith)
Before-trans a b c (inr p) (inr q) = inr (omega arith, omega arith, omega arith)

-- Every range stands before all later ones.
abbrev pub IsSorted : YangRange → Type 0
IsSorted [] = Unit
IsSorted (r ∷ rest) = All (Before r) rest × IsSorted rest

All-insert_range :
    (P : YRange → Type 0) (x : YRange) (r : YangRange) → P x → All P r → All P (insert_range x r)
unfolding insert_range
All-insert_range P x [] p h = (p, tt)
All-insert_range P x (y ∷ r) p h = elim (Bool-cases (range_less y x)) [
  | inl b ↦ rw b (h.0, All-insert_range P x r p h.1)
  | inr b ↦ rw b (p, h)
]

insert_range-IsSorted : (x : YRange) (r : YangRange) → IsSorted r → IsSorted (insert_range x r)
unfolding insert_range
insert_range-IsSorted x [] h = (tt, tt)
insert_range-IsSorted x (y ∷ r) h = elim (Bool-cases (range_less y x)) [
  | inl b ↦
      rw b (
        All-insert_range (Before y) x r (range_less→Before y x b) h.0,
        insert_range-IsSorted x r h.1,
      )
  | inr b ↦
      let first = not_range_less→Before x y b in
      rw b ((first, All-map (Before y) (Before x) (λ z q. Before-trans x y z first q) r h.0), h)
]

-- `Sort` puts every range before all later ones.
pub sort-IsSorted : (r : YangRange) → IsSorted (sort r)
unfolding sort
sort-IsSorted [] = tt
sort-IsSorted (x ∷ r) = insert_range-IsSorted x (sort r) (sort-IsSorted r)

pub All-sort : (P : YRange → Type 0) (r : YangRange) → All P r → All P (sort r)
unfolding sort
All-sort P [] h = tt
All-sort P (x ∷ r) h = All-insert_range P x (sort r) h.0 (All-sort P r h.1)

Before→Le : (a b : YRange) → Before a b → Le a.min b.min
Before→Le a b (inl h) = omega arith
Before→Le a b (inr h) = h.0

IsSorted→IsAscending : (r : YangRange) → All (λ s. Le s.min s.max) r → IsSorted r → IsAscending r
IsSorted→IsAscending [] v h = tt
IsSorted→IsAscending (x ∷ r) v h = (
  v.0,
  All-map (Before x) (λ s. Le x.min s.min) (Before→Le x) r h.0,
  IsSorted→IsAscending r v.1 h.1,
)

pub sort-IsAscending : (r : YangRange) → All (λ s. Le s.min s.max) r → IsAscending (sort r)
sort-IsAscending r v =
    IsSorted→IsAscending (sort r) (All-sort (λ s. Le s.min s.max) r v) (sort-IsSorted r)

rotate : {A B C D : Type 0} → (C → A ⊎ D) → B ⊎ C → A ⊎ (B ⊎ D)
rotate f (inl b) = inr (inl b)
rotate f (inr c) = elim (f c) [ inl a ↦ inl a | inr d ↦ inr (inr d) ]

rotate_back : {A B C D : Type 0} → (A ⊎ D → C) → A ⊎ (B ⊎ D) → B ⊎ C
rotate_back f (inl a) = inr (f (inl a))
rotate_back f (inr (inl b)) = inl b
rotate_back f (inr (inr d)) = inr (f (inr d))

onto : {A B C : Type 0} → (B → C) → A ⊎ B → A ⊎ C
onto f (inl a) = inl a
onto f (inr b) = inr (f b)

insert_range-Permits :
    (x : Number) (y : YRange) (r : YangRange)
    → Permits (insert_range y r) x ↔ (Within x y ⊎ Permits r x)
unfolding insert_range
insert_range-Permits x y [] = (λ p. p, λ p. p)
insert_range-Permits x y (z ∷ r) = elim (Bool-cases (range_less z y)) [
  | inl b ↦ let step = insert_range-Permits x y r in rw b (rotate step.0, rotate_back step.1)
  | inr b ↦ rw b (λ p. p, λ p. p)
]

pub sort-Permits : (x : Number) (r : YangRange) → Permits (sort r) x ↔ Permits r x
unfolding sort
sort-Permits x [] = (λ p. p, λ p. p)
sort-Permits x (y ∷ r) =
    let head = insert_range-Permits x y (sort r) in
    let tail = sort-Permits x r in (λ p. onto tail.0 (head.0 p), λ p. head.1 (onto tail.1 p))
