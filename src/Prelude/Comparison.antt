-- ===== src/Prelude/Comparison.antt =====
-- The answers of Go's three-way comparisons: `cmp.Compare`, `strings.Compare` and `bytes.Compare`.
use Prim.Native.Nat.{ℕ}
use mathlib.Core.Path.{◌≡◌, refl, sym, subst}
use mathlib.Core.List.{List, [], ◌∷◌}
use native.Mathlib.Omega.{arith}
use cambium.Prelude.Tests.{ltb, if◌then◌else◌}

-- -1, 0 and 1.
pub data Comparison : Type 0 where
  below same above : Comparison

-- `cmp.Compare` of two numbers.
abbrev pub order_of : ℕ → ℕ → Comparison
order_of a b = if ltb a b then below else if ltb b a then above else same

-- The first answer, or the second where the first is 0.
abbrev pub first_of : Comparison → Comparison → Comparison
first_of below rest = below
first_of same rest = rest
first_of above rest = above

-- `strings.Compare` and `bytes.Compare`.
unfoldable pub compare_text : List ℕ → List ℕ → Comparison
compare_text [] [] = same
compare_text [] (d ∷ t) = below
compare_text (c ∷ s) [] = above
compare_text (c ∷ s) (d ∷ t) = let rest = compare_text s t in first_of (order_of c d) rest

abbrev pub flip : Comparison → Comparison
flip below = above
flip same = same
flip above = below

-- What the comparisons of a with b and of b with c say of the comparison of a with c.
abbrev pub Composes : Comparison → Comparison → Comparison → Type 0
Composes same s t = t ≡ s
Composes below same t = t ≡ below
Composes below below t = t ≡ below
Composes below above t = Unit
Composes above same t = t ≡ above
Composes above above t = t ≡ above
Composes above below t = Unit

pub order_of-flip : (a b : ℕ) → order_of b a ≡ flip (order_of a b)
order_of-flip a b = ground arith

pub order_of-Composes : (a b c : ℕ) → Composes (order_of a b) (order_of b c) (order_of a c)
order_of-Composes a b c = ground arith

pub first_of-flip : (r s : Comparison) → flip (first_of r s) ≡ first_of (flip r) (flip s)
first_of-flip below s = refl
first_of-flip same s = refl
first_of-flip above s = refl

pub below_left : (s : Comparison) → Composes below s below
below_left same = refl
below_left below = refl
below_left above = tt

pub below_right : (r : Comparison) → Composes r below below
below_right same = refl
below_right below = refl
below_right above = tt

pub above_left : (s : Comparison) → Composes above s above
above_left same = refl
above_left above = refl
above_left below = tt

pub above_right : (r : Comparison) → Composes r above above
above_right same = refl
above_right above = refl
above_right below = tt

pub first_of-Composes :
    (r s t r' s' t' : Comparison)
    → Composes r s t
    → (r ≡ same → s ≡ same → Composes r' s' t')
    → Composes (first_of r r') (first_of s s') (first_of t t')
first_of-Composes same same t r' s' t' h k =
    subst (λ x. Composes r' s' (first_of x t')) (sym h) (k refl refl)
first_of-Composes same below t r' s' t' h k = rw h (below_right r')
first_of-Composes same above t r' s' t' h k = rw h (above_right r')
first_of-Composes below same t r' s' t' h k = rw h (below_left s')
first_of-Composes below below t r' s' t' h k = rw h refl
first_of-Composes below above t r' s' t' h k = tt
first_of-Composes above same t r' s' t' h k = rw h (above_left s')
first_of-Composes above above t r' s' t' h k = rw h refl
first_of-Composes above below t r' s' t' h k = tt

pub compare_text-flip : (s t : List ℕ) → compare_text t s ≡ flip (compare_text s t)
unfolding compare_text
compare_text-flip [] [] = refl
compare_text-flip [] (d ∷ t) = refl
compare_text-flip (c ∷ s) [] = refl
compare_text-flip (c ∷ s) (d ∷ t) =
    rw (order_of-flip c d, compare_text-flip s t)
      (sym (first_of-flip (order_of c d) (compare_text s t)))

pub compare_text-Composes :
    (s t u : List ℕ) → Composes (compare_text s t) (compare_text t u) (compare_text s u)
unfolding compare_text
compare_text-Composes [] [] [] = refl
compare_text-Composes [] [] (e ∷ u) = refl
compare_text-Composes [] (d ∷ t) [] = tt
compare_text-Composes [] (d ∷ t) (e ∷ u) = below_left (first_of (order_of d e) (compare_text t u))
compare_text-Composes (c ∷ s) [] [] = refl
compare_text-Composes (c ∷ s) [] (e ∷ u) = tt
compare_text-Composes (c ∷ s) (d ∷ t) [] = above_right (first_of (order_of c d) (compare_text s t))
compare_text-Composes (c ∷ s) (d ∷ t) (e ∷ u) =
    first_of-Composes (order_of c d) (order_of d e) (order_of c e) (compare_text s t)
      (compare_text t u) (compare_text s u) (order_of-Composes c d e)
      (λ p q. compare_text-Composes s t u)
