-- ===== src/XsdRanges/Meaning.antt =====
-- The set of code points that a sequence of ranges holds, and what it is to be normal.
use cambium.Prelude.{
  ℕ, ◌+◌, ◌≤◌, ◌<◌, ◌≡◌, refl, Bool, false, ◌&&◌, ◌||◌, List, [], ◌∷◌, ◌++◌, arith, leb, All,
}
use cambium.XsdRanges.{RuneRange}

abbrev pub in_range : ℕ → RuneRange → Bool
in_range x r = leb r.lo x && leb x r.hi

abbrev pub holds : ℕ → List RuneRange → Bool
holds x [] = false
holds x (r ∷ rs) = in_range x r || holds x rs

-- Ranges that run upwards, each beginning at least two behind the end of each earlier one.
abbrev pub IsNormal : List RuneRange → Type 0
IsNormal [] = Unit
IsNormal (r ∷ rest) = (r.lo ≤ r.hi) × All (λ s. r.hi + 1 < s.lo) rest × IsNormal rest

-- The ranges begin in ascending order.
abbrev pub IsAscending : List RuneRange → Type 0
IsAscending [] = Unit
IsAscending (r ∷ rest) = All (λ s. r.lo ≤ s.lo) rest × IsAscending rest

-- Ranges that all begin above a code point do not hold it.
pub not_holds-below :
    (x n : ℕ) (rs : List RuneRange) → x < n → All (λ s. n ≤ s.lo) rs → holds x rs ≡ false
not_holds-below x n [] h a = refl
not_holds-below x n (r ∷ rs) h a = ground (arith, not_holds-below x n rs h a.1, a.0)

pub not_holds-behind :
    (x n : ℕ) (rs : List RuneRange) → x ≤ n + 1 → All (λ s. n + 1 < s.lo) rs → holds x rs ≡ false
not_holds-behind x n [] h a = refl
not_holds-behind x n (r ∷ rs) h a = ground (arith, not_holds-behind x n rs h a.1, a.0)

pub holds-append :
    (x : ℕ) (rs ss : List RuneRange) → holds x (rs ++ ss) ≡ (holds x rs || holds x ss)
holds-append x [] ss = refl
holds-append x (r ∷ rs) ss = ground (arith, holds-append x rs ss)
