-- ===== src/YangRange.antt =====
-- go/cambium/number.go: `YRange` and `YangRange`, sequences of inclusive ranges of numbers.
pub mod Meaning
pub mod Validation
pub mod Containment
pub mod Coalesce
pub mod Sorting
pub mod Parse
use cambium.Prelude.{
  ℕ, zero, suc, Bool, true, false, not, ◌&&◌, ◌||◌, List, [], ◌∷◌, ◌++◌, if◌then◌else◌, length,
  ◌==◌,
}
use cambium.Number.{Number, less, equal, add_quantum}

pub record YRange : Type 0 where
  pub min : Number
  pub max : Number

abbrev pub YangRange : Type 0
YangRange = List YRange

unfoldable pub valid : YRange → Bool
valid r = not (less r.max r.min)

-- `YRange.Equal`.
unfoldable pub same_bounds : YRange → YRange → Bool
same_bounds r s = equal r.min s.min && equal r.max s.max

-- `Less(i, j)` of the elements at i and j.
unfoldable pub range_less : YRange → YRange → Bool
range_less a b =
    if less a.min b.min then true else if less b.min a.min then false else less a.max b.max

insert_range : YRange → YangRange → YangRange
insert_range x [] = x ∷ []
insert_range x (y ∷ ys) =
    let later = insert_range x ys in if range_less y x then y ∷ later else x ∷ y ∷ ys

-- `sort.Sort` by `Less`.
unfoldable pub sort : YangRange → YangRange
unfolding insert_range range_less
sort [] = []
sort (x ∷ xs) = insert_range x (sort xs)

-- `sort.IsSorted`: no element is less than the one before it.
unfoldable pub is_sorted : YangRange → Bool
is_sorted [] = true
is_sorted (x ∷ []) = true
is_sorted (x ∷ y ∷ ys) = not (range_less y x) && is_sorted (y ∷ ys)

pub data RangeError : Type 0 where
  not_sorted invalid_number overlapping : RangeError

pub data Verdict : Type 0 where
  fine : Verdict
  bad : RangeError → Verdict

-- The loop of `Validate` over the ranges behind `prev`.
validate_from : YRange → YangRange → Verdict
validate_from prev [] = fine
validate_from prev (next ∷ rest) =
    let onward = validate_from next rest in
    if not (valid next)
    then bad invalid_number
    else if not (less prev.max next.min)
    then bad overlapping
    else onward

validate_sorted : YangRange → Verdict
validate_sorted [] = fine
validate_sorted (prev ∷ rest) =
    if not (valid prev) then bad invalid_number else validate_from prev rest

unfoldable pub validate : YangRange → Verdict
unfolding validate_sorted validate_from is_sorted range_less valid
validate r = if not (is_sorted r) then bad not_sorted else validate_sorted r

-- `for r[ri].Max.Less(ss.Min) { ri++ }`: the ranges of `r` from the new `ri` on; none are left when
-- `ri` reaches the end.
unfoldable pub advance : YRange → YangRange → YangRange
advance ss [] = []
advance ss (rr ∷ r) = let onward = advance ss r in if less rr.max ss.min then onward else rr ∷ r

-- The test behind the inner loop; `next` is the rest of the outer loop.
unfoldable pub fits : YRange → YangRange → (YangRange → Bool) → Bool
fits ss [] next = false
fits ss (rr ∷ r) next = if less ss.min rr.min || less rr.max ss.max then false else next (rr ∷ r)

unfoldable pub contains_from : YangRange → YangRange → Bool
contains_from r [] = true
contains_from r (ss ∷ s) = fits ss (advance ss r) (λ r'. contains_from r' s)

unfoldable pub contains : YangRange → YangRange → Bool
unfolding contains_from fits advance
contains [] s = true
contains (rr ∷ r) [] = true
contains (rr ∷ r) (ss ∷ s) = contains_from (rr ∷ r) (ss ∷ s)

-- `YangRange.Equal`: as many ranges, with the same bounds at each index.
unfoldable pub same_ranges : YangRange → YangRange → Bool
unfolding same_bounds
same_ranges [] [] = true
same_ranges (a ∷ r) (b ∷ q) = same_bounds a b && same_ranges r q
same_ranges _ _ = false

-- The loop of `coalesceRanges`; `cur` is out[i].
unfoldable pub coalesce_from : YRange → YangRange → YangRange
coalesce_from cur [] = cur ∷ []
coalesce_from cur (next ∷ rest) =
    let apart = coalesce_from next rest in
    let widened = coalesce_from (record cur { max = next.max }) rest in
    let absorbed = coalesce_from cur rest in
    if less (add_quantum cur.max 1) next.min
    then cur ∷ apart
    else if less cur.max next.max
    then widened
    else absorbed

unfoldable pub coalesce_ranges : YangRange → YangRange
unfolding coalesce_from
coalesce_ranges [] = []
coalesce_ranges (r ∷ rest) = coalesce_from r rest
