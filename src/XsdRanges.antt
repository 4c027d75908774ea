-- ===== src/XsdRanges.antt =====
-- go/internal/xsdregex/pattern.go: sets of code points as sequences of ranges. A rune is a natural
-- number: the code points that these functions meet are not negative.
pub mod Meaning
pub mod Normal
pub mod Complement
pub mod Subtract
use cambium.Prelude.{
  ℕ, zero, suc, ◌+◌, ◌-◌, ◌*◌, ◌/◌, ◌%◌, ◌^◌, ◌≤◌, ◌<◌, ◌≡◌, refl, sym, ap, ◌∙◌, ◌≢◌, ◌↔◌, ◌⊎◌, inl,
  inr, Bool, true, false, not, ◌&&◌, ◌||◌, Option, none, some, List, [], ◌∷◌, ◌++◌, map, arith, ltb,
  leb, ◌==◌, if◌then◌else◌, Bool-cases, Option-cases, length, All, Any, All-map, All-append, ltb→lt,
  leb→le,
}

pub record RuneRange : Type 0 where
  pub lo : ℕ
  pub hi : ℕ

-- `utf8.MaxRune`.
abbrev pub max_rune : ℕ
max_rune = 0x10FFFF

-- The order of `sort.Slice` in `normalizeRanges`.
unfoldable pub rune_less : RuneRange → RuneRange → Bool
rune_less a b = if a.lo == b.lo then ltb a.hi b.hi else ltb a.lo b.lo

unfoldable pub insert_sorted : RuneRange → List RuneRange → List RuneRange
insert_sorted x [] = x ∷ []
insert_sorted x (y ∷ ys) =
    let later = insert_sorted x ys in if rune_less y x then y ∷ later else x ∷ y ∷ ys

unfoldable pub sort_ranges : List RuneRange → List RuneRange
unfolding insert_sorted rune_less
sort_ranges [] = []
sort_ranges (x ∷ xs) = insert_sorted x (sort_ranges xs)

-- The loop of `normalizeRanges` behind the first kept range; `last` is merged[len(merged)-1].
unfoldable pub merge_from : RuneRange → List RuneRange → List RuneRange
merge_from last [] = last ∷ []
merge_from last (r ∷ rest) =
    let skip = merge_from last rest in
    let apart = merge_from r rest in
    let widened = merge_from (record last { hi = r.hi }) rest in
    if ltb r.hi r.lo
    then skip
    else if ltb (last.hi + 1) r.lo
    then last ∷ apart
    else if ltb last.hi r.hi
    then widened
    else skip

-- The loop while `merged` is empty.
unfoldable pub merge_ranges : List RuneRange → List RuneRange
unfolding merge_from
merge_ranges [] = []
merge_ranges (r ∷ rest) =
    let skip = merge_ranges rest in if ltb r.hi r.lo then skip else merge_from r rest

unfoldable pub normalize_ranges : List RuneRange → List RuneRange
unfolding sort_ranges merge_ranges
normalize_ranges ranges = merge_ranges (sort_ranges ranges)

-- The loop of `complementRanges` on normalized ranges, with the gap in front of the first of them.
unfoldable pub complement_from : ℕ → List RuneRange → List RuneRange
complement_from next [] = if leb next max_rune then record { lo = next; hi = max_rune } ∷ [] else []
complement_from next (r ∷ rest) =
    let onward = complement_from (if ltb next (r.hi + 1) then r.hi + 1 else next) rest in
    let tail = (if leb max_rune r.hi then [] else onward) in
    if ltb next r.lo then record { lo = next; hi = r.lo - 1 } ∷ tail else tail

unfoldable pub complement_ranges : List RuneRange → List RuneRange
unfolding normalize_ranges complement_from
complement_ranges ranges = complement_from 0 (normalize_ranges ranges)

-- `for subIndex < len(sub) && sub[subIndex].hi < cur { subIndex++ }`.
unfoldable pub drop_below : ℕ → List RuneRange → List RuneRange
drop_below cur [] = []
drop_below cur (s ∷ sub) = let rest = drop_below cur sub in if ltb s.hi cur then rest else s ∷ sub

-- What is left of `b` from `cur` on, behind the loop.
remainder : ℕ → ℕ → List RuneRange
remainder cur hi = if leb cur hi then record { lo = cur; hi = hi } ∷ [] else []

-- The inner loop over sub[i], from sub[subIndex] on.
unfoldable pub subtract_one : ℕ → ℕ → List RuneRange → List RuneRange
unfolding remainder
subtract_one cur hi [] = remainder cur hi
subtract_one cur hi (s ∷ sub) =
    let onward = subtract_one (s.hi + 1) hi sub in
    let rest = (if leb hi s.hi then remainder (hi + 1) hi else onward) in
    if leb s.lo hi
    then (if ltb cur s.lo then record { lo = cur; hi = s.lo - 1 } ∷ rest else rest)
    else remainder cur hi

-- The outer loop; the second sequence is `sub` from `subIndex` on.
unfoldable pub subtract_from : List RuneRange → List RuneRange → List RuneRange
unfolding subtract_one drop_below
subtract_from [] sub = []
subtract_from (b ∷ base) sub =
    let sub' = drop_below b.lo sub in subtract_one b.lo b.hi sub' ++ subtract_from base sub'

unfoldable pub subtract_ranges : List RuneRange → List RuneRange → List RuneRange
unfolding normalize_ranges subtract_from
subtract_ranges base sub = elim (normalize_ranges sub) [
  | [] ↦ normalize_ranges base
  | s ∷ rest ↦ subtract_from (normalize_ranges base) (s ∷ rest)
]
