-- ===== src/YangRange/Meaning.antt =====
-- What a range and a sequence of ranges permit, with no algorithm in it.
use cambium.Prelude.{[], ◌∷◌, All, Any}
use cambium.Prelude.Int.{◌≤ℤ◌, ◌<ℤ◌}
use cambium.Number.{Number, scaled_big_int}
use cambium.YangRange.{YRange, YangRange}

abbrev pub Le : Number → Number → Type 0
Le n m = scaled_big_int n ≤ℤ scaled_big_int m

abbrev pub Lt : Number → Number → Type 0
Lt n m = scaled_big_int n <ℤ scaled_big_int m

-- The number lies in the range.
abbrev pub Within : Number → YRange → Type 0
Within x r = Le r.min x × Le x r.max

-- Some range of the sequence permits the number.
abbrev pub Permits : YangRange → Number → Type 0
Permits r x = Any (Within x) r

-- Every range runs upwards and lies wholly below all later ones.
abbrev pub IsValid : YangRange → Type 0
IsValid [] = Unit
IsValid (r ∷ rest) = Le r.min r.max × All (λ s. Lt r.max s.min) rest × IsValid rest
