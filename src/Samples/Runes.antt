-- ===== src/Samples/Runes.antt =====
-- The theorems about sets of code points at concrete inputs.
use cambium.XsdRanges.Subtract.{holds-subtract_ranges}
use cambium.XsdRanges.Complement.{holds-complement_ranges}
use cambium.XsdRanges.Normal.{normalize_ranges-IsNormal}
use cambium.XsdRanges.{subtract_ranges, complement_ranges, normalize_ranges, RuneRange}
use cambium.XsdRanges.Meaning.{holds, IsNormal}
use cambium.Prelude.{◌≡◌, not, ◌&&◌, List, [], ◌∷◌, arith}

normalize_ranges-IsNormal_example :
    IsNormal (normalize_ranges (record { lo = 50; hi = 60 } ∷ record { lo = 10; hi = 51 } ∷ []))
normalize_ranges-IsNormal_example =
    normalize_ranges-IsNormal (record { lo = 50; hi = 60 } ∷ record { lo = 10; hi = 51 } ∷ [])

abbrev letters : List RuneRange
letters = record { lo = b'a'; hi = b'z' } ∷ record { lo = b'A'; hi = b'Z' } ∷ []

abbrev vowels : List RuneRange
vowels = record { lo = b'e'; hi = b'e' } ∷ record { lo = b'a'; hi = b'a' } ∷ []

holds-complement_ranges_example : holds b'q' (complement_ranges letters) ≡ not (holds b'q' letters)
holds-complement_ranges_example = holds-complement_ranges b'q' letters (omega arith)

holds-subtract_ranges_example :
    holds b'e' (subtract_ranges letters vowels) ≡ (holds b'e' letters && not (holds b'e' vowels))
holds-subtract_ranges_example = holds-subtract_ranges b'e' letters vowels
