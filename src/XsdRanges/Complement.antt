-- ===== src/XsdRanges/Complement.antt =====
-- go/internal/xsdregex/pattern.go: the set of `complementRanges`.
use cambium.XsdRanges.Normal.{holds-normalize_ranges, normalize_ranges-IsNormal}
use cambium.XsdRanges.Meaning.{not_holds-behind, holds, IsNormal}
use cambium.Prelude.{
  ℕ, ◌+◌, ◌-◌, ◌≤◌, ◌≡◌, refl, ap, ◌∙◌, inl, inr, not, ◌&&◌, ◌||◌, List, [], ◌∷◌, arith, ltb, leb,
  if◌then◌else◌, Bool-cases,
}
use native.Mathlib.Decide.{dec_le}
use cambium.XsdRanges.{normalize_ranges, complement_ranges, max_rune, complement_from, RuneRange}

-- What the loop goes on with behind the range `r`.
abbrev resume : ℕ → RuneRange → ℕ
resume next r = if ltb next (r.hi + 1) then r.hi + 1 else next

resume_bounds :
    (x next : ℕ) (r : RuneRange) → leb (resume next r) x ≡ (leb (r.hi + 1) x && leb next x)
resume_bounds x next r = elim (Bool-cases (ltb next (r.hi + 1))) [
  | inl b ↦ rw b (ground arith)
  | inr b ↦ rw b (ground arith)
]

abbrev behind : ℕ → RuneRange → List RuneRange → List RuneRange
behind next r rest = if leb max_rune r.hi then [] else complement_from (resume next r) rest

holds-gap :
    (x next : ℕ) (r : RuneRange) (tail : List RuneRange)
    → holds x (if ltb next r.lo then record { lo = next; hi = r.lo - 1 } ∷ tail else tail)
      ≡ ((leb next x && ltb x r.lo) || holds x tail)
holds-gap x next r tail = elim (Bool-cases (ltb next r.lo)) [
  | inl b ↦ rw b (ground arith)
  | inr b ↦ rw b (ground arith)
]

holds-behind :
    (x next : ℕ) (r : RuneRange) (rest : List RuneRange)
    → x ≤ max_rune
    → holds x (complement_from (resume next r) rest) ≡ (leb (resume next r) x && not (holds x rest))
    → holds x (behind next r rest) ≡ (leb (r.hi + 1) x && leb next x && not (holds x rest))
holds-behind x next r rest h ih = elim (Bool-cases (leb max_rune r.hi)) [
  | inl b ↦ rw b (ground arith)
  | inr b ↦ rw b (rw (ih, resume_bounds x next r) refl)
]

holds-complement_from :
    (x next : ℕ) (rs : List RuneRange)
    → x ≤ max_rune
    → IsNormal rs
    → holds x (complement_from next rs) ≡ (leb next x && not (holds x rs))
unfolding complement_from
holds-complement_from x next [] h n = elim (Bool-cases (leb next max_rune)) [
  | inl b ↦ rw b (ground arith)
  | inr b ↦ rw b (ground arith)
]
holds-complement_from x next (r ∷ rest) h n =
    holds-gap x next r (behind next r rest)
    ∙ ap (λ b. (leb next x && ltb x r.lo) || b)
        (holds-behind x next r rest h (holds-complement_from x (resume next r) rest h n.2))
    ∙ elim (dec_le x (r.hi + 1)) [
      | yes le ↦ rw (not_holds-behind x r.hi rest le n.1) (ground (arith, n.0))
      | no gt ↦ ground (arith, n.0)
    ]

-- A code point is in the complement exactly when it is not in the set.
pub holds-complement_ranges :
    (x : ℕ) (rs : List RuneRange) → x ≤ max_rune → holds x (complement_ranges rs) ≡ not (holds x rs)
unfolding complement_ranges
holds-complement_ranges x rs h =
    holds-complement_from x 0 (normalize_ranges rs) h (normalize_ranges-IsNormal rs)
    ∙ ap (λ b. leb 0 x && not b) (holds-normalize_ranges x rs)
    ∙ ground arith
