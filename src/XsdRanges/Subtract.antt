-- ===== src/XsdRanges/Subtract.antt =====
-- go/internal/xsdregex/pattern.go: the set of `subtractRanges`.
use cambium.XsdRanges.Normal.{normalize_ranges-IsNormal, holds-normalize_ranges}
use cambium.XsdRanges.Meaning.{holds-append, not_holds-behind, IsNormal, holds}
use cambium.Prelude.{
  not_ltb→le, not_leb→lt, ℕ, ◌+◌, ◌-◌, ◌≤◌, ◌<◌, ◌≡◌, refl, ap, ◌∙◌, inl, inr, not, ◌&&◌, ◌||◌,
  List, [], ◌∷◌, arith, ltb, leb, if◌then◌else◌, Bool-cases, All, All-map,
}
use native.Mathlib.Decide.{dec_le}
use mathlib.Core.Path.{ap₂}
use cambium.XsdRanges.{
  normalize_ranges, subtract_ranges, subtract_from, drop_below, subtract_one, remainder, RuneRange,
}

holds-remainder : (x cur hi : ℕ) → holds x (remainder cur hi) ≡ (leb cur x && leb x hi)
unfolding remainder
holds-remainder x cur hi = elim (Bool-cases (leb cur hi)) [
  | inl b ↦ rw b (ground arith)
  | inr b ↦ rw b (ground arith)
]

-- The loop goes on behind `s`, unless `s` reaches the end.
abbrev behind : ℕ → RuneRange → List RuneRange → List RuneRange
behind hi s sub = if leb hi s.hi then remainder (hi + 1) hi else subtract_one (s.hi + 1) hi sub

holds-behind :
    (x hi : ℕ) (s : RuneRange) (sub : List RuneRange)
    → (s.hi < hi
        → holds x (subtract_one (s.hi + 1) hi sub)
          ≡ (leb (s.hi + 1) x && leb x hi && not (holds x sub)))
    → holds x (behind hi s sub) ≡ (leb (s.hi + 1) x && leb x hi && not (holds x sub))
holds-behind x hi s sub ih = elim (Bool-cases (leb hi s.hi)) [
  | inl b ↦ rw b (rw (holds-remainder x (hi + 1) hi) (ground arith))
  | inr b ↦ rw b (ih (not_leb→lt hi s.hi b))
]

holds-gap :
    (x cur : ℕ) (s : RuneRange) (tail : List RuneRange)
    → holds x (if ltb cur s.lo then record { lo = cur; hi = s.lo - 1 } ∷ tail else tail)
      ≡ ((leb cur x && ltb x s.lo) || holds x tail)
holds-gap x cur s tail = elim (Bool-cases (ltb cur s.lo)) [
  | inl b ↦ rw b (ground arith)
  | inr b ↦ rw b (ground arith)
]

-- Ranges behind `n` end behind it too.
IsNormal-high :
    (n : ℕ) (rs : List RuneRange)
    → IsNormal rs
    → All (λ s. n + 1 < s.lo) rs
    → All (λ s. n + 1 ≤ s.hi) rs
IsNormal-high n [] h a = tt
IsNormal-high n (r ∷ rs) h a = (omega arith, IsNormal-high n rs h.2 a.1)

holds-subtract_one :
    (x cur hi : ℕ) (sub : List RuneRange)
    → cur ≤ hi + 1
    → IsNormal sub
    → All (λ s. cur ≤ s.hi) sub
    → holds x (subtract_one cur hi sub) ≡ (leb cur x && leb x hi && not (holds x sub))
unfolding subtract_one
holds-subtract_one x cur hi [] c n a = holds-remainder x cur hi ∙ ground arith
holds-subtract_one x cur hi (s ∷ sub) c n a = elim (Bool-cases (leb s.lo hi)) [
  | inl b ↦ rw b (
      holds-gap x cur s (behind hi s sub)
      ∙ ap (λ t. (leb cur x && ltb x s.lo) || t)
          (holds-behind x hi s sub (λ h.
            holds-subtract_one x (s.hi + 1) hi sub (omega arith) n.2
              (IsNormal-high s.hi sub n.2 n.1)))
      ∙ elim (dec_le x (s.hi + 1)) [
        | yes le ↦ rw (not_holds-behind x s.hi sub le n.1) (ground (arith, n.0, a.0))
        | no gt ↦ ground (arith, n.0, a.0)
      ])
  | inr b ↦ rw b (
      holds-remainder x cur hi ∙ elim (dec_le x (s.hi + 1)) [
        | yes le ↦ rw (not_holds-behind x s.hi sub le n.1) (ground (arith, n.0))
        | no gt ↦ ground (arith, n.0)
      ])
]

drop_below-IsNormal :
    (cur : ℕ) (sub : List RuneRange) → IsNormal sub → IsNormal (drop_below cur sub)
unfolding drop_below
drop_below-IsNormal cur [] n = tt
drop_below-IsNormal cur (s ∷ sub) n = elim (Bool-cases (ltb s.hi cur)) [
  | inl b ↦ rw b (drop_below-IsNormal cur sub n.2)
  | inr b ↦ rw b n
]

-- What is left reaches `cur`.
drop_below-high :
    (cur : ℕ) (sub : List RuneRange) → IsNormal sub → All (λ s. cur ≤ s.hi) (drop_below cur sub)
unfolding drop_below
drop_below-high cur [] n = tt
drop_below-high cur (s ∷ sub) n = elim (Bool-cases (ltb s.hi cur)) [
  | inl b ↦ rw b (drop_below-high cur sub n.2)
  | inr b ↦
      let le = not_ltb→le s.hi cur b in
      rw b (
        le,
        All-map (λ t. s.hi + 1 ≤ t.hi) (λ t. cur ≤ t.hi) (λ t h. omega arith) sub
            (IsNormal-high s.hi sub n.2 n.1),
      )
]

holds-drop_below :
    (x cur : ℕ) (sub : List RuneRange) → cur ≤ x → holds x (drop_below cur sub) ≡ holds x sub
unfolding drop_below
holds-drop_below x cur [] h = refl
holds-drop_below x cur (s ∷ sub) h = elim (Bool-cases (ltb s.hi cur)) [
  | inl b ↦ rw b (ground (arith, holds-drop_below x cur sub h))
  | inr b ↦ rw b refl
]

holds-subtract_from :
    (x : ℕ) (base sub : List RuneRange)
    → IsNormal base
    → IsNormal sub
    → holds x (subtract_from base sub) ≡ (holds x base && not (holds x sub))
unfolding subtract_from
holds-subtract_from x [] sub n m = refl
holds-subtract_from x (b ∷ base) sub n m =
    let sub' = drop_below b.lo sub in
    let m' = drop_below-IsNormal b.lo sub m in
    holds-append x (subtract_one b.lo b.hi sub') (subtract_from base sub')
    ∙ ap₂ ◌||◌ (holds-subtract_one x b.lo b.hi sub' (omega arith) m' (drop_below-high b.lo sub m))
        (holds-subtract_from x base sub' n.2 m')
    ∙ elim (dec_le b.lo x) [
      | yes le ↦ rw (holds-drop_below x b.lo sub le) (ground arith)
      | no gt ↦ rw (not_holds-behind x b.hi base (omega arith) n.1) (ground arith)
    ]

-- A code point is in the difference exactly when it is in the first set and not in the second.
pub holds-subtract_ranges :
    (x : ℕ) (base sub : List RuneRange)
    → holds x (subtract_ranges base sub) ≡ (holds x base && not (holds x sub))
unfolding subtract_ranges
holds-subtract_ranges x base sub =
    go (normalize_ranges sub) (normalize_ranges-IsNormal sub) (holds-normalize_ranges x sub)
  where
    whole : List RuneRange
    whole = normalize_ranges base

    go :
        (ss : List RuneRange)
        → IsNormal ss
        → holds x ss ≡ holds x sub
        → holds x (elim ss [ [] ↦ whole | s ∷ rest ↦ subtract_from whole (s ∷ rest) ])
          ≡ (holds x base && not (holds x sub))
    go [] n h = holds-normalize_ranges x base ∙ ground arith
    go (s ∷ rest) n h =
        holds-subtract_from x whole (s ∷ rest) (normalize_ranges-IsNormal base) n
        ∙ ap₂ (λ p q. p && not q) (holds-normalize_ranges x base) h
