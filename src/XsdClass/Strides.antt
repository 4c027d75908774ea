-- ===== src/XsdClass/Strides.antt =====
-- go/internal/xsdregex/pattern.go: the ranges of a Unicode table, against the reading that Go's unicode
-- package documents: every stride-th code point from lo to hi.
use cambium.XsdRanges.Normal.{holds-normalize_ranges}
use cambium.XsdRanges.Meaning.{holds-append, holds}
use cambium.XsdRanges.{RuneRange, max_rune}
use cambium.XsdClass.{
  RangeTable, unicode_range_table_ranges, append_r32, append_r16, append_strided_range,
  strided_from, Strided,
}
use cambium.Prelude.{
  not_leb→lt, ℕ, zero, suc, ◌+◌, ◌-◌, ◌%◌, ◌≤◌, ◌<◌, ◌≡◌, sym, ap, ◌∙◌, inl, inr, Bool, false, ◌&&◌,
  ◌||◌, List, [], ◌∷◌, arith, ltb, leb, ◌==◌, Bool-cases, All, leb→le,
}
use native.Mathlib.Nat.{mod-eq_of_lt, mod-eq-sub-mod}

-- Whether an entry has the code point.
unfoldable pub in_strided : ℕ → Strided → Bool
in_strided x e = leb e.lo x && (leb x e.hi && (leb e.stride 1 || ((x - e.lo) % e.stride == 0)))

unfoldable pub in_entries : ℕ → List Strided → Bool
unfolding in_strided
in_entries x [] = false
in_entries x (e ∷ es) = in_strided x e || in_entries x es

-- The entry is about Unicode code points.
abbrev pub IsUnicode : Strided → Type 0
IsUnicode e = (e.lo ≤ max_rune) × (e.hi ≤ max_rune) × (e.stride ≤ max_rune)

step_mod :
    (x r stride : ℕ) → 2 ≤ stride → r + stride ≤ x → (x - r) % stride ≡ (x - (r + stride)) % stride
step_mod x r stride h le = grind (arith, mod-eq-sub-mod)

short_mod : (x r stride : ℕ) → r < x → x < r + stride → (((x - r) % stride) == 0) ≡ false
short_mod x r stride h lt = grind (arith, mod-eq_of_lt)

-- The loop's answer from `r` on.
hits : ℕ → ℕ → ℕ → ℕ → Bool
hits x r hi stride = leb r x && (leb x hi && ((x - r) % stride == 0))

hits-end : (x r hi stride : ℕ) → hi < r → hits x r hi stride ≡ false
unfolding hits
hits-end x r hi stride h = ground arith

hits_self : (r stride : ℕ) → 2 ≤ stride → ((r - r) % stride) ≡ 0
hits_self r stride two = grind (arith, mod-eq_of_lt)

hits-step :
    (x r hi stride : ℕ)
    → 2 ≤ stride
    → r ≤ hi
    → hits x r hi stride ≡ (leb r x && leb x r || hits x (r + stride) hi stride)
unfolding hits
hits-step x r hi stride two le = elim (Bool-cases (ltb r x)) [
  | inl above ↦ elim (Bool-cases (ltb x (r + stride))) [
    | inl inside ↦ ground (arith, above, inside, short_mod x r stride)
    | inr beyond ↦ ground (arith, above, beyond, step_mod x r stride two)
  ]
  | inr here ↦ elim (Bool-cases (x == r)) [
    | inl same ↦
        let e : x ≡ r = ground (arith, same) in rw e (ground (arith, hits_self r stride two))
    | inr below ↦ ground (arith, here, below)
  ]
]

holds-strided_from :
    (x fuel r hi stride : ℕ)
    → 2 ≤ stride
    → hi < r + fuel
    → holds x (strided_from fuel r hi stride) ≡ hits x r hi stride
unfolding strided_from
holds-strided_from x zero r hi stride two enough = sym (hits-end x r hi stride (omega arith))
holds-strided_from x (suc fuel) r hi stride two enough = elim (Bool-cases (leb r hi)) [
  | inl le ↦
      let rest = holds-strided_from x fuel (r + stride) hi stride two (omega arith) in
      rw (le, rest) (sym (hits-step x r hi stride two (leb→le r hi le)))
  | inr gt ↦ rw gt (sym (hits-end x r hi stride (not_leb→lt r hi gt)))
]

-- What one entry adds.
holds-append_strided_range :
    (x : ℕ) (rs : List RuneRange) (e : Strided)
    → holds x (append_strided_range rs e) ≡ (holds x rs || in_strided x e)
unfolding append_strided_range in_strided hits
holds-append_strided_range x rs e = elim (Bool-cases (leb e.stride 1)) [
  | inl h ↦ rw h (holds-append x rs (record { lo = e.lo; hi = e.hi } ∷ []) ∙ ground arith)
  | inr h ↦ rw h (
      holds-append x rs (strided_from (suc e.hi - e.lo) e.lo e.hi e.stride)
      ∙ ap (λ b. holds x rs || b)
          (holds-strided_from x (suc e.hi - e.lo) e.lo e.hi e.stride (ground (arith, h))
            (omega arith)))
]

holds-append_r16 :
    (x : ℕ) (rs : List RuneRange) (es : List Strided)
    → holds x (append_r16 rs es) ≡ (holds x rs || in_entries x es)
unfolding append_r16 in_entries
holds-append_r16 x rs [] = ground arith
holds-append_r16 x rs (e ∷ es) =
    holds-append_r16 x (append_strided_range rs e) es
    ∙ rw (holds-append_strided_range x rs e) (ground arith)

holds-append_r32 :
    (x : ℕ) (rs : List RuneRange) (es : List Strided)
    → All IsUnicode es
    → holds x (append_r32 rs es) ≡ (holds x rs || in_entries x es)
unfolding append_r32 in_entries
holds-append_r32 x rs [] h = ground arith
holds-append_r32 x rs (e ∷ es) h =
    let fits : (ltb max_rune e.lo || (ltb max_rune e.hi || ltb max_rune e.stride)) ≡ false =
      ground (arith, h.0) in
    rw fits (
      holds-append_r32 x (append_strided_range rs e) es h.1
      ∙ rw (holds-append_strided_range x rs e) (ground arith))

-- The ranges of a Unicode table, whose wide entries are about Unicode code points, hold a code point
-- exactly when an entry has it: it is one of every stride-th code point from lo to hi, or between lo
-- and hi where the stride is at most 1.
pub holds-unicode_range_table_ranges :
    (x : ℕ) (t : RangeTable)
    → All IsUnicode t.r32
    → holds x (unicode_range_table_ranges t) ≡ (in_entries x t.r16 || in_entries x t.r32)
unfolding unicode_range_table_ranges
holds-unicode_range_table_ranges x t h =
    holds-normalize_ranges x (append_r32 (append_r16 [] t.r16) t.r32)
    ∙ holds-append_r32 x (append_r16 [] t.r16) t.r32 h
    ∙ ap (λ b. b || in_entries x t.r32) (holds-append_r16 x [] t.r16)
