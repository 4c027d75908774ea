-- ===== src/Pattern/Restore/Estimates.antt =====
-- go/yangpattern/runtime_program.go: estimates of saturating sums and products, and of repetition bounds.
use cambium.Pattern.Decimal.Laws.{
  value, pow_pos, canonical_lead, decimal_uint_lem, canonical-IsDigit, IsDigit, mul_sat_lem,
}
use cambium.Pattern.Decimal.{decimal_uint, canonical_decimal}
use cambium.Pattern.{mul_sat, add_sat}
use native.Mathlib.Nat.{mul-le-mul_right}
use cambium.Prelude.{
  ◌^◌, ◌-◌, ◌+◌, ◌*◌, All, ℕ, ◌≤◌, ◌≡◌, refl, sym, true, [], ◌∷◌, ◌++◌, arith, length,
}
use cambium.Strconv.{Text}
use cambium.Pattern.Restore.{is_zero_text}

pub append_nil_parts : (u v : Text) → [] ≡ u ++ v → (u ≡ []) × (v ≡ [])
append_nil_parts [] v h = (refl, sym h)
append_nil_parts (c ∷ u) v h = absurd (cc)

pub add_sat_le : (a b : ℕ) → add_sat a b ≤ a + b
unfolding add_sat
add_sat_le a b = ground arith

pub mul_sat_le : (a b : ℕ) → mul_sat a b ≤ a * b
mul_sat_le a b = rw (mul_sat_lem a b) (ground arith)

pub decimal_uint_le : (s : Text) → All IsDigit s → decimal_uint s ≤ value s
decimal_uint_le s h = rw (decimal_uint_lem s h) (ground arith)

pub zero_text-value : (s : Text) → is_zero_text s ≡ true → value s ≡ 0
unfolding is_zero_text
zero_text-value [] h = absurd (cc)
zero_text-value (c ∷ []) h = ground arith
zero_text-value (c ∷ d ∷ s) h = absurd (cc)

pub value-zero_text : (s : Text) → canonical_decimal s ≡ true → value s ≡ 0 → is_zero_text s ≡ true
unfolding is_zero_text
value-zero_text [] h v = absurd (unfold canonical_decimal in cc)
value-zero_text (c ∷ []) h v = let d = canonical-IsDigit (c ∷ []) h in ground (arith, d.0, v)
value-zero_text (c ∷ d ∷ s) h v =
    let lead = canonical_lead c (d ∷ s) h (omega arith) in
    let m = mul-le-mul_right {m = 1} {n = c - b'0'} (10 ^ length (d ∷ s)) (omega (arith, lead)) in
    absurd (omega (arith, m, v, pow_pos (length (d ∷ s))))
