-- ===== src/Pattern/Decimal/Laws.antt =====
-- go/yangpattern/runtime_program.go: the numbers that decimal strings denote, and `decimalCompare` and
-- `decimalUint` on them.
use cambium.Prelude.Comparison.{compare_text, order_of}
use cambium.Pattern.{mul_sat, add_sat}
use cambium.Prelude.{
  lt→ltb, false, not_ltb→le, ◌/◌, ◌%◌, ◌==◌, ℕ, zero, suc, ◌+◌, ◌-◌, ◌*◌, ◌^◌, ◌≤◌, ◌<◌, ◌≡◌, refl,
  sym, ap, inl, inr, true, [], ◌∷◌, arith, ltb, if◌then◌else◌, Bool-cases, length, All, ltb→lt,
}
use native.Mathlib.Nat.{mod-lt, div-add-mod, mul-le-mul_left, pow-suc, mul-le-mul_right, mul-le-mul}
use cambium.Strconv.{max_uint64, Text}
use cambium.Pattern.Decimal.{
  decimal_uint, uint_from, decimal_compare, canonical_decimal, all_digits,
}

abbrev pub IsDigit : ℕ → Type 0
IsDigit c = (b'0' ≤ c) × (c ≤ b'9')

-- The number that a text of digits denotes.
abbrev pub value : Text → ℕ
value [] = 0
value (c ∷ s) = (c - b'0') * 10 ^ length s + value s

pub all_digits-IsDigit : (s : Text) → all_digits s ≡ true → All IsDigit s
unfolding all_digits
all_digits-IsDigit [] h = tt
all_digits-IsDigit (c ∷ s) h = ground (arith, all_digits-IsDigit s)

pub pow_pos : (k : ℕ) → 0 < 10 ^ k
pow_pos zero = omega arith
pow_pos (suc k) = rw (pow-suc 10 k) (omega (arith, pow_pos k))

value_lt : (s : Text) → All IsDigit s → value s < 10 ^ length s
value_lt [] h = omega arith
value_lt (c ∷ s) h =
    let r = value_lt s h.1 in
    let m = mul-le-mul_right {m = c - b'0'} {n = 9} (10 ^ length s) (omega (arith, h.0)) in
    rw (pow-suc 10 (length s)) (omega (arith, r, m))

lead_lt : (c d p v w : ℕ) → c < d → v < p → c * p + v < d * p + w
lead_lt c d p v w h k = omega (arith, mul-le-mul_right {m = c + 1} {n = d} p (omega (arith, h)), k)

compare_text_digits :
    (s t : Text)
    → All IsDigit s
    → All IsDigit t
    → length s ≡ length t
    → compare_text s t ≡ order_of (value s) (value t)
unfolding compare_text
compare_text_digits [] [] hs ht e = refl
compare_text_digits [] (d ∷ t) hs ht e = absurd (omega (arith, e))
compare_text_digits (c ∷ s) [] hs ht e = absurd (omega (arith, e))
compare_text_digits (c ∷ s) (d ∷ t) hs ht e =
    let e' : length s ≡ length t = omega (arith, e) in
    let r = compare_text_digits s t hs.1 ht.1 e' in
    let p : 10 ^ length t ≡ 10 ^ length s = ap (λ k. 10 ^ k) (sym e') in
    let l = value_lt s hs.1 in
    let m = value_lt t ht.1 in
    elim (Bool-cases (ltb c d)) [
      | inl b ↦
          let k =
            lead_lt (c - b'0') (d - b'0') (10 ^ length s) (value s) (value t)
              (omega (arith, ltb→lt c d b, hs.0, ht.0)) l in
          ground (arith, k, b, p)
      | inr b ↦ elim (Bool-cases (ltb d c)) [
        | inl b' ↦
            let k =
              lead_lt (d - b'0') (c - b'0') (10 ^ length s) (value t) (value s)
                (omega (arith, ltb→lt d c b', hs.0, ht.0)) (rw⁻¹ p m) in
            ground (arith, k, b, b', p)
        | inr b' ↦ let c_d : c ≡ d = ground (arith, b, b') in ground (arith, r, b, b', p, c_d)
      ]
    ]

pub canonical-IsDigit : (s : Text) → canonical_decimal s ≡ true → All IsDigit s
unfolding canonical_decimal
canonical-IsDigit [] h = absurd (cc)
canonical-IsDigit (c ∷ s) h = all_digits-IsDigit (c ∷ s) (ground (arith, h))

pub canonical_lead : (c : ℕ) (s : Text) → canonical_decimal (c ∷ s) ≡ true → 0 < length s → b'1' ≤ c
unfolding canonical_decimal all_digits
canonical_lead c s h l = ground arith

pow_le : (m k : ℕ) → m ≤ k → 10 ^ m ≤ 10 ^ k
pow_le m zero h = let z : m ≡ 0 = omega (arith, h) in rw z (omega arith)
pow_le m (suc k) h = elim (Bool-cases (m == suc k)) [
  | inl b ↦ let z : m ≡ suc k = ground arith in rw z (omega arith)
  | inr b ↦ rw (pow-suc 10 k) (omega (arith, pow_le m k (ground arith)))
]

-- A longer canonical text denotes a larger number.
longer_lt :
    (s t : Text)
    → canonical_decimal s ≡ true
    → canonical_decimal t ≡ true
    → length s < length t
    → value s < value t
longer_lt [] t hs ht l = absurd (unfold canonical_decimal in cc)
longer_lt (c ∷ s) [] hs ht l = absurd (omega (arith, l))
longer_lt (c ∷ s) (d ∷ t) hs ht l =
    let v = value_lt (c ∷ s) (canonical-IsDigit (c ∷ s) hs) in
    let p = pow_le (suc (length s)) (length t) (omega (arith, l)) in
    let lead = canonical_lead d t ht (omega (arith, l)) in
    let m = mul-le-mul_right {m = 1} {n = d - b'0'} (10 ^ length t) (omega (arith, lead)) in
    omega (arith, v, p, m)

-- On canonical decimal texts `decimalCompare` compares the numbers that they denote.
pub decimal_compare_lem :
    (s t : Text)
    → canonical_decimal s ≡ true
    → canonical_decimal t ≡ true
    → decimal_compare s t ≡ order_of (value s) (value t)
unfolding decimal_compare
decimal_compare_lem s t hs ht = elim (Bool-cases (ltb (length s) (length t))) [
  | inl b ↦ let l = longer_lt s t hs ht (ltb→lt (length s) (length t) b) in ground (arith, l, b)
  | inr b ↦ elim (Bool-cases (ltb (length t) (length s))) [
    | inl b' ↦
        let l = longer_lt t s ht hs (ltb→lt (length t) (length s) b') in ground (arith, l, b, b')
    | inr b' ↦
        rw (b, b')
          (compare_text_digits s t (canonical-IsDigit s hs) (canonical-IsDigit t ht)
            (ground (arith, b, b')))
  ]
]

-- A number, or the largest uint64 where it is larger.
abbrev pub clip : ℕ → ℕ
clip n = if ltb max_uint64 n then max_uint64 else n

nonzero : (a : ℕ) → (suc a == 0) ≡ false
nonzero a = ground arith

-- `mulSat` is the product, or the largest uint64 where the product is larger.
pub mul_sat_lem : (a b : ℕ) → mul_sat a b ≡ clip (a * b)
unfolding mul_sat
mul_sat_lem zero b = ground arith
mul_sat_lem (suc a) b = elim (Bool-cases (ltb (max_uint64 / suc a) b)) [
  | inl h ↦
      let m =
        mul-le-mul_left {m = suc (max_uint64 / suc a)} {n = b} (suc a)
          (omega (arith, ltb→lt (max_uint64 / suc a) b h)) in
      let d = div-add-mod max_uint64 (suc a) in
      let r = mod-lt max_uint64 {m = suc a} (omega arith) in
      let big : max_uint64 < suc a * b = omega (arith, m, d, r) in
      rw (nonzero a, h, lt→ltb max_uint64 (suc a * b) big) refl
  | inr h ↦
      let m =
        mul-le-mul_left {m = b} {n = max_uint64 / suc a} (suc a)
          (not_ltb→le (max_uint64 / suc a) b h) in
      let d = div-add-mod max_uint64 (suc a) in
      let small : ltb max_uint64 (suc a * b) ≡ false = ground (arith, m, d) in
      rw (nonzero a, h, small) refl
]

step_clip : (n d : ℕ) → add_sat (clip n) d ≡ clip (n + d)
unfolding add_sat
step_clip n d = ground arith

pub regroup : (n d p v : ℕ) → n * (p * 10) + (d * p + v) ≡ (n * 10 + d) * p + v
regroup n d p v = omega arith

clip_above : (n p v : ℕ) → max_uint64 ≤ n → 0 < p → clip (n * p + v) ≡ max_uint64
clip_above n p v h k =
    let m = mul-le-mul {n₁ = max_uint64} {m₁ = 1} {n₂ = n} {m₂ = p} h (omega (arith, k)) in
    ground (arith, m)

digit_wraps : (c : ℕ) → IsDigit c → (c + (256 - b'0')) % 256 ≡ c - b'0'
digit_wraps c h = omega (arith, h)

uint_from_lem :
    (n : ℕ) (s : Text)
    → n ≤ max_uint64
    → All IsDigit s
    → uint_from n s ≡ clip (n * 10 ^ length s + value s)
unfolding uint_from
uint_from_lem n [] h ds = ground arith
uint_from_lem n (c ∷ s) h ds =
    let next = n * 10 + (c - b'0') in
    let p = pow_pos (length s) in
    rw
      (
        digit_wraps c ds.0,
        mul_sat_lem n 10,
        step_clip (n * 10) (c - b'0'),
        pow-suc 10 (length s),
        regroup n (c - b'0') (10 ^ length s) (value s),
      )
      (elim (Bool-cases (ltb max_uint64 next)) [
        | inl b ↦
            let big = ltb→lt max_uint64 next b in
            rw
              (
                b,
                clip_above next (10 ^ length s) (value s) (omega (arith, big)) p,
                uint_from_lem max_uint64 s (omega arith) ds.1,
              )
              (clip_above max_uint64 (10 ^ length s) (value s) (omega arith) p)
        | inr b ↦ rw b (uint_from_lem next s (not_ltb→le max_uint64 next b) ds.1)
      ])

-- `decimalUint` is the number that a text of digits denotes, or the largest uint64 where it is larger.
pub decimal_uint_lem : (s : Text) → All IsDigit s → decimal_uint s ≡ clip (value s)
unfolding decimal_uint
decimal_uint_lem s h = ground (arith, uint_from_lem 0 s (omega arith) h)
