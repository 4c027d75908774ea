-- ===== src/Number/Order.antt =====
-- go/cambium/number.go: the order of numbers, `FromInt` and `Int`, and `Trunc`.
use native.Mathlib.Nat.{pow-suc, lt_of_mul-lt-mul_right, mul-lt-mul_of_pos_right}
use cambium.Prelude.{
  ℕ, zero, suc, ◌+◌, ◌-◌, ◌*◌, ◌/◌, ◌%◌, ◌^◌, ◌≤◌, ◌<◌, ◌≡◌, ◌↔◌, ◌⊎◌, inl, inr, refl, sym, ◌∙◌,
  Bool, true, false, Option, none, some, ltb, leb, ◌==◌, if◌then◌else◌, arith, Bool-cases,
}
use cambium.Prelude.Result.{ok}
use cambium.Prelude.Int.{ℤ, pos, negsuc, pos_part, neg_part, neg, ◌≤ℤ◌, ◌<ℤ◌}
use cambium.Number.{
  Number, less, equal, scaled_big_int, signed, scale, int, from_int, two64, add_quantum,
}

pub less_iff : (n m : Number) → (less n m ≡ true) ↔ (scaled_big_int n <ℤ scaled_big_int m)
unfolding less
less_iff n m = ground arith

pub less→lt : (n m : Number) → less n m ≡ true → scaled_big_int n <ℤ scaled_big_int m
less→lt n m = (less_iff n m).0

pub not_less→le : (n m : Number) → less n m ≡ false → scaled_big_int m ≤ℤ scaled_big_int n
unfolding less
not_less→le n m h = ground arith

pub lt→less : (n m : Number) → scaled_big_int n <ℤ scaled_big_int m → less n m ≡ true
lt→less n m = (less_iff n m).1

pub le→not_less : (n m : Number) → scaled_big_int m ≤ℤ scaled_big_int n → less n m ≡ false
unfolding less
le→not_less n m h = ground arith

pub ruleset order = (arith, less→lt, not_less→le, lt→less, le→not_less)

pow_pos : (k : ℕ) → 0 < 10 ^ k
pow_pos zero = omega arith
pow_pos (suc k) = rw (pow-suc 10 k) (omega (arith, pow_pos k))

scale_pos : (fd : ℕ) → 0 < scale fd
unfolding scale
scale_pos fd = ground (arith, pow_pos (18 - fd))

neg_parts : (a : ℕ) → (pos_part (neg a) ≡ 0) × (neg_part (neg a) ≡ a)
neg_parts zero = (refl, refl)
neg_parts (suc a) = (refl, refl)

scaled_pos :
    (n : Number) → pos_part (scaled_big_int n) ≡ pos_part (signed n) * scale n.fraction_digits
unfolding scaled_big_int signed
scaled_pos n = ground (arith, neg_parts n.value, neg_parts (n.value * scale n.fraction_digits))

scaled_neg :
    (n : Number) → neg_part (scaled_big_int n) ≡ neg_part (signed n) * scale n.fraction_digits
unfolding scaled_big_int signed
scaled_neg n = ground (arith, neg_parts n.value, neg_parts (n.value * scale n.fraction_digits))

mul_lt_iff : (a b c d s : ℕ) → 0 < s → (a * s + b * s < c * s + d * s) ↔ (a + b < c + d)
mul_lt_iff a b c d s h = (
  λ k. lt_of_mul-lt-mul_right s {m = a + b} {n = c + d} (omega arith),
  λ k. omega (arith, mul-lt-mul_of_pos_right {m = a + b} {n = c + d} {k = s} k h),
)

-- For two numbers of one count of fraction digits the order is that of their quanta.
pub signed-order :
    (n m : Number)
    → n.fraction_digits ≡ m.fraction_digits
    → (scaled_big_int n <ℤ scaled_big_int m) ↔ (signed n <ℤ signed m)
signed-order n m h =
    rw (scaled_pos n, scaled_neg n, scaled_pos m, scaled_neg m, h)
      (mul_lt_iff _ _ _ _ (scale m.fraction_digits) (scale_pos m.fraction_digits))

-- Exactly one of less, equal and greater holds.
pub less_trichotomy :
    (n m : Number)
    → ((less n m ≡ true) × (equal n m ≡ false) × (less m n ≡ false))
      ⊎ ((less n m ≡ false) × (equal n m ≡ true) × (less m n ≡ false))
      ⊎ ((less n m ≡ false) × (equal n m ≡ false) × (less m n ≡ true))
unfolding less equal
less_trichotomy n m = ground arith

-- `Int` of `FromInt` gives back every int64.
pub int-from_int : (i : ℤ) → neg_part i ≤ 2 ^ 63 → pos_part i < 2 ^ 63 → int (from_int i) ≡ ok i
unfolding int from_int
int-from_int (pos i) h k = ground arith
int-from_int (negsuc i) h k = ground arith

-- One quantum more, as long as the magnitude does not pass the largest uint64.
pub signed-add_quantum :
    (n : Number) (i : ℕ)
    → n.value + i < two64
    → pos_part (signed (add_quantum n i)) + neg_part (signed n)
      ≡ neg_part (signed (add_quantum n i)) + pos_part (signed n) + i
unfolding signed add_quantum
signed-add_quantum n i h = ground (arith, neg_parts n.value, neg_parts (n.value - i))

signed-order_le :
    (n m : Number)
    → n.fraction_digits ≡ m.fraction_digits
    → signed n ≤ℤ signed m
    → scaled_big_int n ≤ℤ scaled_big_int m
signed-order_le n m e h = elim (total (scaled_big_int n) (scaled_big_int m)) [
  | inl le ↦ le
  | inr gt ↦ absurd (omega (arith, (signed-order m n (sym e)).0 gt))
]
  where
    total : (a b : ℤ) → (a ≤ℤ b) ⊎ (b <ℤ a)
    total a b = omega arith

fraction_digits-add_quantum :
    (n : Number) (i : ℕ) → (add_quantum n i).fraction_digits ≡ n.fraction_digits
unfolding add_quantum
fraction_digits-add_quantum n i = ground arith

-- The next number is larger, where the magnitude plus one is a uint64.
pub add_quantum-gt :
    (n : Number) → n.value + 1 < two64 → scaled_big_int n <ℤ scaled_big_int (add_quantum n 1)
add_quantum-gt n h =
    (signed-order n (add_quantum n 1) (sym (fraction_digits-add_quantum n 1))).1
      (omega (arith, signed-add_quantum n 1 h))

-- No number with as many fraction digits lies between a number and the next, where the magnitude
-- plus one is a uint64.
pub add_quantum-le :
    (n x : Number)
    → n.value + 1 < two64
    → n.fraction_digits ≡ x.fraction_digits
    → scaled_big_int n <ℤ scaled_big_int x
    → scaled_big_int (add_quantum n 1) ≤ℤ scaled_big_int x
add_quantum-le n x h e l =
    signed-order_le (add_quantum n 1) x (fraction_digits-add_quantum n 1 ∙ e)
      (omega (arith, signed-add_quantum n 1 h, (signed-order n x e).0 l))
