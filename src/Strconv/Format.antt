-- ===== src/Strconv/Format.antt =====
-- Parsing what `FormatUint` prints.
use cambium.Strconv.{
  checked, ◌>>=◌, parse_uint, base_of, format_uint, ok, Text, digits_onto, parse_digits, add_digit,
  digit_value,
}
use cambium.Prelude.{
  refl, false, true, [], ◌∙◌, ◌%◌, inr, inl, ltb, ◌∷◌, Bool-cases, ◌^◌, ◌*◌, ◌≡◌, ◌<◌, Bool, ◌≤◌, ℕ,
  arith, zero, suc, ◌+◌, ◌/◌,
}

abbrev IsDigit : ℕ → Type 0
IsDigit c = (b'0' ≤ c) × (c ≤ b'9')

digit_value-digit : (d : ℕ) → d < 10 → digit_value (b'0' + d) ≡ ok d
unfolding digit_value
digit_value-digit d h = ground arith

add_digit-decimal : (n d : ℕ) → d < 10 → n * 10 + d < 2 ^ 64 → add_digit 10 n d ≡ ok (n * 10 + d)
unfolding add_digit
add_digit-decimal n d h b = ground arith

-- A digit read on its own.
parse_digits-digit :
    (base0 : Bool) (n d m : ℕ) (u : Bool) (s : Text)
    → d < 10
    → n * 10 + d ≡ m
    → m < 2 ^ 64
    → parse_digits base0 10 n u ((b'0' + d) ∷ s) ≡ parse_digits base0 10 m u s
unfolding parse_digits
parse_digits-digit base0 n d m u s h e b =
    ground (arith, digit_value-digit d h, add_digit-decimal n d h (omega arith))

pub parse_digits-digits_onto :
    (base0 : Bool) (u : Bool) (f n : ℕ) (acc : Text)
    → n < f
    → n < 2 ^ 64
    → parse_digits base0 10 0 u (digits_onto f n acc) ≡ parse_digits base0 10 n u acc
unfolding digits_onto
parse_digits-digits_onto base0 u zero n acc h b = absurd (omega arith)
parse_digits-digits_onto base0 u (suc f) n acc h b = elim (Bool-cases (ltb n 10)) [
  | inl small ↦ rw small (parse_digits-digit base0 0 n n u acc (ground arith) (omega arith) b)
  | inr large ↦ rw large (
      parse_digits-digits_onto base0 u f (n / 10) ((b'0' + n % 10) ∷ acc) (ground arith)
        (omega arith)
      ∙ parse_digits-digit base0 (n / 10) (n % 10) n u acc (omega arith) (omega arith) b)
]

-- A text that begins with a digit other than 0.
pub record Leads (s : Text) : Type 0 where
  pub first : ℕ
  pub rest : Text
  pub splits : s ≡ first ∷ rest
  pub low : b'1' ≤ first
  pub high : first ≤ b'9'

pub digits_onto-Leads : (f n : ℕ) (acc : Text) → 0 < n → n < f → Leads (digits_onto f n acc)
unfolding digits_onto
digits_onto-Leads zero n acc p h = absurd (omega arith)
digits_onto-Leads (suc f) n acc p h = elim (Bool-cases (ltb n 10)) [
  | inl small ↦ record {
    first = b'0' + n;
    rest = acc;
    splits = rw small;
    low = omega arith;
    high = ground arith;
  }
  | inr large ↦
      rw large (digits_onto-Leads f (n / 10) ((b'0' + n % 10) ∷ acc) (ground arith) (ground arith))
]

pub format_uint-Leads : (n : ℕ) → 0 < n → Leads (format_uint n)
unfolding format_uint
format_uint-Leads n p = digits_onto-Leads (suc n) n [] p (omega arith)

base_of-Leads : (c : ℕ) (s : Text) → b'1' ≤ c → base_of (c ∷ s) ≡ (10, c ∷ s)
unfolding base_of
base_of-Leads c [] h = ground arith
base_of-Leads c (d ∷ []) h = ground arith
base_of-Leads c (d ∷ e ∷ s) h = ground arith

parse_uint_lem :
    (c : ℕ) (s : Text)
    → parse_uint (c ∷ s)
      ≡ (parse_digits true (base_of (c ∷ s)).0 0 false (base_of (c ∷ s)).1 >>= checked (c ∷ s))
unfolding parse_uint
parse_uint_lem c s = refl

parse_uint-Leads :
    (s : Text) (n : ℕ)
    → Leads s
    → parse_digits true 10 0 false s ≡ ok (n, false)
    → parse_uint s ≡ ok n
unfolding checked
parse_uint-Leads s n l h =
    let h' = rw l.splits at h in
    rw l.splits (rw (parse_uint_lem, base_of-Leads l.first l.rest l.low) (rw h'))

-- Base-0 parsing reads back what `FormatUint` prints.
pub parse_uint-format_uint : (n : ℕ) → n < 2 ^ 64 → parse_uint (format_uint n) ≡ ok n
parse_uint-format_uint zero h = unfold parse_uint format_uint in refl
parse_uint-format_uint (suc k) h =
    parse_uint-Leads (format_uint (suc k)) (suc k) (format_uint-Leads (suc k) (omega arith)) (
      unfold format_uint parse_digits in
      parse_digits-digits_onto true false (suc (suc k)) (suc k) [] (omega arith) h)
