-- ===== src/Number/Text/Padding.antt =====
-- go/cambium/number.go: the digits that `String` pads with zeros, and what `ParseDecimal` makes of them.
use cambium.Prelude.Int.{negsuc, pos}
use cambium.Strconv.Format.{parse_digits-digits_onto}
use cambium.Number.Text.{cut, parse_decimal_trimmed, decimal_value_from_string, decimal_number}
use cambium.Strconv.{
  parse_int64, add_digit, digit_value, parse_uint_base10, parse_digits, format_uint, digits_onto,
  Text,
}
use mathlib.Core.List.{append-nil}
use cambium.Prelude.{
  replicate, All-replicate, length-replicate, length-append, ℕ, zero, suc, ◌+◌, ◌-◌, ◌/◌, ◌%◌, ◌^◌,
  ◌≤◌, ◌<◌, ◌≡◌, refl, ◌∙◌, ◌≢◌, inl, inr, false, some, [], ◌∷◌, ◌++◌, arith, ltb, leb,
  if◌then◌else◌, Bool-cases, length, All, All-append,
}
use cambium.Number.{ℤ, ok}

abbrev pub padded : ℕ → Text → Text
padded fd out = if leb (length out) fd then replicate (fd - length out + 1) b'0' ++ out else out

pub length-padded : (fd : ℕ) (out : Text) → fd < length (padded fd out)
length-padded fd out = ground (
  arith,
  length-append (replicate (fd - length out + 1) b'0') out,
  length-replicate {A = ℕ} (fd - length out + 1) b'0',
)

-- A digit.
abbrev pub Digit : ℕ → Type 0
Digit c = (b'0' ≤ c) × (c ≤ b'9')

pub Digit-digits_onto : (f n : ℕ) (acc : Text) → All Digit acc → All Digit (digits_onto f n acc)
unfolding digits_onto
Digit-digits_onto zero n acc h = h
Digit-digits_onto (suc f) n acc h = elim (Bool-cases (ltb n 10)) [
  | inl small ↦ rw small (ground arith, h)
  | inr large ↦ rw large (Digit-digits_onto f (n / 10) ((b'0' + n % 10) ∷ acc) (omega arith, h))
]

pub All-padded : (fd : ℕ) (v : ℕ) → All Digit (padded fd (format_uint v))
unfolding format_uint
All-padded fd v = elim (Bool-cases (leb (length (format_uint v)) fd)) [
  | inl b ↦ rw b (
      All-append Digit (replicate (fd - length (format_uint v) + 1) b'0') (format_uint v)
        (All-replicate Digit (fd - length (format_uint v) + 1) b'0' (omega arith))
        (Digit-digits_onto (suc v) v [] tt))
  | inr b ↦ rw b (Digit-digits_onto (suc v) v [] tt)
]

pub cut-append : (a b : Text) → All (λ c. c ≢ b'.') a → cut b'.' (a ++ (b'.' ∷ b)) ≡ some (a, b)
unfolding cut
cut-append [] b h = refl
cut-append (c ∷ a) b h = ground (arith, cut-append a b h.1, h.0)

pub parse_digits-zeros :
    (k : ℕ) (s : Text)
    → parse_digits false 10 0 false (replicate k b'0' ++ s) ≡ parse_digits false 10 0 false s
unfolding parse_digits digit_value add_digit
parse_digits-zeros zero s = refl
parse_digits-zeros (suc k) s = parse_digits-zeros k s

pub parse_digits-padded :
    (fd v : ℕ)
    → v < 2 ^ 64
    → parse_digits false 10 0 false (padded fd (format_uint v)) ≡ ok (v, false)
unfolding format_uint
parse_digits-padded fd v h = elim (Bool-cases (leb (length (format_uint v)) fd)) [
  | inl b ↦ rw b (parse_digits-zeros (fd - length (format_uint v) + 1) (format_uint v) ∙ plain)
  | inr b ↦ rw b plain
]
  where
    plain : parse_digits false 10 0 false (digits_onto (suc v) v []) ≡ ok (v, false)
    plain =
        parse_digits-digits_onto false false (suc v) v [] (omega arith) h
        ∙ (unfold parse_digits in refl)

pub parse_uint_base10-digits :
    (s : Text) (v : ℕ)
    → 0 < length s
    → parse_digits false 10 0 false s ≡ ok (v, false)
    → parse_uint_base10 s ≡ ok v
parse_uint_base10-digits [] v l h = absurd (omega arith)
parse_uint_base10-digits (c ∷ s) v l h = unfold parse_uint_base10 in rw h

pub parse_int64-digits :
    (s : Text) (v : ℕ)
    → 0 < length s
    → All Digit s
    → v < 2 ^ 63
    → parse_uint_base10 s ≡ ok v
    → parse_int64 s ≡ ok (pos v)
unfolding parse_int64
parse_int64-digits [] v l d b h = absurd (omega arith)
parse_int64-digits (c ∷ s) v l d b h = ground arith

pub parse_int64-minus :
    (s : Text) (v : ℕ)
    → v < 2 ^ 63
    → parse_uint_base10 s ≡ ok (suc v)
    → parse_int64 (b'-' ∷ s) ≡ ok (negsuc v)
unfolding parse_int64
parse_int64-minus s v b h = ground arith

-- The text of a decimal value is long enough not to be a lone sign.
pub parse_decimal_trimmed-long :
    (t : Text) (fd : ℕ) → 1 < length t → parse_decimal_trimmed t fd ≡ decimal_value_from_string t fd
parse_decimal_trimmed-long [] fd l = absurd (omega arith)
parse_decimal_trimmed-long (c ∷ []) fd l = absurd (omega arith)
parse_decimal_trimmed-long (c ∷ d ∷ t) fd l = unfold parse_decimal_trimmed in refl

pub decimal_value-point :
    (a b : Text) (v : ℤ)
    → All (λ c. c ≢ b'.') a
    → 1 ≤ length b
    → length b ≤ 18
    → parse_int64 (a ++ b) ≡ ok v
    → decimal_value_from_string (a ++ (b'.' ∷ b)) (length b) ≡ ok (decimal_number (length b) v)
unfolding decimal_value_from_string
decimal_value-point a b v n lo hi h =
    let fits : ltb 18 (length b) ≡ false = ground arith in
    let some_digits : ltb (length b) 1 ≡ false = ground arith in
    let exact : ltb (length b) (length b) ≡ false = ground arith in
    let none_missing : length b - length b ≡ 0 = omega arith in
    rw (cut-append a b n) (rw (fits, some_digits) (rw (exact, none_missing) (rw append-nil (rw h))))

-- The digits of a decimal value, cut in front of the last `fd` of them.
