-- ===== src/Number/Text/Decimal.antt =====
-- go/cambium/number.go: `ParseDecimal` on what `String` prints of a decimal64 value.
use cambium.Number.Text.Padding.{
  padded, length-padded, Digit, All-padded, parse_digits-padded, parse_uint_base10-digits,
  parse_int64-digits, parse_int64-minus, parse_decimal_trimmed-long, decimal_value-point,
}
use cambium.Number.Text.RoundTrip.{rebuilt, trim_space-Plain, Plain}
use cambium.Prelude.Int.{negsuc, pos}
use cambium.Number.Text.{
  point_digits, string, parse_decimal, decimal_value_from_string, decimal_number,
}
use cambium.Strconv.{parse_int64, parse_uint_base10, format_uint, Text}
use cambium.Prelude.{
  take-append-drop, subst, ap, ◌==◌, Bool, All-drop, true, All-take, All-map, length-drop, drop,
  take, length-append, ℕ, ◌-◌, ◌^◌, ◌≤◌, ◌<◌, ◌≡◌, refl, ◌∙◌, ◌≢◌, inl, inr, false, ◌∷◌, ◌++◌,
  arith, if◌then◌else◌, Bool-cases, length, All, All-append,
}
use cambium.Number.{is_decimal, Number, ℤ, ok}

-- The digits of `String`, with the leading zeros that a decimal value gets.
module _ (fd : ℕ) (p : Text) (long : fd < length p) (digits : All Digit p) where
  abbrev whole : Text
  whole = take (length p - fd) p

  abbrev fraction : Text
  fraction = drop (length p - fd) p

  length-fraction : length fraction ≡ fd
  length-fraction = omega (arith, length-drop (length p - fd) p)

  whole-no_point : All (λ c. c ≢ b'.') whole
  whole-no_point =
      All-map Digit (λ c. c ≢ b'.') (λ c h e. omega arith) whole
        (All-take Digit (length p - fd) p digits)

  pointed-Plain : All Plain (whole ++ (b'.' ∷ fraction))
  pointed-Plain =
      All-append Plain whole (b'.' ∷ fraction)
        (All-map Digit Plain (λ c h. omega arith) whole (All-take Digit (length p - fd) p digits))
        (
          omega arith,
          All-map Digit Plain (λ c h. omega arith) fraction
              (All-drop Digit (length p - fd) p digits),
        )

  length-pointed : 1 ≤ fd → 1 < length (whole ++ (b'.' ∷ fraction))
  length-pointed lo = omega (arith, length-append {0} whole (b'.' ∷ fraction), length-fraction)

  parse_decimal-positive :
      (v : ℤ)
      → 1 ≤ fd
      → fd ≤ 18
      → parse_int64 p ≡ ok v
      → parse_decimal (whole ++ (b'.' ∷ fraction)) fd ≡ ok (decimal_number fd v)
  unfolding parse_decimal
  parse_decimal-positive v lo hi h = rw (trim_space-Plain _ pointed-Plain) (
      parse_decimal_trimmed-long _ fd (length-pointed lo)
      ∙ subst
          (λ k. decimal_value_from_string (whole ++ (b'.' ∷ fraction)) k ≡ ok (decimal_number k v))
          length-fraction
          (decimal_value-point whole fraction v whole-no_point (omega (arith, length-fraction))
            (omega (arith, length-fraction)) (rw (take-append-drop (length p - fd) p) h)))

  parse_decimal-negative :
      (v : ℤ)
      → 1 ≤ fd
      → fd ≤ 18
      → parse_int64 (b'-' ∷ p) ≡ ok v
      → parse_decimal (b'-' ∷ (whole ++ (b'.' ∷ fraction))) fd ≡ ok (decimal_number fd v)
  unfolding parse_decimal
  parse_decimal-negative v lo hi h =
      rw (trim_space-Plain (b'-' ∷ (whole ++ (b'.' ∷ fraction))) (omega arith, pointed-Plain)) (
        parse_decimal_trimmed-long (b'-' ∷ (whole ++ (b'.' ∷ fraction))) fd
          (omega (arith, length-pointed lo))
        ∙ subst
            (λ k.
              decimal_value_from_string (b'-' ∷ (whole ++ (b'.' ∷ fraction))) k
              ≡ ok (decimal_number k v))
            length-fraction
            (decimal_value-point (b'-' ∷ whole) fraction v (λ e. omega arith, whole-no_point)
              (omega (arith, length-fraction)) (omega (arith, length-fraction))
              (rw (take-append-drop (length p - fd) p) h)))

-- The values of a decimal64: an int64 of quanta, with its sign given only to a value that is not zero.
pub record IsDecimal64 (n : Number) : Type 0 where
  pub some_digits : 1 ≤ n.fraction_digits
  pub few_digits : n.fraction_digits ≤ 18
  pub positive : n.negative ≡ false → n.value < 2 ^ 63
  pub below_zero : n.negative ≡ true → (0 < n.value) × (n.value ≤ 2 ^ 63)

string-decimal :
    (n : Number) (b : Bool)
    → 1 ≤ n.fraction_digits
    → n.negative ≡ b
    → string n
      ≡ (let t = point_digits n.fraction_digits (format_uint n.value) in if b then b'-' ∷ t else t)
unfolding string is_decimal
string-decimal n b h e = let nz : (n.fraction_digits == 0) ≡ false = ground arith in rw (nz, e)

module _ (n : Number) (h : IsDecimal64 n) where
  abbrev text : Text
  text = padded n.fraction_digits (format_uint n.value)

  long : n.fraction_digits < length text
  long = length-padded n.fraction_digits (format_uint n.value)

  parse_uint-text : n.value < 2 ^ 64 → parse_uint_base10 text ≡ ok n.value
  parse_uint-text b =
      parse_uint_base10-digits text n.value (omega (arith, long))
        (parse_digits-padded n.fraction_digits n.value b)

  parse_decimal-string_positive :
      n.negative ≡ false → parse_decimal (string n) n.fraction_digits ≡ ok n
  unfolding point_digits decimal_number
  parse_decimal-string_positive b = rw (string-decimal n false h.some_digits b) (
      parse_decimal-positive n.fraction_digits text long (All-padded n.fraction_digits n.value)
        (pos n.value) h.some_digits h.few_digits
        (parse_int64-digits text n.value (omega (arith, long))
          (All-padded n.fraction_digits n.value) (h.positive b)
          (parse_uint-text (omega (arith, h.positive b))))
      ∙ ap ok (rebuilt n n.fraction_digits false refl b))

  parse_decimal-string_negative :
      n.negative ≡ true → parse_decimal (string n) n.fraction_digits ≡ ok n
  unfolding point_digits decimal_number
  parse_decimal-string_negative b =
      let bounds = h.below_zero b in
      rw (string-decimal n true h.some_digits b) (
        parse_decimal-negative n.fraction_digits text long (All-padded n.fraction_digits n.value)
          (negsuc (n.value - 1)) h.some_digits h.few_digits
          (parse_int64-minus text (n.value - 1) (omega arith)
            (parse_uint-text (omega arith) ∙ ap ok (omega arith)))
        ∙ ap ok (ground (arith, rebuilt n n.fraction_digits true refl b)))

-- `ParseDecimal` reads back what `String` prints of a decimal64 value.
pub parse_decimal-string :
    (n : Number) → IsDecimal64 n → parse_decimal (string n) n.fraction_digits ≡ ok n
parse_decimal-string n h = elim (Bool-cases n.negative) [
  | inl b ↦ parse_decimal-string_negative n h b
  | inr b ↦ parse_decimal-string_positive n h b
]
