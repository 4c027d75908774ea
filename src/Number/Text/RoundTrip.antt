-- ===== src/Number/Text/RoundTrip.antt =====
-- go/cambium/number.go: `ParseInt` on what `String` prints.
use cambium.Strconv.Format.{parse_uint-format_uint, format_uint-Leads}
use cambium.Number.Text.{parse_uint, parse_int, parse_int_trimmed, string}
use cambium.Strconv.{Text, format_uint, trim_space, trim_left, digits_onto}
use mathlib.Core.List.{reverse, reverse-reverse}
use cambium.Prelude.{
  All-reverse, ℕ, zero, suc, ◌+◌, ◌/◌, ◌%◌, ◌^◌, ◌≤◌, ◌<◌, ◌≡◌, refl, ap, ◌∙◌, inl, inr, Bool, true,
  false, [], ◌∷◌, arith, ltb, if◌then◌else◌, Bool-cases, All,
}
use cambium.Number.{ok, Number}

-- A character that `String` writes: a digit, a point or a minus sign.
abbrev pub Plain : ℕ → Type 0
Plain c = (b'-' ≤ c) × (c ≤ b'9')

All-digits_onto : (f n : ℕ) (acc : Text) → All Plain acc → All Plain (digits_onto f n acc)
unfolding digits_onto
All-digits_onto zero n acc h = h
All-digits_onto (suc f) n acc h = elim (Bool-cases (ltb n 10)) [
  | inl small ↦ rw small (ground arith, h)
  | inr large ↦ rw large (All-digits_onto f (n / 10) ((b'0' + n % 10) ∷ acc) (omega arith, h))
]

trim_left-Plain : (s : Text) → All Plain s → trim_left s ≡ s
unfolding trim_left
trim_left-Plain [] h = refl
trim_left-Plain (c ∷ s) h = ground arith

pub trim_space-Plain : (s : Text) → All Plain s → trim_space s ≡ s
unfolding trim_space
trim_space-Plain s h =
    rw (trim_left-Plain s h)
      (rw (trim_left-Plain (reverse s) (All-reverse Plain s h)) (reverse-reverse s))

pub All-format_uint : (n : ℕ) → All Plain (format_uint n)
unfolding format_uint
All-format_uint n = All-digits_onto (suc n) n [] tt

-- A text that begins with a digit.
pub record Begins (s : Text) : Type 0 where
  pub first : ℕ
  pub rest : Text
  pub splits : s ≡ first ∷ rest
  pub low : b'0' ≤ first

pub format_uint-Begins : (n : ℕ) → Begins (format_uint n)
format_uint-Begins zero =
    unfold format_uint in record { first = b'0'; rest = []; splits = refl; low = omega arith }
format_uint-Begins (suc n) =
    let l = format_uint-Leads (suc n) (omega arith) in
    record { first = l.first; rest = l.rest; splits = l.splits; low = omega arith }

string-integer :
    (n : Number)
    → n.fraction_digits ≡ 0
    → string n ≡ (if n.negative then b'-' ∷ format_uint n.value else format_uint n.value)
unfolding string
string-integer n e = ground arith

parse_int_trimmed-positive :
    (s : Text) (v : ℕ)
    → Begins s
    → parse_uint s ≡ ok v
    → parse_int_trimmed s ≡ ok (record { value = v; fraction_digits = 0; negative = false })
unfolding parse_int_trimmed
parse_int_trimmed-positive s v b h = rw b.splits (go b.first b.rest b.low (rw b.splits at h))
  where
    go :
        (c : ℕ) (r : Text)
        → b'0' ≤ c
        → parse_uint (c ∷ r) ≡ ok v
        → parse_int_trimmed (c ∷ r)
          ≡ ok (record { value = v; fraction_digits = 0; negative = false })
    go c [] l q = ground arith
    go c (d ∷ r) l q = ground arith

parse_int_trimmed-negative :
    (s : Text) (v : ℕ)
    → Begins s
    → parse_uint s ≡ ok v
    → parse_int_trimmed (b'-' ∷ s) ≡ ok (record { value = v; fraction_digits = 0; negative = true })
unfolding parse_int_trimmed
parse_int_trimmed-negative s v b h = rw b.splits (rw (rw b.splits at h))

pub rebuilt :
    (n : Number) (fd : ℕ) (b : Bool)
    → n.fraction_digits ≡ fd
    → n.negative ≡ b
    → record { value = n.value; fraction_digits = fd; negative = b } ≡ n
rebuilt n fd b e h = ground arith

string-negative :
    (n : Number) → n.fraction_digits ≡ 0 → n.negative ≡ true → string n ≡ b'-' ∷ format_uint n.value
string-negative n e b = string-integer n e ∙ (ground arith)

string-positive :
    (n : Number) → n.fraction_digits ≡ 0 → n.negative ≡ false → string n ≡ format_uint n.value
string-positive n e b = string-integer n e ∙ (ground arith)

-- `ParseInt` reads back what `String` prints of an integer whose magnitude is a uint64.
pub parse_int-string :
    (n : Number) → n.fraction_digits ≡ 0 → n.value < 2 ^ 64 → parse_int (string n) ≡ ok n
unfolding parse_int
parse_int-string n e h = elim (Bool-cases n.negative) [
  | inl b ↦
      rw
        (
          string-negative n e b,
          trim_space-Plain (b'-' ∷ format_uint n.value) (omega arith, All-format_uint n.value),
        )
        (parse_int_trimmed-negative (format_uint n.value) n.value (format_uint-Begins n.value)
            (parse_uint-format_uint n.value h)
          ∙ ap ok (rebuilt n 0 true e b))
  | inr b ↦
      rw (string-positive n e b, trim_space-Plain (format_uint n.value) (All-format_uint n.value))
        (parse_int_trimmed-positive (format_uint n.value) n.value (format_uint-Begins n.value)
            (parse_uint-format_uint n.value h)
          ∙ ap ok (rebuilt n 0 false e b))
]
