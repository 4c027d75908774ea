-- ===== src/Identifiers/Separate.antt =====
-- go/codegen/names.go: the names that the loop of `allocate` tries.
use cambium.Prelude.{
  ℕ, zero, suc, ◌+◌, ◌-◌, ◌*◌, ◌/◌, ◌%◌, ◌^◌, ◌<◌, ◌≡◌, refl, sym, ap, ◌∙◌, ◌≢◌, inl, inr, true, [],
  ◌∷◌, ◌++◌, arith, ltb, Bool-cases, length,
}
use native.Mathlib.Nat.{pow-suc, div-add-mod}
use cambium.Strconv.{Text, format_uint, digits_onto}
use cambium.IfFeature.Tokenizer.{same_word}
use cambium.Identifiers.{is_used}
use cambium.Identifiers.Families.{same_word-eq}
use cambium.Identifiers.Suffixes.{candidate, IsSeparate}
use cambium.Pattern.Decimal.Laws.{value, regroup}

value-digits_onto :
    (f n : ℕ) (acc : Text) → n < f → value (digits_onto f n acc) ≡ n * 10 ^ length acc + value acc
unfolding digits_onto
value-digits_onto zero n acc h = absurd (omega (arith, h))
value-digits_onto (suc f) n acc h = elim (Bool-cases (ltb n 10)) [
  | inl b ↦ rw b (let e : b'0' + n - b'0' ≡ n = omega arith in rw e refl)
  | inr b ↦
      let r = value-digits_onto f (n / 10) ((b'0' + n % 10) ∷ acc) (ground (arith, h, b)) in
      let d : n / 10 * 10 + n % 10 ≡ n = omega (arith, div-add-mod n 10) in
      let e : b'0' + n % 10 - b'0' ≡ n % 10 = omega arith in
      let p = pow-suc 10 (length acc) in
      let g = regroup (n / 10) (n % 10) (10 ^ length acc) (value acc) in
      rw b (r ∙ rw (p, e) (g ∙ ap (λ q. q * 10 ^ length acc + value acc) d))
]

value-format_uint : (n : ℕ) → value (format_uint n) ≡ n
unfolding format_uint
value-format_uint n = omega (arith, value-digits_onto (suc n) n [] (omega arith))

append-injective : (b s t : Text) → b ++ s ≡ b ++ t → s ≡ t
append-injective [] s t h = h
append-injective (c ∷ b) s t h = append-injective b s t (cc)

append-longer : (b s : Text) → b ≡ b ++ s → s ≡ []
append-longer [] s h = sym h
append-longer (c ∷ b) s h = append-longer b s (cc)

format_uint-injective : (n m : ℕ) → format_uint n ≡ format_uint m → n ≡ m
format_uint-injective n m h = sym (value-format_uint n) ∙ ap value h ∙ value-format_uint m

not_nil : (n : ℕ) → format_uint n ≢ []
not_nil n h = format_nil n (value-format_uint n) h
  where
    format_nil : (n : ℕ) → value (format_uint n) ≡ n → format_uint n ≢ []
    format_nil zero v h = let z = ap length h in absurd (unfold format_uint in omega (arith, z))
    format_nil (suc n) v h = let z = ap value h in omega (arith, v, z)

candidate-injective : (base : Text) (i j : ℕ) → i < j → candidate base i ≢ candidate base j
candidate-injective base i zero l h = omega (arith, l)
candidate-injective base zero (suc j) l h =
    not_nil (j + 2) (append-longer base (format_uint (j + 2)) h)
candidate-injective base (suc i) (suc j) l h =
    let e =
      format_uint-injective (i + 2) (j + 2)
        (append-injective base (format_uint (i + 2)) (format_uint (j + 2)) h) in
    omega (arith, l, e)

-- Families of one identifier are separate.
pub single-IsSeparate : (base : Text) → IsSeparate (λ n. n ∷ []) base
unfolding is_used
single-IsSeparate base i j m l h = elim (Bool-cases (same_word (candidate base j) m)) [
  | inl b ↦
      let here : same_word (candidate base i) m ≡ true = ground arith in
      absurd (
        candidate-injective base i j l
          (same_word-eq (candidate base i) m here ∙ sym (same_word-eq (candidate base j) m b)))
  | inr b ↦ rw b refl
]
