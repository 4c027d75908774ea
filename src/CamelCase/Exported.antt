-- ===== src/CamelCase/Exported.antt =====
-- go/cambium/camelcase.go: the characters of `CamelCase`, and the fuel of its loop.
use cambium.Prelude.{
  ℕ, zero, suc, ◌≤◌, ◌≡◌, refl, ◌⊎◌, inl, inr, true, false, ◌&&◌, [], ◌∷◌, ◌++◌, arith, ◌==◌,
  Bool-cases, length, All, All-append,
}
use cambium.Strconv.{Text}
use cambium.IfFeature.Tokenizer.{codes, same_word}
use cambium.IfFeature.Expr.{
  is_identifier_start, is_identifier_char, identifier_chars, valid_yang_identifier,
}
use cambium.CamelCase.{
  camel_case, camel_words, respelled, lower_prefix, lower_rest, lower_next, raised,
  normalized_identifier_separator, is_ascii_digit, is_ascii_lower,
}

abbrev pub IsUpper : ℕ → Type 0
IsUpper c = (b'A' ≤ c) × (c ≤ b'Z')

-- A letter, a digit or an underscore.
abbrev pub IsGoLetter : ℕ → Type 0
IsGoLetter c =
    ((b'A' ≤ c) × (c ≤ b'Z')) ⊎ ((b'a' ≤ c) × (c ≤ b'z')) ⊎ ((b'0' ≤ c) × (c ≤ b'9')) ⊎ (c ≡ b'_')

-- An exported identifier of Go.
abbrev pub IsExported : Text → Type 0
IsExported [] = ⊥
IsExported (c ∷ s) = IsUpper c × All IsGoLetter s

length-lower_rest : (s : Text) → length (lower_rest s) ≤ length s
unfolding lower_rest
length-lower_rest [] = omega arith
length-lower_rest (c ∷ s) = ground (arith, length-lower_rest s)

-- The loop gives the same for any fuel that is at least the length of the text.
pub camel_words_enough :
    (f g : ℕ) (s : Text) → length s ≤ f → length s ≤ g → camel_words f s ≡ camel_words g s
unfolding camel_words
camel_words_enough f g [] h k = refl
camel_words_enough zero g (c ∷ s) h k = absurd (omega (arith, h))
camel_words_enough (suc f) zero (c ∷ s) h k = absurd (omega (arith, k))
camel_words_enough (suc f) (suc g) (c ∷ s) h k =
    let l = length-lower_rest s in
    rw
      (
        camel_words_enough f g s (omega (arith, h)) (omega (arith, k)),
        camel_words_enough f g (lower_rest s) (omega (arith, h, l)) (omega (arith, k, l)),
      )
      refl

All-lower_prefix : (s : Text) → All IsGoLetter (lower_prefix s)
unfolding lower_prefix is_ascii_lower
All-lower_prefix [] = tt
All-lower_prefix (c ∷ s) = elim (Bool-cases (is_ascii_lower c)) [
  | inl b ↦ rw b (inr (inl (ground (arith, b))), All-lower_prefix s)
  | inr b ↦ rw b tt
]

identifier_chars-lower_rest :
    (s : Text) → identifier_chars s ≡ true → identifier_chars (lower_rest s) ≡ true
unfolding lower_rest identifier_chars
identifier_chars-lower_rest [] h = refl
identifier_chars-lower_rest (c ∷ s) h = ground (arith, identifier_chars-lower_rest s)

raised-IsGoLetter :
    (c : ℕ) → is_identifier_char c ≡ true → IsGoLetter (raised (normalized_identifier_separator c))
unfolding raised is_ascii_lower normalized_identifier_separator is_identifier_char
    is_identifier_start
raised-IsGoLetter c h = ground arith

digit-IsGoLetter : (c : ℕ) → is_ascii_digit c ≡ true → IsGoLetter c
unfolding is_ascii_digit
digit-IsGoLetter c h = inr (inr (inl (ground arith)))

-- A word and its respelling have the same first letter, and stay letters.
All-respelled :
    (c : ℕ) (s : Text) → IsGoLetter c → All IsGoLetter s → All IsGoLetter (respelled (c ∷ s))
unfolding respelled
All-respelled c s h k = elim (Bool-cases (same_word (c ∷ s) (codes "Ietf"))) [
  | inl b ↦ rw b (
    inl (omega arith, omega arith),
    (
      inl (omega arith, omega arith),
      (inl (omega arith, omega arith), (inl (omega arith, omega arith), tt)),
    ),
  )
  | inr b ↦ rw b (h, k)
]

camel_words-IsGoLetter :
    (f : ℕ) (s : Text) → identifier_chars s ≡ true → All IsGoLetter (camel_words f s)
unfolding camel_words identifier_chars
camel_words-IsGoLetter f [] h = tt
camel_words-IsGoLetter zero (c ∷ s) h = tt
camel_words-IsGoLetter (suc f) (c ∷ s) h =
    let hc : is_identifier_char c ≡ true = ground arith in
    let hs : identifier_chars s ≡ true = ground arith in
    let n = normalized_identifier_separator c in
    let word =
      All-append IsGoLetter (respelled (raised n ∷ lower_prefix s)) (camel_words f (lower_rest s))
        (All-respelled (raised n) (lower_prefix s) (raised-IsGoLetter c hc) (All-lower_prefix s))
        (camel_words-IsGoLetter f (lower_rest s) (identifier_chars-lower_rest s hs)) in
    elim (Bool-cases ((n == b'_') && lower_next s)) [
      | inl a ↦ rw a (camel_words-IsGoLetter f s hs)
      | inr a ↦ elim (Bool-cases (is_ascii_digit n)) [
        | inl d ↦ rw (a, d) (digit-IsGoLetter n d, camel_words-IsGoLetter f s hs)
        | inr d ↦ rw (a, d) word
      ]
    ]

respelled-IsExported :
    (c : ℕ) (s t : Text)
    → IsUpper c
    → All IsGoLetter s
    → All IsGoLetter t
    → IsExported (respelled (c ∷ s) ++ t)
unfolding respelled
respelled-IsExported c s t h k l = elim (Bool-cases (same_word (c ∷ s) (codes "Ietf"))) [
  | inl b ↦ rw b (
    (omega arith, omega arith),
    (
      inl (omega arith, omega arith),
      (inl (omega arith, omega arith), (inl (omega arith, omega arith), l)),
    ),
  )
  | inr b ↦ rw b (h, All-append IsGoLetter s t k l)
]

start_facts :
    (c : ℕ)
    → is_identifier_start c ≡ true
    → (normalized_identifier_separator c == b'_') ≡ false
    → IsUpper (raised (normalized_identifier_separator c))
      × (is_ascii_digit (normalized_identifier_separator c) ≡ false)
unfolding raised is_ascii_lower normalized_identifier_separator is_identifier_start is_ascii_digit
start_facts c h k = ground arith

-- `CamelCase` of a YANG identifier begins with a letter from A to Z, and goes on with letters, digits and
-- underscores.
pub camel_case-IsExported :
    (s : Text) → valid_yang_identifier s true ≡ true → IsExported (camel_case s)
unfolding camel_case camel_words valid_yang_identifier
camel_case-IsExported [] h = absurd (cc)
camel_case-IsExported (c ∷ s) h =
    let start : is_identifier_start c ≡ true = ground arith in
    let hs : identifier_chars s ≡ true = ground arith in
    elim (Bool-cases (normalized_identifier_separator c == b'_')) [
      | inl b ↦ rw b ((omega arith, omega arith), camel_words-IsGoLetter (length s) s hs)
      | inr b ↦
          let (u, d) = start_facts c start b in
          rw (b, d)
            (respelled-IsExported (raised (normalized_identifier_separator c)) (lower_prefix s)
              (camel_words (length s) (lower_rest s)) u (All-lower_prefix s)
              (camel_words-IsGoLetter (length s) (lower_rest s) (identifier_chars-lower_rest s hs)))
    ]
