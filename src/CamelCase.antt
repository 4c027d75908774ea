-- ===== src/CamelCase.antt =====
-- go/cambium/camelcase.go: `CamelCase`, the exported Go spelling of a YANG identifier. A string is the
-- list of its bytes.
pub mod Exported
use cambium.Prelude.{
  ℕ, zero, suc, ◌-◌, Bool, false, ◌&&◌, ◌||◌, [], ◌∷◌, ◌++◌, leb, ◌==◌, if◌then◌else◌, length,
}
use cambium.Strconv.{Text}
use cambium.IfFeature.Tokenizer.{codes, same_word}

unfoldable pub normalized_identifier_separator : ℕ → ℕ
normalized_identifier_separator c = if (c == b'-') || (c == b'.') then b'_' else c

unfoldable pub is_ascii_lower : ℕ → Bool
is_ascii_lower c = leb b'a' c && leb c b'z'

unfoldable pub is_ascii_digit : ℕ → Bool
is_ascii_digit c = leb b'0' c && leb c b'9'

-- The spelling of a word, which is another one for a known word.
unfoldable pub respelled : Text → Text
unfolding same_word
respelled word = if same_word word (codes "Ietf") then codes "IETF" else word

unfoldable pub lower_prefix : Text → Text
unfolding is_ascii_lower
lower_prefix [] = []
lower_prefix (c ∷ s) = let rest = lower_prefix s in if is_ascii_lower c then c ∷ rest else []

unfoldable pub lower_rest : Text → Text
unfolding is_ascii_lower
lower_rest [] = []
lower_rest (c ∷ s) = let rest = lower_rest s in if is_ascii_lower c then rest else c ∷ s

-- `i+1 < len(s) && isASCIILower(s[i+1])`, with the text behind `i`.
unfoldable pub lower_next : Text → Bool
unfolding is_ascii_lower
lower_next [] = false
lower_next (c ∷ s) = is_ascii_lower c

-- `c -= 'a' - 'A'`.
unfoldable pub raised : ℕ → ℕ
unfolding is_ascii_lower
raised c = if is_ascii_lower c then c - 32 else c

-- The outer loop, on the text from `i` on; every round passes over at least one byte.
unfoldable pub camel_words : ℕ → Text → Text
unfolding respelled lower_prefix lower_rest lower_next raised normalized_identifier_separator
    is_ascii_digit
camel_words f [] = []
camel_words zero (ch ∷ s) = []
camel_words (suc f) (ch ∷ s) =
    let c = normalized_identifier_separator ch in
    let skip = camel_words f s in
    let behind_word = camel_words f (lower_rest s) in
    if (c == b'_') && lower_next s
    then skip
    else if is_ascii_digit c
    then c ∷ skip
    else respelled (raised c ∷ lower_prefix s) ++ behind_word

unfoldable pub camel_case : Text → Text
unfolding camel_words normalized_identifier_separator
camel_case [] = []
camel_case (c ∷ s) =
    if normalized_identifier_separator c == b'_'
    then b'X' ∷ camel_words (length s) s
    else camel_words (length (c ∷ s)) (c ∷ s)
