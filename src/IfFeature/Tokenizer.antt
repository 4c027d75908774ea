-- ===== src/IfFeature/Tokenizer.antt =====
-- go/cambium/schema_iffeature.go: `tokenizeIfFeatureExpr`, and the references that an expression may name.
use Prim.Native.Char.{code}
use cambium.Prelude.Result.{◌>>=◌, ok, err, Result}
use Prim.Native.String.{String}
use cambium.Prelude.{
  reverse, ℕ, zero, suc, Bool, true, false, ◌&&◌, ◌||◌, Option, none, some, List, [], ◌∷◌, leb,
  ◌==◌, if◌then◌else◌, length,
}
use cambium.Strconv.{split, Text}

pub data Token : Type 0 where
  ident : Text → Token
  not_token and_token or_token left_paren right_paren : Token

-- The bytes of a text in quotes, which is ASCII here.
abbrev pub codes : String → Text
codes String.[] = []
codes (String.◌∷◌ c s) = code c ∷ codes s

-- `isIfFeatureExprSeparator`.
unfoldable pub is_separator : ℕ → Bool
is_separator ch =
    (ch == b' ') || (ch == 9) || (ch == 13) || (ch == 10) || (ch == b'(') || (ch == b')')

unfoldable pub is_yang_space : ℕ → Bool
is_yang_space b = (b == b' ') || (b == 9) || (b == 10) || (b == 13)

unfoldable pub trim_yang_left : Text → Text
unfolding is_yang_space
trim_yang_left [] = []
trim_yang_left (c ∷ s) = let rest = trim_yang_left s in if is_yang_space c then rest else c ∷ s

unfoldable pub yang_trim_space : Text → Text
unfolding trim_yang_left
yang_trim_space s = reverse (trim_yang_left (reverse (trim_yang_left s)))

unfoldable pub is_ref_char : ℕ → Bool
is_ref_char ch =
    (leb b'a' ch && leb ch b'z')
    || (leb b'A' ch && leb ch b'Z')
    || (leb b'0' ch && leb ch b'9')
    || (ch == b'_')
    || (ch == b'-')
    || (ch == b'.')

valid_part : Text → Bool
valid_part [] = true
valid_part (c ∷ s) = is_ref_char c && valid_part s

valid_parts : List Text → Bool
valid_parts [] = true
valid_parts ([] ∷ parts) = false
valid_parts ((c ∷ s) ∷ parts) = valid_part (c ∷ s) && valid_parts parts

-- `validIfFeatureRef`: at most one colon, and one or more of the permitted characters on each side.
unfoldable pub valid_if_feature_ref : Text → Bool
unfolding valid_parts valid_part is_ref_char split
valid_if_feature_ref [] = false
valid_if_feature_ref (c ∷ s) =
    let parts = split b':' (c ∷ s) in leb (length parts) 2 && valid_parts parts

unfoldable pub take_word : Text → Text
unfolding is_separator
take_word [] = []
take_word (c ∷ s) = let rest = take_word s in if is_separator c then [] else c ∷ rest

unfoldable pub drop_word : Text → Text
unfolding is_separator
drop_word [] = []
drop_word (c ∷ s) = let rest = drop_word s in if is_separator c then c ∷ s else rest

unfoldable pub same_word : Text → Text → Bool
same_word [] [] = true
same_word (c ∷ s) (d ∷ t) = (c == d) && same_word s t
same_word _ _ = false

-- The inner `switch`: a keyword, or a reference.
unfoldable pub word_token : Text → Option Token
unfolding same_word valid_if_feature_ref
word_token word =
    if same_word word (codes "not")
    then some not_token
    else if same_word word (codes "and")
    then some and_token
    else if same_word word (codes "or")
    then some or_token
    else if valid_if_feature_ref word
    then some (ident word)
    else none

pub data TokenError : Type 0 where
  invalid_word no_tokens out_of_fuel : TokenError

abbrev pub Tokens : Type 0
Tokens = Result TokenError (List Token)

unfoldable pub prepend : Token → Tokens → Tokens
prepend t (ok ts) = ok (t ∷ ts)
prepend t (err e) = err e

unfoldable pub with_word : Option Token → Tokens → Tokens
with_word none rest = err invalid_word
with_word (some t) rest = prepend t rest

-- The loop over `i`, on the text from `i` on; every round passes over at least one byte.
unfoldable pub tokens_from : ℕ → Text → Tokens
unfolding prepend with_word word_token take_word drop_word is_yang_space
tokens_from f [] = ok []
tokens_from zero (ch ∷ s) = err out_of_fuel
tokens_from (suc f) (ch ∷ s) =
    let rest = tokens_from f s in
    let behind_word = tokens_from f (drop_word s) in
    if is_yang_space ch
    then rest
    else if ch == b'('
    then prepend left_paren rest
    else if ch == b')'
    then prepend right_paren rest
    else with_word (word_token (ch ∷ take_word s)) behind_word

unfoldable pub nonempty_tokens : List Token → Tokens
nonempty_tokens [] = err no_tokens
nonempty_tokens (t ∷ ts) = ok (t ∷ ts)

unfoldable pub tokens_of_trimmed : Text → Tokens
tokens_of_trimmed [] = err no_tokens
tokens_of_trimmed (c ∷ s) = tokens_from (length (c ∷ s)) (c ∷ s) >>= nonempty_tokens

unfoldable pub tokenize_if_feature_expr : Text → Tokens
unfolding tokens_of_trimmed nonempty_tokens tokens_from yang_trim_space
tokenize_if_feature_expr expr = tokens_of_trimmed (yang_trim_space expr)
