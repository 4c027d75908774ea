-- ===== src/IfFeature/Expr/Printing.antt =====
-- go/cambium/schema_iffeature.go: the text of some tokens, and the loop of `tokenizeIfFeatureExpr` on it.
use cambium.Prelude.Result.{ok}
use cambium.Prelude.{
  length-append, append-nil, ℕ, zero, suc, ◌≤◌, ◌<◌, ◌≡◌, refl, sym, ap, ◌∙◌, false, some, List, [],
  ◌∷◌, ◌++◌, arith, ◌==◌, length, All,
}
use cambium.Strconv.{Text}
use cambium.IfFeature.Tokenizer.{
  prepend, with_word, is_yang_space, word_token, codes, tokens_from, drop_word, take_word,
  is_separator, Token, ident, not_token, and_token, or_token, left_paren, right_paren,
}

abbrev pub token_text : Token → Text
token_text (ident s) = s
token_text not_token = codes "not"
token_text and_token = codes "and"
token_text or_token = codes "or"
token_text left_paren = codes "("
token_text right_paren = codes ")"

-- The tokens with one space between any two.
abbrev pub print : List Token → Text
print [] = []
print (t ∷ []) = token_text t
print (t ∷ u ∷ ts) = token_text t ++ (b' ' ∷ print (u ∷ ts))

-- A reference that the tokenizer reads as one: some bytes with no separator among them, which are no
-- keyword and are well formed.
abbrev pub IsReference : Text → Type 0
IsReference s =
    (0 < length s) × All (λ c. is_separator c ≡ false) s × (word_token s ≡ some (ident s))

abbrev pub Printable : Token → Type 0
Printable (ident s) = IsReference s
Printable _ = Unit

-- The text ends, or a space follows.
pub data Break : Text → Type 0 where
  at_end : Break []
  at_space : (s : Text) → Break (b' ' ∷ s)

pub take_word-Break : (rest : Text) → Break rest → take_word rest ≡ []
unfolding take_word
take_word-Break rest at_end = refl
take_word-Break rest (at_space s) = refl

pub drop_word-Break : (rest : Text) → Break rest → drop_word rest ≡ rest
unfolding drop_word
drop_word-Break rest at_end = refl
drop_word-Break rest (at_space s) = refl

pub take_word-append :
    (s rest : Text) → All (λ c. is_separator c ≡ false) s → Break rest → take_word (s ++ rest) ≡ s
unfolding take_word
take_word-append [] rest h b = take_word-Break rest b
take_word-append (c ∷ s) rest h b = ground (arith, h.0, take_word-append s rest h.1 b)

pub drop_word-append :
    (s rest : Text)
    → All (λ c. is_separator c ≡ false) s
    → Break rest
    → drop_word (s ++ rest) ≡ rest
unfolding drop_word
drop_word-append [] rest h b = drop_word-Break rest b
drop_word-append (c ∷ s) rest h b = ground (arith, h.0, drop_word-append s rest h.1 b)

-- A byte that is no separator takes the loop to its last branch.
pub not_separator :
    (c : ℕ)
    → is_separator c ≡ false
    → (is_yang_space c ≡ false) × ((c == b'(') ≡ false) × ((c == b')') ≡ false)
unfolding is_separator is_yang_space
not_separator c h = ground arith

pub word_step :
    (f : ℕ) (c : ℕ) (s rest : Text) (t : Token)
    → All (λ c. is_separator c ≡ false) (c ∷ s)
    → word_token (c ∷ s) ≡ some t
    → Break rest
    → tokens_from (suc f) ((c ∷ s) ++ rest) ≡ prepend t (tokens_from f rest)
unfolding tokens_from with_word
word_step f c s rest t h w b =
    let (space, open', close) = not_separator c h.0 in
    rw (space, open', close)
      (rw (take_word-append s rest h.1 b, drop_word-append s rest h.1 b) (rw w))

pub token_step :
    (f : ℕ) (t : Token) (rest : Text)
    → Printable t
    → Break rest
    → tokens_from (suc f) (token_text t ++ rest) ≡ prepend t (tokens_from f rest)
token_step f (ident []) rest p b = absurd (omega arith)
token_step f (ident (c ∷ s)) rest p b = word_step f c s rest (ident (c ∷ s)) p.1 p.2 b
token_step f not_token rest p b =
    word_step f b'n' (codes "ot") rest not_token (unfold is_separator in (refl, (refl, (refl, tt))))
      (unfold word_token in refl) b
token_step f and_token rest p b =
    word_step f b'a' (codes "nd") rest and_token (unfold is_separator in (refl, (refl, (refl, tt))))
      (unfold word_token in refl) b
token_step f or_token rest p b =
    word_step f b'o' (codes "r") rest or_token (unfold is_separator in (refl, (refl, tt)))
      (unfold word_token in refl) b
token_step f left_paren rest p b = unfold tokens_from in refl
token_step f right_paren rest p b = unfold tokens_from in refl

pub space_step : (f : ℕ) (s : Text) → tokens_from (suc f) (b' ' ∷ s) ≡ tokens_from f s
unfolding tokens_from
space_step f s = refl

pub text_pos : (t : Token) → Printable t → 0 < length (token_text t)
text_pos (ident s) p = p.0
text_pos not_token p = omega arith
text_pos _ p = omega arith

pub tokens_from-nil : (f : ℕ) → tokens_from f [] ≡ ok []
unfolding tokens_from
tokens_from-nil zero = refl
tokens_from-nil (suc f) = refl

pub tokens_from-print :
    (f : ℕ) (ts : List Token)
    → All Printable ts
    → length (print ts) ≤ f
    → tokens_from f (print ts) ≡ ok ts
unfolding prepend
tokens_from-print f [] h l = tokens_from-nil f
tokens_from-print zero (t ∷ []) h l = absurd (omega (arith, text_pos t h.0))
tokens_from-print (suc f) (t ∷ []) h l =
    ap (tokens_from (suc f)) (sym (append-nil (token_text t)))
    ∙ token_step f t [] h.0 at_end
    ∙ ap (prepend t) (tokens_from-nil f)
tokens_from-print zero (t ∷ u ∷ ts) h l =
    absurd (omega (arith, length-append {0} (token_text t) (b' ' ∷ print (u ∷ ts)), text_pos t h.0))
tokens_from-print (suc zero) (t ∷ u ∷ ts) h l =
    absurd (omega (arith, length-append {0} (token_text t) (b' ' ∷ print (u ∷ ts)), text_pos t h.0))
tokens_from-print (suc (suc f)) (t ∷ u ∷ ts) h l =
    token_step (suc f) t (b' ' ∷ print (u ∷ ts)) h.0 (at_space (print (u ∷ ts)))
    ∙ ap (prepend t) (
        space_step f (print (u ∷ ts))
        ∙ tokens_from-print f (u ∷ ts) h.1 (
            omega
              (arith, length-append {0} (token_text t) (b' ' ∷ print (u ∷ ts)), text_pos t h.0)))
