-- ===== src/Samples/Features.antt =====
-- Runs of the if-feature parser, and the theorems at concrete inputs.
use cambium.IfFeature.Expr.Printing.{print, Printable}
use cambium.IfFeature.Expr.{eval_if_feature_expr}
use cambium.IfFeature.Expr.RoundTrip.{eval_if_feature_expr-print, tokenize-print}
use cambium.IfFeature.Completeness.{eval_tokens_complete, verdict}
use cambium.IfFeature.Soundness.{eval_tokens_sound}
use cambium.IfFeature.Fuel.{eval_tokens_total}
use cambium.IfFeature.Grammar.{
  or_end, negated, or_more, and_end, reference, plain, factors, alternatives, or_value, or_tokens,
  OrExpr,
}
use cambium.Prelude.Result.{err, ok}
use cambium.IfFeature.{rejected, eval_tokens}
use cambium.IfFeature.Tokenizer.{
  tokenize_if_feature_expr, word_token, not_token, or_token, ident, same_word, codes, Token,
}
use cambium.Strconv.{Text}
use cambium.Prelude.{
  ◌≡◌, refl, ◌⊎◌, Bool, true, false, Option, none, some, List, [], ◌∷◌, arith, if◌then◌else◌, All,
}

abbrev known : Text → Option Bool
known s =
    if same_word s (codes "a")
    then some true
    else if same_word s (codes "b")
    then some false
    else none

abbrev a_or_not_b : List Token
a_or_not_b = ident (codes "a") ∷ or_token ∷ not_token ∷ ident (codes "b") ∷ []

eval_tokens_total_example :
    ((v : Bool) × (eval_tokens known a_or_not_b ≡ ok v))
    ⊎ (eval_tokens known a_or_not_b ≡ err rejected)
eval_tokens_total_example = eval_tokens_total known a_or_not_b

eval_tokens_sound_example :
    (e : OrExpr) × (a_or_not_b ≡ or_tokens e []) × (or_value known e ≡ some true)
unfolding eval_tokens cambium.IfFeature.parse_or same_word
eval_tokens_sound_example = eval_tokens_sound known a_or_not_b true refl

abbrev a_or_not_b_expr : OrExpr
a_or_not_b_expr =
    alternatives (factors (plain (reference (codes "a"))) and_end)
      (or_more (factors (negated (plain (reference (codes "b")))) and_end) or_end)

eval_tokens_complete_example :
    eval_tokens known (or_tokens a_or_not_b_expr []) ≡ verdict (or_value known a_or_not_b_expr)
eval_tokens_complete_example = eval_tokens_complete known a_or_not_b_expr

a_or_not_b-Printable : All Printable a_or_not_b
unfolding word_token cambium.IfFeature.Tokenizer.is_separator
a_or_not_b-Printable =
    ((omega arith, (refl, tt), refl), (tt, (tt, ((omega arith, (refl, tt), refl), tt))))

tokenize-print_example : tokenize_if_feature_expr (print a_or_not_b) ≡ ok a_or_not_b
tokenize-print_example =
    tokenize-print (ident (codes "a")) (or_token ∷ not_token ∷ ident (codes "b") ∷ [])
      a_or_not_b-Printable

expr-Printable : All Printable (or_tokens a_or_not_b_expr [])
unfolding or_tokens
expr-Printable = a_or_not_b-Printable

eval_if_feature_expr-print_example :
    eval_if_feature_expr true known (print (or_tokens a_or_not_b_expr []))
    ≡ verdict (or_value known a_or_not_b_expr)
eval_if_feature_expr-print_example = eval_if_feature_expr-print known a_or_not_b_expr expr-Printable
