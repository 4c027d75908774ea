-- ===== src/IfFeature/Expr/RoundTrip.antt =====
-- go/cambium/schema_iffeature.go: printed tokens and printed expressions, read back.
use cambium.IfFeature.Expr.Printing.{print, Printable, tokens_from-print}
use cambium.IfFeature.Expr.Edges.{Opening, yang_trim_space-tight, Ending-print, Opening-print}
use cambium.IfFeature.{eval_tokens}
use cambium.IfFeature.Completeness.{eval_tokens_complete, length-or_tokens, verdict}
use cambium.IfFeature.Expr.{eval_of_tokens, eval_if_feature_expr}
use cambium.Prelude.Result.{◌>>=◌, ok}
use cambium.Prelude.{◌≤◌, ◌≡◌, refl, ap, ◌∙◌, Bool, true, Option, List, [], ◌∷◌, arith, length, All}
use cambium.Strconv.{Text}
use cambium.IfFeature.Tokenizer.{
  nonempty_tokens, tokenize_if_feature_expr, yang_trim_space, tokens_from, Token,
}
use cambium.IfFeature.Grammar.{or_value, or_tokens, OrExpr}

tokenize-Opening :
    (s : Text)
    → Opening s
    → yang_trim_space s ≡ s
    → tokenize_if_feature_expr s ≡ (tokens_from (length s) s >>= nonempty_tokens)
unfolding tokenize_if_feature_expr
tokenize-Opening s o h = rw h (rw o.front)

-- `tokenizeIfFeatureExpr` reads back printed tokens.
pub tokenize-print :
    (t : Token) (ts : List Token)
    → All Printable (t ∷ ts)
    → tokenize_if_feature_expr (print (t ∷ ts)) ≡ ok (t ∷ ts)
tokenize-print t ts h =
    let o = Opening-print t ts h in
    tokenize-Opening (print (t ∷ ts)) o
      (yang_trim_space-tight (print (t ∷ ts)) o (Ending-print t ts h))
    ∙ ap (λ r. r >>= nonempty_tokens)
        (tokens_from-print (length (print (t ∷ ts))) (t ∷ ts) h (omega arith))
    ∙ (unfold nonempty_tokens in refl)

-- The text of an expression whose references are well formed, written with one space between any two
-- tokens, evaluates to the expression's value, in a module of version 1.1.
pub eval_if_feature_expr-print :
    (lookup : Text → Option Bool) (e : OrExpr)
    → All Printable (or_tokens e [])
    → eval_if_feature_expr true lookup (print (or_tokens e [])) ≡ verdict (or_value lookup e)
unfolding eval_if_feature_expr
eval_if_feature_expr-print lookup e h =
    go (or_tokens e []) h (length-or_tokens e []) (eval_tokens_complete lookup e)
  where
    go :
        (ts : List Token)
        → All Printable ts
        → 1 ≤ length ts
        → eval_tokens lookup ts ≡ verdict (or_value lookup e)
        → eval_of_tokens lookup (tokenize_if_feature_expr (print ts)) ≡ verdict (or_value lookup e)
    go [] h' l q = absurd (omega arith)
    go (t ∷ ts) h' l q = ap (eval_of_tokens lookup) (tokenize-print t ts h') ∙ q
