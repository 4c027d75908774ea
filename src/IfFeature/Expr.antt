-- ===== src/IfFeature/Expr.antt =====
-- go/cambium/schema_iffeature.go: `evalIfFeatureExprSeen`, `validateIfFeatureExprFrom`, which is the same
-- with another question to the module, and `ifFeatureExprRequiresYang11`.
pub mod Printing
pub mod Edges
use cambium.IfFeature.Completeness.{verdict}
use cambium.Prelude.Result.{ok, Result, err}
use cambium.IfFeature.{rejected, Failure, eval_tokens}
pub mod RoundTrip
use cambium.Prelude.{
  ℕ, zero, suc, ◌+◌, ◌-◌, ◌*◌, ◌/◌, ◌%◌, ◌^◌, ◌≤◌, ◌<◌, ◌≡◌, refl, sym, ap, ◌∙◌, ◌≢◌, ◌↔◌, ◌⊎◌, inl,
  inr, Bool, true, false, not, ◌&&◌, ◌||◌, Option, none, some, List, [], ◌∷◌, ◌++◌, map, arith, ltb,
  leb, ◌==◌, if◌then◌else◌, Bool-cases, Option-cases, length, All, Any, All-map, All-append, ltb→lt,
  leb→le,
}
use cambium.Strconv.{Text, split}
use cambium.IfFeature.Tokenizer.{tokenize_if_feature_expr, Tokens, yang_trim_space, ident}

unfoldable pub is_identifier_start : ℕ → Bool
is_identifier_start ch =
    (ch == b'_') || (leb b'A' ch && leb ch b'Z') || (leb b'a' ch && leb ch b'z')

unfoldable pub is_identifier_char : ℕ → Bool
unfolding is_identifier_start
is_identifier_char ch =
    is_identifier_start ch || (leb b'0' ch && leb ch b'9') || (ch == b'-') || (ch == b'.')

-- The letters x, m and l in either case: `strings.EqualFold(value[:3], "xml")`.
unfoldable pub begins_with_xml : Text → Bool
begins_with_xml (x ∷ m ∷ l ∷ s) =
    ((x == b'x') || (x == b'X')) && ((m == b'm') || (m == b'M')) && ((l == b'l') || (l == b'L'))
begins_with_xml s = false

unfoldable pub identifier_chars : Text → Bool
identifier_chars [] = true
identifier_chars (c ∷ s) = is_identifier_char c && identifier_chars s

unfoldable pub valid_yang_identifier : Text → Bool → Bool
unfolding is_identifier_char begins_with_xml identifier_chars
valid_yang_identifier [] allow_xml_prefix = false
valid_yang_identifier (c ∷ s) allow_xml_prefix =
    if not allow_xml_prefix && begins_with_xml (c ∷ s)
    then false
    else is_identifier_start c && identifier_chars s

-- One part is an unprefixed name, two are a prefix and a name.
valid_ref_parts : List Text → Bool → Bool
valid_ref_parts (name ∷ []) allow = valid_yang_identifier name allow
valid_ref_parts (pfx ∷ name ∷ []) allow =
    valid_yang_identifier pfx allow && valid_yang_identifier name allow
valid_ref_parts parts allow = false

unfoldable pub valid_yang_identifier_ref : Text → Bool → Bool
unfolding valid_ref_parts valid_yang_identifier split
valid_yang_identifier_ref value allow = valid_ref_parts (split b':' value) allow

unfoldable pub single_if_feature_ref_arg : Text → Bool → Option Text
unfolding yang_trim_space valid_yang_identifier_ref
single_if_feature_ref_arg expr allow =
    let ref = yang_trim_space expr in if valid_yang_identifier_ref ref allow then some ref else none

unfoldable pub requires_yang11_tokens : Tokens → Bool
requires_yang11_tokens (err e) = false
requires_yang11_tokens (ok (ident text ∷ [])) = false
requires_yang11_tokens (ok ts) = true

unfoldable pub if_feature_expr_requires_yang11 : Text → Bool
unfolding requires_yang11_tokens single_if_feature_ref_arg
if_feature_expr_requires_yang11 expr = elim (single_if_feature_ref_arg expr false) [
  | some ref ↦ false
  | none ↦ requires_yang11_tokens (tokenize_if_feature_expr expr)
]

unfoldable pub eval_of_tokens : (Text → Option Bool) → Tokens → Result Failure Bool
eval_of_tokens lookup (err e) = err rejected
eval_of_tokens lookup (ok ts) = eval_tokens lookup ts

single_reference : (Text → Option Bool) → Option Text → Tokens → Result Failure Bool
single_reference lookup (some ref) ts = verdict (lookup ref)
single_reference lookup none ts = eval_of_tokens lookup ts

-- `yang11` says that the statement stands in a module of version 1.1, or that there is no statement: then
-- the single reference of version 1 is not tried first.
unfoldable pub eval_if_feature_expr : Bool → (Text → Option Bool) → Text → Result Failure Bool
unfolding single_reference eval_of_tokens eval_tokens single_if_feature_ref_arg
eval_if_feature_expr yang11 lookup expr =
    single_reference lookup (if yang11 then none else single_if_feature_ref_arg expr false)
      (tokenize_if_feature_expr expr)
