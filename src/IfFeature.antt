-- ===== src/IfFeature.antt =====
-- go/cambium/schema_iffeature.go and the parser of go/cambium/schema.go: if-feature expressions, their
-- tokens and their evaluation. A text is the list of its bytes. What the parser asks of the module
-- that it stands in, `featureEnabledSeen` or `validateFeatureRefSeen`, is an argument: `none` where a
-- feature is not known.
use cambium.Strconv.{Text}
use cambium.Prelude.Result.{◌>>=◌, ok, err, Result}
pub mod Tokenizer
pub mod Grammar
pub mod Fuel
pub mod Soundness
pub mod Completeness
pub mod Expr
use cambium.Prelude.{
  ℕ, zero, suc, ◌+◌, ◌-◌, ◌*◌, ◌/◌, ◌%◌, ◌^◌, ◌≤◌, ◌<◌, ◌≡◌, refl, sym, ap, ◌∙◌, ◌≢◌, ◌↔◌, ◌⊎◌, inl,
  inr, Bool, true, false, not, ◌&&◌, ◌||◌, Option, none, some, List, [], ◌∷◌, ◌++◌, map, arith, ltb,
  leb, ◌==◌, if◌then◌else◌, Bool-cases, Option-cases, length, All, Any, All-map, All-append, ltb→lt,
  leb→le,
}
use cambium.IfFeature.Tokenizer.{
  not_token, and_token, or_token, right_paren, left_paren, ident, Token,
}

pub data Failure : Type 0 where
  rejected out_of_fuel : Failure

abbrev pub Answer : Type 0
Answer = Result Failure (Bool × List Token)

-- The answer of the module about one reference.
unfoldable pub answered : Option Bool → List Token → Answer
answered none ts = err rejected
answered (some b) ts = ok (b, ts)

-- `if !ok || !p.peek(RParen) { return false, false }`, and the step over the parenthesis.
unfoldable pub closed : Bool × List Token → Answer
closed (v, right_paren ∷ ts) = ok (v, ts)
closed (v, _) = err rejected

unfoldable pub inverted : Bool × List Token → Answer
inverted (v, ts) = ok (not v, ts)

-- The five methods of `ifFeatureParser`, on the tokens from `pos` on. `or_loop` and `and_loop` are the
-- `for` loops of `parseOr` and `parseAnd`.
module _ (lookup : Text → Option Bool) where
  unfoldable mutual
    unfolding answered closed inverted

    pub parse_or : ℕ → List Token → Answer
    parse_or zero ts = err out_of_fuel
    parse_or (suc f) ts = parse_and f ts >>= λ (left, rest). or_loop f left rest

    pub or_loop : ℕ → Bool → List Token → Answer
    or_loop zero left ts = err out_of_fuel
    or_loop (suc f) left (or_token ∷ ts) =
        parse_and f ts >>= λ (right, rest). or_loop f (left || right) rest
    or_loop (suc f) left ts = ok (left, ts)

    pub parse_and : ℕ → List Token → Answer
    parse_and zero ts = err out_of_fuel
    parse_and (suc f) ts = parse_not f ts >>= λ (left, rest). and_loop f left rest

    pub and_loop : ℕ → Bool → List Token → Answer
    and_loop zero left ts = err out_of_fuel
    and_loop (suc f) left (and_token ∷ ts) =
        parse_not f ts >>= λ (right, rest). and_loop f (left && right) rest
    and_loop (suc f) left ts = ok (left, ts)

    pub parse_not : ℕ → List Token → Answer
    parse_not zero ts = err out_of_fuel
    parse_not (suc f) (not_token ∷ ts) = parse_not f ts >>= inverted
    parse_not (suc f) ts = parse_primary f ts

    pub parse_primary : ℕ → List Token → Answer
    parse_primary zero ts = err out_of_fuel
    parse_primary (suc f) (ident text ∷ ts) = answered (lookup text) ts
    parse_primary (suc f) (left_paren ∷ ts) = parse_or f ts >>= closed
    parse_primary (suc f) ts = err rejected

  -- The caller's test that all tokens were read.
  unfoldable pub all_read : Bool × List Token → Result Failure Bool
  all_read (v, []) = ok v
  all_read (v, t ∷ ts) = err rejected

  -- `parser.parseOr()` and the test behind it.
  unfoldable pub eval_tokens : List Token → Result Failure Bool
  unfolding all_read
  eval_tokens ts = parse_or (4 * length ts + 4) ts >>= all_read
