-- ===== src/IfFeature/Grammar.antt =====
-- The grammar of if-feature expressions (RFC 7950, section 14), their tokens and their value, with no
-- parser in it.
use mathlib.Core.Option
use cambium.Prelude.{refl, ◌≡◌, Bool, true, false, not, ◌&&◌, ◌||◌, Option, none, some, List, ◌∷◌}
use cambium.IfFeature.Tokenizer.{
  Token, ident, not_token, and_token, or_token, left_paren, right_paren,
}
use cambium.Strconv.{Text}

mutual
  -- A conjunction, and those behind each further `or`.
  pub data OrExpr : Type 0 where
    alternatives : AndExpr → OrTail → OrExpr

  pub data OrTail : Type 0 where
    or_end : OrTail
    or_more : AndExpr → OrTail → OrTail

  pub data AndExpr : Type 0 where
    factors : NotExpr → AndTail → AndExpr

  pub data AndTail : Type 0 where
    and_end : AndTail
    and_more : NotExpr → AndTail → AndTail

  pub data NotExpr : Type 0 where
    negated : NotExpr → NotExpr
    plain : Primary → NotExpr

  pub data Primary : Type 0 where
    reference : Text → Primary
    group : OrExpr → Primary

-- The tokens of an expression, in front of what follows it.
unfoldable mutual
  pub or_tokens : OrExpr → List Token → List Token
  or_tokens (alternatives a t) rest = and_tokens a (or_tail_tokens t rest)

  pub or_tail_tokens : OrTail → List Token → List Token
  or_tail_tokens or_end rest = rest
  or_tail_tokens (or_more a t) rest = or_token ∷ and_tokens a (or_tail_tokens t rest)

  pub and_tokens : AndExpr → List Token → List Token
  and_tokens (factors n t) rest = not_tokens n (and_tail_tokens t rest)

  pub and_tail_tokens : AndTail → List Token → List Token
  and_tail_tokens and_end rest = rest
  and_tail_tokens (and_more n t) rest = and_token ∷ not_tokens n (and_tail_tokens t rest)

  pub not_tokens : NotExpr → List Token → List Token
  not_tokens (negated n) rest = not_token ∷ not_tokens n rest
  not_tokens (plain p) rest = primary_tokens p rest

  pub primary_tokens : Primary → List Token → List Token
  primary_tokens (reference s) rest = ident s ∷ rest
  primary_tokens (group e) rest = left_paren ∷ or_tokens e (right_paren ∷ rest)

-- Both values, if both are known.
abbrev pub both : (Bool → Bool → Bool) → Option Bool → Option Bool → Option Bool
both op none q = none
both op (some a) none = none
both op (some a) (some b) = some (op a b)

-- The value, known if every reference is: an unknown reference is an error wherever it stands.
module _ (lookup : Text → Option Bool) where
  unfoldable mutual
    pub or_value : OrExpr → Option Bool
    or_value (alternatives a t) = both ◌||◌ (and_value a) (or_tail_value t)

    pub or_tail_value : OrTail → Option Bool
    or_tail_value or_end = some false
    or_tail_value (or_more a t) = both ◌||◌ (and_value a) (or_tail_value t)

    pub and_value : AndExpr → Option Bool
    and_value (factors n t) = both ◌&&◌ (not_value n) (and_tail_value t)

    pub and_tail_value : AndTail → Option Bool
    and_tail_value and_end = some true
    and_tail_value (and_more n t) = both ◌&&◌ (not_value n) (and_tail_value t)

    pub not_value : NotExpr → Option Bool
    not_value (negated n) = Option.map not (not_value n)
    not_value (plain p) = primary_value p

    pub primary_value : Primary → Option Bool
    primary_value (reference s) = lookup s
    primary_value (group e) = or_value e

module _ (lookup : Text → Option Bool) where
  pub or_value_lem :
      (a : AndExpr) (t : OrTail)
      → or_value lookup (alternatives a t) ≡ both ◌||◌ (and_value lookup a) (or_tail_value lookup t)
  unfolding or_value
  or_value_lem a t = refl

  pub or_more_lem :
      (a : AndExpr) (t : OrTail)
      → or_tail_value lookup (or_more a t) ≡ both ◌||◌ (and_value lookup a) (or_tail_value lookup t)
  unfolding or_value
  or_more_lem a t = refl

  pub and_value_lem :
      (n : NotExpr) (t : AndTail)
      → and_value lookup (factors n t) ≡ both ◌&&◌ (not_value lookup n) (and_tail_value lookup t)
  unfolding or_value
  and_value_lem n t = refl

  pub and_more_lem :
      (n : NotExpr) (t : AndTail)
      → and_tail_value lookup (and_more n t)
        ≡ both ◌&&◌ (not_value lookup n) (and_tail_value lookup t)
  unfolding or_value
  and_more_lem n t = refl

  pub negated_lem :
      (n : NotExpr) → not_value lookup (negated n) ≡ Option.map not (not_value lookup n)
  unfolding or_value
  negated_lem n = refl

pub both_or :
    (l r : Bool) (q : Option Bool)
    → both ◌||◌ (some l) (both ◌||◌ (some r) q) ≡ both ◌||◌ (some (l || r)) q
both_or l r none = refl
both_or true r (some b) = refl
both_or false r (some b) = refl

pub both_and :
    (l r : Bool) (q : Option Bool)
    → both ◌&&◌ (some l) (both ◌&&◌ (some r) q) ≡ both ◌&&◌ (some (l && r)) q
both_and l r none = refl
both_and true r (some b) = refl
both_and false r (some b) = refl
