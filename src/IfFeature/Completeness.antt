-- ===== src/IfFeature/Completeness.antt =====
-- go/cambium/schema.go: `ifFeatureParser` on the tokens of an expression.
use cambium.Prelude.Result.{err, Result, ◌>>=◌, ok}
use cambium.IfFeature.{
  rejected, all_read, Failure, eval_tokens, parse_and, parse_primary, closed, inverted, Answer,
  parse_not, and_loop, or_loop, answered, parse_or,
}
use cambium.Prelude.{
  ℕ, zero, suc, ◌+◌, ◌*◌, ◌≤◌, ◌<◌, ◌≡◌, refl, sym, ap, ◌∙◌, Bool, true, false, not, ◌&&◌, ◌||◌,
  Option, none, some, List, [], ◌∷◌, arith, length,
}
use cambium.Strconv.{Text}
use cambium.IfFeature.Tokenizer.{Token, and_token, or_token, right_paren}
use mathlib.Core.Option
use cambium.IfFeature.Grammar.{
  both_and, both_or, and_value, primary_value, not_value, and_tail_value, or_tail_value, not_tokens,
  and_tail_tokens, both, primary_tokens, and_tokens, or_value, or_tail_tokens, or_tokens, OrExpr,
  OrTail, AndExpr, AndTail, NotExpr, Primary, alternatives, or_end, or_more, factors, and_end,
  and_more, negated, plain, reference, group,
}

-- The text goes on with no further `or`, and with no further `and`.
abbrev NoOr : List Token → Type 0
NoOr (or_token ∷ ts) = ⊥
NoOr ts = Unit

abbrev NoAnd : List Token → Type 0
NoAnd (and_token ∷ ts) = ⊥
NoAnd ts = Unit

NoAnd-or_tail : (t : OrTail) (rest : List Token) → NoAnd rest → NoAnd (or_tail_tokens t rest)
unfolding or_tokens
NoAnd-or_tail or_end rest h = h
NoAnd-or_tail (or_more a t) rest h = tt

mutual
  unfolding or_tokens

  pub length-or_tokens :
      (e : OrExpr) (rest : List Token) → length rest + 1 ≤ length (or_tokens e rest)
  length-or_tokens (alternatives a t) rest =
      omega (arith, length-and_tokens a (or_tail_tokens t rest), length-or_tail t rest)

  length-or_tail : (t : OrTail) (rest : List Token) → length rest ≤ length (or_tail_tokens t rest)
  length-or_tail or_end rest = omega arith
  length-or_tail (or_more a t) rest =
      omega (arith, length-and_tokens a (or_tail_tokens t rest), length-or_tail t rest)

  length-and_tokens :
      (e : AndExpr) (rest : List Token) → length rest + 1 ≤ length (and_tokens e rest)
  length-and_tokens (factors n t) rest =
      omega (arith, length-not_tokens n (and_tail_tokens t rest), length-and_tail t rest)

  length-and_tail :
      (t : AndTail) (rest : List Token) → length rest ≤ length (and_tail_tokens t rest)
  length-and_tail and_end rest = omega arith
  length-and_tail (and_more n t) rest =
      omega (arith, length-not_tokens n (and_tail_tokens t rest), length-and_tail t rest)

  length-not_tokens :
      (e : NotExpr) (rest : List Token) → length rest + 1 ≤ length (not_tokens e rest)
  length-not_tokens (negated n) rest = omega (arith, length-not_tokens n rest)
  length-not_tokens (plain p) rest = length-primary_tokens p rest

  length-primary_tokens :
      (e : Primary) (rest : List Token) → length rest + 1 ≤ length (primary_tokens e rest)
  length-primary_tokens (reference s) rest = omega arith
  length-primary_tokens (group e) rest = omega (arith, length-or_tokens e (right_paren ∷ rest))

module _ (lookup : Text → Option Bool) where
  or_loop-end :
      (f : ℕ) (l : Bool) (rest : List Token)
      → 0 < f
      → NoOr rest
      → or_loop lookup f l rest ≡ ok (l, rest)
  unfolding parse_or
  or_loop-end zero l rest p h = absurd (omega arith)
  or_loop-end (suc f) l [] p h = refl
  or_loop-end (suc f) l (or_token ∷ ts) p h = absurd h
  or_loop-end (suc f) l (t ∷ ts) p h = refl

  and_loop-end :
      (f : ℕ) (l : Bool) (rest : List Token)
      → 0 < f
      → NoAnd rest
      → and_loop lookup f l rest ≡ ok (l, rest)
  unfolding parse_or
  and_loop-end zero l rest p h = absurd (omega arith)
  and_loop-end (suc f) l [] p h = refl
  and_loop-end (suc f) l (and_token ∷ ts) p h = absurd h
  and_loop-end (suc f) l (t ∷ ts) p h = refl

  parse_not-primary :
      (f : ℕ) (p : Primary) (rest : List Token)
      → parse_not lookup (suc f) (primary_tokens p rest)
        ≡ parse_primary lookup f (primary_tokens p rest)
  unfolding parse_or or_tokens
  parse_not-primary f (reference s) rest = refl
  parse_not-primary f (group e) rest = refl

  -- Going on behind a first part whose value may not be known.
  then_or :
      (o q : Option Bool) (mid rest : List Token) (next : Bool → List Token → Answer)
      → ((b : Bool) → next b mid ≡ answered (both ◌||◌ (some b) q) rest)
      → (answered o mid >>= λ (l, ts). next l ts) ≡ answered (both ◌||◌ o q) rest
  unfolding answered
  then_or none q mid rest next h = refl
  then_or (some b) q mid rest next h = h b

  then_and :
      (o q : Option Bool) (mid rest : List Token) (next : Bool → List Token → Answer)
      → ((b : Bool) → next b mid ≡ answered (both ◌&&◌ (some b) q) rest)
      → (answered o mid >>= λ (l, ts). next l ts) ≡ answered (both ◌&&◌ o q) rest
  unfolding answered
  then_and none q mid rest next h = refl
  then_and (some b) q mid rest next h = h b

  then_or_more :
      (l : Bool) (o q : Option Bool) (mid rest : List Token) (next : Bool → List Token → Answer)
      → ((b : Bool) → next b mid ≡ answered (both ◌||◌ (some (l || b)) q) rest)
      → (answered o mid >>= λ (x, ts). next x ts)
        ≡ answered (both ◌||◌ (some l) (both ◌||◌ o q)) rest
  unfolding answered
  then_or_more l none q mid rest next h = refl
  then_or_more l (some b) q mid rest next h = h b ∙ ap (λ v. answered v rest) (sym (both_or l b q))

  then_and_more :
      (l : Bool) (o q : Option Bool) (mid rest : List Token) (next : Bool → List Token → Answer)
      → ((b : Bool) → next b mid ≡ answered (both ◌&&◌ (some (l && b)) q) rest)
      → (answered o mid >>= λ (x, ts). next x ts)
        ≡ answered (both ◌&&◌ (some l) (both ◌&&◌ o q)) rest
  unfolding answered
  then_and_more l none q mid rest next h = refl
  then_and_more l (some b) q mid rest next h =
      h b ∙ ap (λ v. answered v rest) (sym (both_and l b q))

  then_inverted :
      (o : Option Bool) (ts : List Token)
      → (answered o ts >>= inverted) ≡ answered (Option.map not o) ts
  unfolding answered inverted
  then_inverted none ts = refl
  then_inverted (some b) ts = refl

  then_closed :
      (o : Option Bool) (ts : List Token)
      → (answered o (right_paren ∷ ts) >>= closed) ≡ answered o ts
  unfolding answered closed
  then_closed none ts = refl
  then_closed (some b) ts = refl

  abbrev OrIs : ℕ → OrExpr → List Token → Type 0
  OrIs f e rest = parse_or lookup f (or_tokens e rest) ≡ answered (or_value lookup e) rest

  abbrev OrTailIs : ℕ → OrTail → List Token → Type 0
  OrTailIs f t rest =
      (l : Bool)
      → or_loop lookup f l (or_tail_tokens t rest)
        ≡ answered (both ◌||◌ (some l) (or_tail_value lookup t)) rest

  abbrev AndIs : ℕ → AndExpr → List Token → Type 0
  AndIs f e rest = parse_and lookup f (and_tokens e rest) ≡ answered (and_value lookup e) rest

  abbrev AndTailIs : ℕ → AndTail → List Token → Type 0
  AndTailIs f t rest =
      (l : Bool)
      → and_loop lookup f l (and_tail_tokens t rest)
        ≡ answered (both ◌&&◌ (some l) (and_tail_value lookup t)) rest

  abbrev NotIs : ℕ → NotExpr → List Token → Type 0
  NotIs f e rest = parse_not lookup f (not_tokens e rest) ≡ answered (not_value lookup e) rest

  abbrev PrimaryIs : ℕ → Primary → List Token → Type 0
  PrimaryIs f e rest =
      parse_primary lookup f (primary_tokens e rest) ≡ answered (primary_value lookup e) rest

  or_step :
      (f : ℕ) (a : AndExpr) (t : OrTail) (rest : List Token)
      → AndIs f a (or_tail_tokens t rest)
      → OrTailIs f t rest
      → OrIs (suc f) (alternatives a t) rest
  unfolding parse_or or_tokens or_value
  or_step f a t rest h k =
      ap (λ r. r >>= λ (l, ts). or_loop lookup f l ts) h
      ∙ then_or (and_value lookup a) (or_tail_value lookup t) (or_tail_tokens t rest) rest
          (or_loop lookup f) k

  or_end_step : (f : ℕ) (rest : List Token) → 0 < f → NoOr rest → OrTailIs f or_end rest
  unfolding or_tokens or_value answered
  or_end_step f rest p h l = or_loop-end f l rest p h ∙ ap (λ b. ok (b, rest)) (or-false l)
    where
      or-false : (b : Bool) → b ≡ (b || false)
      or-false true = refl
      or-false false = refl

  or_more_step :
      (f : ℕ) (a : AndExpr) (t : OrTail) (rest : List Token)
      → AndIs f a (or_tail_tokens t rest)
      → OrTailIs f t rest
      → OrTailIs (suc f) (or_more a t) rest
  unfolding parse_or or_tokens or_value
  or_more_step f a t rest h k l =
      ap (λ r. r >>= λ (x, ts). or_loop lookup f (l || x) ts) h
      ∙ then_or_more l (and_value lookup a) (or_tail_value lookup t) (or_tail_tokens t rest) rest
          (λ x ts. or_loop lookup f (l || x) ts) (λ b. k (l || b))

  and_step :
      (f : ℕ) (a : NotExpr) (t : AndTail) (rest : List Token)
      → NotIs f a (and_tail_tokens t rest)
      → AndTailIs f t rest
      → AndIs (suc f) (factors a t) rest
  unfolding parse_or or_tokens or_value
  and_step f a t rest h k =
      ap (λ r. r >>= λ (l, ts). and_loop lookup f l ts) h
      ∙ then_and (not_value lookup a) (and_tail_value lookup t) (and_tail_tokens t rest) rest
          (and_loop lookup f) k

  and_end_step : (f : ℕ) (rest : List Token) → 0 < f → NoAnd rest → AndTailIs f and_end rest
  unfolding or_tokens or_value answered
  and_end_step f rest p h l = and_loop-end f l rest p h ∙ ap (λ b. ok (b, rest)) (and-true l)
    where
      and-true : (b : Bool) → b ≡ (b && true)
      and-true true = refl
      and-true false = refl

  and_more_step :
      (f : ℕ) (a : NotExpr) (t : AndTail) (rest : List Token)
      → NotIs f a (and_tail_tokens t rest)
      → AndTailIs f t rest
      → AndTailIs (suc f) (and_more a t) rest
  unfolding parse_or or_tokens or_value
  and_more_step f a t rest h k l =
      ap (λ r. r >>= λ (x, ts). and_loop lookup f (l && x) ts) h
      ∙ then_and_more l (not_value lookup a) (and_tail_value lookup t) (and_tail_tokens t rest) rest
          (λ x ts. and_loop lookup f (l && x) ts) (λ b. k (l && b))

  negated_step :
      (f : ℕ) (n : NotExpr) (rest : List Token) → NotIs f n rest → NotIs (suc f) (negated n) rest
  unfolding parse_or or_tokens or_value
  negated_step f n rest h = ap (λ r. r >>= inverted) h ∙ then_inverted (not_value lookup n) rest

  plain_step :
      (f : ℕ) (p : Primary) (rest : List Token) → PrimaryIs f p rest → NotIs (suc f) (plain p) rest
  unfolding or_tokens or_value
  plain_step f p rest h = parse_not-primary f p rest ∙ h

  reference_step : (f : ℕ) (s : Text) (rest : List Token) → PrimaryIs (suc f) (reference s) rest
  unfolding parse_or or_tokens or_value
  reference_step f s rest = refl

  group_step :
      (f : ℕ) (e : OrExpr) (rest : List Token)
      → OrIs f e (right_paren ∷ rest)
      → PrimaryIs (suc f) (group e) rest
  unfolding parse_or or_tokens or_value
  group_step f e rest h = ap (λ r. r >>= closed) h ∙ then_closed (or_value lookup e) rest

  mutual
    unfolding or_tokens

    or_complete :
        (e : OrExpr) (f : ℕ) (rest : List Token)
        → 4 * length (or_tokens e rest) + 4 ≤ f
        → NoOr rest
        → NoAnd rest
        → OrIs f e rest
    or_complete (alternatives a t) zero rest h o n = absurd (omega arith)
    or_complete (alternatives a t) (suc f) rest h o n =
        or_step f a t rest
          (and_complete a f (or_tail_tokens t rest) (omega arith) (NoAnd-or_tail t rest n))
          (or_tail_complete t f rest (omega (arith, length-and_tokens a (or_tail_tokens t rest))) o
            n)

    or_tail_complete :
        (t : OrTail) (f : ℕ) (rest : List Token)
        → 4 * length (or_tail_tokens t rest) + 1 ≤ f
        → NoOr rest
        → NoAnd rest
        → OrTailIs f t rest
    or_tail_complete or_end f rest h o n = or_end_step f rest (omega arith) o
    or_tail_complete (or_more a t) zero rest h o n = absurd (omega arith)
    or_tail_complete (or_more a t) (suc f) rest h o n =
        or_more_step f a t rest
          (and_complete a f (or_tail_tokens t rest) (omega arith) (NoAnd-or_tail t rest n))
          (or_tail_complete t f rest (omega (arith, length-and_tokens a (or_tail_tokens t rest))) o
            n)

    and_complete :
        (e : AndExpr) (f : ℕ) (rest : List Token)
        → 4 * length (and_tokens e rest) + 3 ≤ f
        → NoAnd rest
        → AndIs f e rest
    and_complete (factors a t) zero rest h n = absurd (omega arith)
    and_complete (factors a t) (suc f) rest h n =
        and_step f a t rest (not_complete a f (and_tail_tokens t rest) (omega arith)) (
          and_tail_complete t f rest (omega (arith, length-not_tokens a (and_tail_tokens t rest)))
            n)

    and_tail_complete :
        (t : AndTail) (f : ℕ) (rest : List Token)
        → 4 * length (and_tail_tokens t rest) + 1 ≤ f
        → NoAnd rest
        → AndTailIs f t rest
    and_tail_complete and_end f rest h n = and_end_step f rest (omega arith) n
    and_tail_complete (and_more a t) zero rest h n = absurd (omega arith)
    and_tail_complete (and_more a t) (suc f) rest h n =
        and_more_step f a t rest (not_complete a f (and_tail_tokens t rest) (omega arith)) (
          and_tail_complete t f rest (omega (arith, length-not_tokens a (and_tail_tokens t rest)))
            n)

    not_complete :
        (e : NotExpr) (f : ℕ) (rest : List Token)
        → 4 * length (not_tokens e rest) + 2 ≤ f
        → NotIs f e rest
    not_complete (negated n) zero rest h = absurd (omega arith)
    not_complete (negated n) (suc f) rest h =
        negated_step f n rest (not_complete n f rest (omega arith))
    not_complete (plain p) zero rest h = absurd (omega arith)
    not_complete (plain p) (suc f) rest h =
        plain_step f p rest (primary_complete p f rest (omega arith))

    primary_complete :
        (e : Primary) (f : ℕ) (rest : List Token)
        → 4 * length (primary_tokens e rest) + 1 ≤ f
        → PrimaryIs f e rest
    primary_complete (reference s) zero rest h = absurd (omega arith)
    primary_complete (reference s) (suc f) rest h = reference_step f s rest
    primary_complete (group e) zero rest h = absurd (omega arith)
    primary_complete (group e) (suc f) rest h =
        group_step f e rest (or_complete e f (right_paren ∷ rest) (omega arith) tt tt)

-- The answer to a value that may not be known.
abbrev pub verdict : Option Bool → Result Failure Bool
verdict none = err rejected
verdict (some b) = ok b

-- On the tokens of an expression the parser answers with the expression's value, and refuses it exactly
-- when a reference in it is not known.
pub eval_tokens_complete :
    (lookup : Text → Option Bool) (e : OrExpr)
    → eval_tokens lookup (or_tokens e []) ≡ verdict (or_value lookup e)
unfolding eval_tokens
eval_tokens_complete lookup e =
    ap (λ r. r >>= all_read lookup)
      (or_complete lookup e (4 * length (or_tokens e []) + 4) [] (omega arith) tt tt)
    ∙ last (or_value lookup e)
  where
    last : (o : Option Bool) → (answered o [] >>= all_read lookup) ≡ verdict o
    last none = unfold answered in refl
    last (some b) = unfold answered all_read in refl
