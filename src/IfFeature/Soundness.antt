-- ===== src/IfFeature/Soundness.antt =====
-- go/cambium/schema.go: what `ifFeatureParser` accepts, against the grammar.
use cambium.IfFeature.{
  all_read, eval_tokens, parse_primary, and_loop, parse_not, or_loop, parse_and, parse_or, answered,
  closed, inverted, Answer,
}
use cambium.Strconv.{Text}
use cambium.Prelude.Result.{>>=-eq-ok, ok-injective, ok, Result}
use cambium.Prelude.{
  ℕ, zero, suc, ◌+◌, ◌*◌, ◌≡◌, refl, ap, ◌∙◌, Bool, true, false, ◌&&◌, ◌||◌, Option, none, some,
  List, [], ◌∷◌, length,
}
use cambium.IfFeature.Tokenizer.{
  Token, ident, not_token, and_token, or_token, left_paren, right_paren,
}
use cambium.IfFeature.Grammar.{
  plain, negated_lem, both_and, reference, group, negated, and_end, and_more_lem, and_value_lem,
  both_or, and_more, factors, or_more_lem, and_tail_value, or_tail_value, primary_value, not_value,
  and_value, both, primary_tokens, not_tokens, and_tail_tokens, and_tokens, or_tail_tokens,
  or_value, or_more, Primary, NotExpr, AndTail, AndExpr, OrTail, or_tokens, OrExpr, alternatives,
  or_end,
}

ok-pair :
    {E : Type 0} {A B : Type 0} {a c : A} {b d : B}
    → ◌≡◌ {A = Result E (A × B)} (ok (a, b)) (ok (c, d))
    → (a ≡ c) × (b ≡ d)
ok-pair h = (ap (λ p. p.0) (ok-injective h), ap (λ p. p.1) (ok-injective h))

module _ (lookup : Text → Option Bool) where
  abbrev SoundOr : List Token → Bool → List Token → Type 0
  SoundOr ts v rest = (e : OrExpr) × (ts ≡ or_tokens e rest) × (or_value lookup e ≡ some v)

  abbrev SoundOrTail : Bool → List Token → Bool → List Token → Type 0
  SoundOrTail l ts v rest =
      (t : OrTail) × (ts ≡ or_tail_tokens t rest)
      × (both ◌||◌ (some l) (or_tail_value lookup t) ≡ some v)

  abbrev SoundAnd : List Token → Bool → List Token → Type 0
  SoundAnd ts v rest = (e : AndExpr) × (ts ≡ and_tokens e rest) × (and_value lookup e ≡ some v)

  abbrev SoundAndTail : Bool → List Token → Bool → List Token → Type 0
  SoundAndTail l ts v rest =
      (t : AndTail) × (ts ≡ and_tail_tokens t rest)
      × (both ◌&&◌ (some l) (and_tail_value lookup t) ≡ some v)

  abbrev SoundNot : List Token → Bool → List Token → Type 0
  SoundNot ts v rest = (e : NotExpr) × (ts ≡ not_tokens e rest) × (not_value lookup e ≡ some v)

  abbrev SoundPrimary : List Token → Bool → List Token → Type 0
  SoundPrimary ts v rest =
      (e : Primary) × (ts ≡ primary_tokens e rest) × (primary_value lookup e ≡ some v)

  -- The cases that put two parts together.
  or_join :
      (ts mid rest : List Token) (l v : Bool)
      → SoundAnd ts l mid
      → SoundOrTail l mid v rest
      → SoundOr ts v rest
  or_join ts mid rest l v (a, ta, va) (t, tt', vt) = (
    alternatives a t,
    unfold or_tokens in (ta ∙ ap (and_tokens a) tt'),
    unfold or_value in rw va vt,
  )

  or_tail_join :
      (ts mid rest : List Token) (l r v : Bool)
      → SoundAnd ts r mid
      → SoundOrTail (l || r) mid v rest
      → SoundOrTail l (or_token ∷ ts) v rest
  or_tail_join ts mid rest l r v (a, ta, va) (t, tt', vt) = (
    or_more a t,
    unfold or_tokens in ap (λ s. or_token ∷ s) (ta ∙ ap (and_tokens a) tt'),
    rw (or_more_lem lookup a t, va) (both_or l r (or_tail_value lookup t) ∙ vt),
  )

  and_join :
      (ts mid rest : List Token) (l v : Bool)
      → SoundNot ts l mid
      → SoundAndTail l mid v rest
      → SoundAnd ts v rest
  and_join ts mid rest l v (a, ta, va) (t, tt', vt) = (
    factors a t,
    unfold or_tokens in (ta ∙ ap (not_tokens a) tt'),
    rw (and_value_lem lookup a t, va) vt,
  )

  and_tail_join :
      (ts mid rest : List Token) (l r v : Bool)
      → SoundNot ts r mid
      → SoundAndTail (l && r) mid v rest
      → SoundAndTail l (and_token ∷ ts) v rest
  and_tail_join ts mid rest l r v (a, ta, va) (t, tt', vt) = (
    and_more a t,
    unfold or_tokens in ap (λ s. and_token ∷ s) (ta ∙ ap (not_tokens a) tt'),
    rw (and_more_lem lookup a t, va) (both_and l r (and_tail_value lookup t) ∙ vt),
  )

  -- What is left when a loop ends.
  or_stop :
      (l v : Bool) (ts rest : List Token)
      → ◌≡◌ {A = Answer} (ok (l, ts)) (ok (v, rest))
      → SoundOrTail l ts v rest
  or_stop l v ts rest h =
      let (e, e') = ok-pair h in
      (or_end, unfold or_tokens in e', unfold or_value in rw e (or-false v))
    where
      or-false : (b : Bool) → some (b || false) ≡ some b
      or-false true = refl
      or-false false = refl

  and_stop :
      (l v : Bool) (ts rest : List Token)
      → ◌≡◌ {A = Answer} (ok (l, ts)) (ok (v, rest))
      → SoundAndTail l ts v rest
  and_stop l v ts rest h =
      let (e, e') = ok-pair h in
      (and_end, unfold or_tokens in e', unfold or_value in rw e (and-true v))
    where
      and-true : (b : Bool) → some (b && true) ≡ some b
      and-true true = refl
      and-true false = refl

  not_join :
      (ts mid rest : List Token) (l v : Bool)
      → SoundNot ts l mid
      → inverted (l, mid) ≡ ok (v, rest)
      → SoundNot (not_token ∷ ts) v rest
  unfolding inverted
  not_join ts mid rest l v (n, tn, vn) h =
      let (e, e') = ok-pair h in
      (
        negated n,
        unfold or_tokens in ap (λ s. not_token ∷ s) (tn ∙ ap (not_tokens n) e'),
        rw (negated_lem lookup n, vn) (ap some e),
      )

  group_join :
      (ts mid rest : List Token) (l v : Bool)
      → SoundOr ts l mid
      → closed (l, mid) ≡ ok (v, rest)
      → SoundPrimary (left_paren ∷ ts) v rest
  unfolding closed
  group_join ts (right_paren ∷ mid) rest l v (e, te, ve) h =
      let (q, q') = ok-pair h in
      (
        group e,
        unfold or_tokens in
            ap (λ s. left_paren ∷ s) (te ∙ ap (λ s. or_tokens e (right_paren ∷ s)) q'),
        unfold or_value in ve ∙ ap some q,
      )
  group_join ts mid rest l v s h = absurd (cc)

  reference_join :
      (text : Text) (o : Option Bool) (ts rest : List Token) (v : Bool)
      → lookup text ≡ o
      → answered o ts ≡ ok (v, rest)
      → SoundPrimary (ident text ∷ ts) v rest
  unfolding answered
  reference_join text none ts rest v q h = absurd (cc)
  reference_join text (some b) ts rest v q h =
      let (e, e') = ok-pair h in
      (
        reference text,
        unfold or_tokens in ap (λ s. ident text ∷ s) e',
        unfold or_value in q ∙ ap some e,
      )

  plain_join : (ts rest : List Token) (v : Bool) → SoundPrimary ts v rest → SoundNot ts v rest
  plain_join ts rest v (p, tp, vp) = (plain p, unfold or_tokens in tp, unfold or_value in vp)

  mutual
    unfolding parse_or

    parse_or_sound :
        (f : ℕ) (ts : List Token) (v : Bool) (rest : List Token)
        → parse_or lookup f ts ≡ ok (v, rest)
        → SoundOr ts v rest
    parse_or_sound zero ts v rest h = absurd (cc)
    parse_or_sound (suc f) ts v rest h =
        let ((l, mid), e, h') = >>=-eq-ok (parse_and lookup f ts) _ h in
        or_join ts mid rest l v (parse_and_sound f ts l mid e) (or_loop_sound f l mid v rest h')

    or_loop_sound :
        (f : ℕ) (l : Bool) (ts : List Token) (v : Bool) (rest : List Token)
        → or_loop lookup f l ts ≡ ok (v, rest)
        → SoundOrTail l ts v rest
    or_loop_sound zero l ts v rest h = absurd (cc)
    or_loop_sound (suc f) l (or_token ∷ ts) v rest h =
        let ((r, mid), e, h') = >>=-eq-ok (parse_and lookup f ts) _ h in
        or_tail_join ts mid rest l r v (parse_and_sound f ts r mid e)
          (or_loop_sound f (l || r) mid v rest h')
    or_loop_sound (suc f) l ts v rest h = or_stop l v ts rest h

    parse_and_sound :
        (f : ℕ) (ts : List Token) (v : Bool) (rest : List Token)
        → parse_and lookup f ts ≡ ok (v, rest)
        → SoundAnd ts v rest
    parse_and_sound zero ts v rest h = absurd (cc)
    parse_and_sound (suc f) ts v rest h =
        let ((l, mid), e, h') = >>=-eq-ok (parse_not lookup f ts) _ h in
        and_join ts mid rest l v (parse_not_sound f ts l mid e) (and_loop_sound f l mid v rest h')

    and_loop_sound :
        (f : ℕ) (l : Bool) (ts : List Token) (v : Bool) (rest : List Token)
        → and_loop lookup f l ts ≡ ok (v, rest)
        → SoundAndTail l ts v rest
    and_loop_sound zero l ts v rest h = absurd (cc)
    and_loop_sound (suc f) l (and_token ∷ ts) v rest h =
        let ((r, mid), e, h') = >>=-eq-ok (parse_not lookup f ts) _ h in
        and_tail_join ts mid rest l r v (parse_not_sound f ts r mid e)
          (and_loop_sound f (l && r) mid v rest h')
    and_loop_sound (suc f) l ts v rest h = and_stop l v ts rest h

    parse_not_sound :
        (f : ℕ) (ts : List Token) (v : Bool) (rest : List Token)
        → parse_not lookup f ts ≡ ok (v, rest)
        → SoundNot ts v rest
    parse_not_sound zero ts v rest h = absurd (cc)
    parse_not_sound (suc f) (not_token ∷ ts) v rest h =
        let ((l, mid), e, h') = >>=-eq-ok (parse_not lookup f ts) inverted h in
        not_join ts mid rest l v (parse_not_sound f ts l mid e) h'
    parse_not_sound (suc f) ts v rest h = plain_join ts rest v (parse_primary_sound f ts v rest h)

    parse_primary_sound :
        (f : ℕ) (ts : List Token) (v : Bool) (rest : List Token)
        → parse_primary lookup f ts ≡ ok (v, rest)
        → SoundPrimary ts v rest
    parse_primary_sound zero ts v rest h = absurd (cc)
    parse_primary_sound (suc f) (ident text ∷ ts) v rest h =
        reference_join text (lookup text) ts rest v refl h
    parse_primary_sound (suc f) (left_paren ∷ ts) v rest h =
        let ((l, mid), e, h') = >>=-eq-ok (parse_or lookup f ts) closed h in
        group_join ts mid rest l v (parse_or_sound f ts l mid e) h'
    parse_primary_sound (suc f) ts v rest h = absurd (cc)

  -- If the parser answers with a value, the tokens are those of an expression of the grammar, and
  -- the value is that of the expression.
  pub eval_tokens_sound :
      (ts : List Token) (v : Bool)
      → eval_tokens lookup ts ≡ ok v
      → (e : OrExpr) × (ts ≡ or_tokens e []) × (or_value lookup e ≡ some v)
  unfolding eval_tokens all_read
  eval_tokens_sound ts v h =
      let ((l, rest), e, h') =
        >>=-eq-ok (parse_or lookup (4 * length ts + 4) ts) (all_read lookup) h in
      done l rest (parse_or_sound (4 * length ts + 4) ts l rest e) h'
    where
      done :
          (l : Bool) (rest : List Token)
          → SoundOr ts l rest
          → all_read lookup (l, rest) ≡ ok v
          → (e : OrExpr) × (ts ≡ or_tokens e []) × (or_value lookup e ≡ some v)
      done l [] (e, te, ve) q = (e, te, ve ∙ ap some (ok-injective q))
      done l (t ∷ rest) s q = absurd (cc)
