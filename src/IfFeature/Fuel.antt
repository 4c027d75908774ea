-- ===== src/IfFeature/Fuel.antt =====
-- go/cambium/schema.go: the fuel of the recursion in `ifFeatureParser`.
use cambium.Prelude.Result.{◌>>=◌, err, ok}
use cambium.Prelude.{
  refl, inr, inl, ◌⊎◌, ◌≡◌, ℕ, zero, suc, ◌+◌, ◌-◌, ◌*◌, ◌≤◌, Bool, ◌&&◌, ◌||◌, Option, none, some,
  List, [], ◌∷◌, arith, length,
}
use cambium.Strconv.{Text}
use cambium.IfFeature.Tokenizer.{
  Token, ident, not_token, and_token, or_token, left_paren, right_paren,
}
use cambium.IfFeature.{
  all_read, eval_tokens, parse_primary, inverted, and_loop, parse_not, or_loop, parse_and, parse_or,
  answered, closed, Answer, rejected, out_of_fuel,
}

-- An answer with at most `n` tokens left, or a refusal.
abbrev Ends : ℕ → Answer → Type 0
Ends n (ok (v, rest)) = length rest ≤ n
Ends n (err rejected) = Unit
Ends n (err out_of_fuel) = ⊥

Ends-bind :
    (n m : ℕ) (r : Answer) (next : Bool × List Token → Answer)
    → Ends n r
    → ((v : Bool) (rest : List Token) → length rest ≤ n → Ends m (next (v, rest)))
    → Ends m (r >>= next)
Ends-bind n m (ok (v, rest)) next h k = k v rest h
Ends-bind n m (err rejected) next h k = tt
Ends-bind n m (err out_of_fuel) next h k = h

Ends-mono : (n m : ℕ) (r : Answer) → n ≤ m → Ends n r → Ends m r
Ends-mono n m (ok (v, rest)) l h = omega arith
Ends-mono n m (err rejected) l h = tt
Ends-mono n m (err out_of_fuel) l h = h

Ends-closed : (n : ℕ) (v : Bool) (ts : List Token) → length ts ≤ n → Ends n (closed (v, ts))
unfolding closed
Ends-closed n v [] h = tt
Ends-closed n v (right_paren ∷ ts) h = omega arith
Ends-closed n v (t ∷ ts) h = tt

Ends-answered : (o : Option Bool) (ts : List Token) → Ends (length ts) (answered o ts)
unfolding answered
Ends-answered none ts = tt
Ends-answered (some b) ts = omega arith

module _ (lookup : Text → Option Bool) where
  mutual
    unfolding parse_or

    parse_or-Ends :
        (f : ℕ) (ts : List Token)
        → 4 * length ts + 4 ≤ f
        → Ends (length ts - 1) (parse_or lookup f ts)
    parse_or-Ends zero ts h = absurd (omega arith)
    parse_or-Ends (suc f) ts h =
        Ends-bind (length ts - 1) (length ts - 1) (parse_and lookup f ts) _
          (parse_and-Ends f ts (omega arith))
          (λ l mid s.
            Ends-mono (length mid) (length ts - 1) _ s (or_loop-Ends f l mid (omega arith)))

    or_loop-Ends :
        (f : ℕ) (l : Bool) (ts : List Token)
        → 4 * length ts + 1 ≤ f
        → Ends (length ts) (or_loop lookup f l ts)
    or_loop-Ends zero l ts h = absurd (omega arith)
    or_loop-Ends (suc f) l (or_token ∷ ts) h =
        Ends-bind (length ts - 1) (suc (length ts)) (parse_and lookup f ts) _
          (parse_and-Ends f ts (omega arith))
          (λ r mid s.
            Ends-mono (length mid) (suc (length ts)) _ (omega arith)
              (or_loop-Ends f (l || r) mid (omega arith)))
    or_loop-Ends (suc f) l ts h = omega arith

    parse_and-Ends :
        (f : ℕ) (ts : List Token)
        → 4 * length ts + 3 ≤ f
        → Ends (length ts - 1) (parse_and lookup f ts)
    parse_and-Ends zero ts h = absurd (omega arith)
    parse_and-Ends (suc f) ts h =
        Ends-bind (length ts - 1) (length ts - 1) (parse_not lookup f ts) _
          (parse_not-Ends f ts (omega arith))
          (λ l mid s.
            Ends-mono (length mid) (length ts - 1) _ s (and_loop-Ends f l mid (omega arith)))

    and_loop-Ends :
        (f : ℕ) (l : Bool) (ts : List Token)
        → 4 * length ts + 1 ≤ f
        → Ends (length ts) (and_loop lookup f l ts)
    and_loop-Ends zero l ts h = absurd (omega arith)
    and_loop-Ends (suc f) l (and_token ∷ ts) h =
        Ends-bind (length ts - 1) (suc (length ts)) (parse_not lookup f ts) _
          (parse_not-Ends f ts (omega arith))
          (λ r mid s.
            Ends-mono (length mid) (suc (length ts)) _ (omega arith)
              (and_loop-Ends f (l && r) mid (omega arith)))
    and_loop-Ends (suc f) l ts h = omega arith

    parse_not-Ends :
        (f : ℕ) (ts : List Token)
        → 4 * length ts + 2 ≤ f
        → Ends (length ts - 1) (parse_not lookup f ts)
    parse_not-Ends zero ts h = absurd (omega arith)
    parse_not-Ends (suc f) (not_token ∷ ts) h =
        Ends-bind (length ts - 1) (suc (length ts) - 1) (parse_not lookup f ts) inverted
          (parse_not-Ends f ts (omega arith)) (λ v rest s. omega arith)
    parse_not-Ends (suc f) ts h = parse_primary-Ends f ts (omega arith)

    parse_primary-Ends :
        (f : ℕ) (ts : List Token)
        → 4 * length ts + 1 ≤ f
        → Ends (length ts - 1) (parse_primary lookup f ts)
    parse_primary-Ends zero ts h = absurd (omega arith)
    parse_primary-Ends (suc f) (ident text ∷ ts) h =
        Ends-mono (length ts) (suc (length ts) - 1) _ (omega arith) (Ends-answered (lookup text) ts)
    parse_primary-Ends (suc f) (left_paren ∷ ts) h =
        Ends-bind (length ts - 1) (suc (length ts) - 1) (parse_or lookup f ts) closed
          (parse_or-Ends f ts (omega arith))
          (λ v rest s. Ends-closed (suc (length ts) - 1) v rest (omega arith))
    parse_primary-Ends (suc f) ts h = tt

  -- The parser and the test behind it end with a value or with a refusal: the fuel is enough.
  pub eval_tokens_total :
      (ts : List Token)
      → ((v : Bool) × (eval_tokens lookup ts ≡ ok v)) ⊎ (eval_tokens lookup ts ≡ err rejected)
  unfolding eval_tokens
  eval_tokens_total ts =
      go (parse_or lookup (4 * length ts + 4) ts)
        (parse_or-Ends (4 * length ts + 4) ts (omega arith))
    where
      read :
          (v : Bool) (rest : List Token)
          → ((w : Bool) × (all_read lookup (v, rest) ≡ ok w))
            ⊎ (all_read lookup (v, rest) ≡ err rejected)
      read v [] = inl (v, unfold all_read in refl)
      read v (t ∷ rest) = inr (unfold all_read in refl)

      go :
          (r : Answer)
          → Ends (length ts - 1) r
          → ((v : Bool) × ((r >>= all_read lookup) ≡ ok v))
            ⊎ ((r >>= all_read lookup) ≡ err rejected)
      go (ok (v, rest)) h = read v rest
      go (err rejected) h = inr refl
      go (err out_of_fuel) h = absurd h
