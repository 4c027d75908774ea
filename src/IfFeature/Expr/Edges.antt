-- ===== src/IfFeature/Expr/Edges.antt =====
-- go/cambium/schema_iffeature.go: the two ends of a printed expression, which `yangTrimSpace` looks at.
use cambium.IfFeature.Expr.Printing.{print, token_text, Printable, not_separator}
use cambium.Prelude.{
  reverse-reverse, reverse-append, reverse, append_assoc, ℕ, ◌≡◌, refl, sym, ap, ◌∙◌, false, List,
  [], ◌∷◌, ◌++◌, arith, All,
}
use cambium.Strconv.{Text}
use cambium.IfFeature.Tokenizer.{
  yang_trim_space, trim_yang_left, is_yang_space, codes, is_separator, Token, ident, not_token,
  and_token, or_token, left_paren, right_paren,
}

-- A text whose first byte is no space.
pub record Opening (s : Text) : Type 0 where
  pub first : ℕ
  pub behind : Text
  pub front : s ≡ first ∷ behind
  pub first_tight : is_yang_space first ≡ false

-- A text whose last byte is no space.
pub record Ending (s : Text) : Type 0 where
  pub before : Text
  pub last : ℕ
  pub back : s ≡ before ++ (last ∷ [])
  pub last_tight : is_yang_space last ≡ false

pub trim_yang_left-tight :
    (c : ℕ) (s : Text) → is_yang_space c ≡ false → trim_yang_left (c ∷ s) ≡ c ∷ s
unfolding trim_yang_left
trim_yang_left-tight c s h = rw h

pub yang_trim_space-tight : (s : Text) → Opening s → Ending s → yang_trim_space s ≡ s
unfolding yang_trim_space
yang_trim_space-tight s o t =
    ap (λ x. reverse (trim_yang_left (reverse x))) left
    ∙ ap (λ x. reverse (trim_yang_left (reverse x))) t.back
    ∙ ap (λ x. reverse (trim_yang_left x)) (reverse-append t.before (t.last ∷ []))
    ∙ ap reverse (trim_yang_left-tight t.last (reverse t.before) t.last_tight)
    ∙ ap reverse (sym (reverse-append t.before (t.last ∷ [])))
    ∙ reverse-reverse (t.before ++ t.last ∷ [])
    ∙ sym t.back
  where
    left : trim_yang_left s ≡ s
    left =
        ap trim_yang_left o.front
        ∙ trim_yang_left-tight o.first o.behind o.first_tight
        ∙ sym o.front

pub Ending-word : (c : ℕ) (s : Text) → All (λ c. is_separator c ≡ false) (c ∷ s) → Ending (c ∷ s)
Ending-word c [] h = record {
  before = [];
  last = c;
  back = refl;
  last_tight = (not_separator c h.0).0;
}
Ending-word c (d ∷ s) h =
    let e = Ending-word d s h.1 in
    record {
      before = c ∷ e.before;
      last = e.last;
      back = ap (λ x. c ∷ x) e.back;
      last_tight = e.last_tight;
    }

pub Ending-append : (s t : Text) → Ending t → Ending (s ++ t)
Ending-append s t e = record {
  before = s ++ e.before;
  last = e.last;
  back = ap (λ x. s ++ x) e.back ∙ sym (append_assoc s e.before (e.last ∷ []));
  last_tight = e.last_tight;
}

pub Ending-token : (t : Token) → Printable t → Ending (token_text t)
unfolding is_separator
Ending-token (ident []) p = absurd (omega arith)
Ending-token (ident (c ∷ s)) p = Ending-word c s p.1
Ending-token not_token p = Ending-word b'n' (codes "ot") (refl, (refl, (refl, tt)))
Ending-token and_token p = Ending-word b'a' (codes "nd") (refl, (refl, (refl, tt)))
Ending-token or_token p = Ending-word b'o' (codes "r") (refl, (refl, tt))
Ending-token left_paren p = record {
  before = [];
  last = b'(';
  back = refl;
  last_tight = unfold is_yang_space in refl;
}
Ending-token right_paren p = record {
  before = [];
  last = b')';
  back = refl;
  last_tight = unfold is_yang_space in refl;
}

pub Ending-print : (t : Token) (ts : List Token) → All Printable (t ∷ ts) → Ending (print (t ∷ ts))
Ending-print t [] h = Ending-token t h.0
Ending-print t (u ∷ ts) h =
    Ending-append (token_text t) (b' ' ∷ print (u ∷ ts))
      (Ending-append (b' ' ∷ []) (print (u ∷ ts)) (Ending-print u ts h.1))

pub Opening-token : (t : Token) → Printable t → Opening (token_text t)
unfolding is_yang_space
Opening-token (ident []) p = absurd (omega arith)
Opening-token (ident (c ∷ s)) p = record {
  first = c;
  behind = s;
  front = refl;
  first_tight = (not_separator c p.1.0).0;
}
Opening-token not_token p = record {
  first = b'n';
  behind = codes "ot";
  front = refl;
  first_tight = refl;
}
Opening-token and_token p = record {
  first = b'a';
  behind = codes "nd";
  front = refl;
  first_tight = refl;
}
Opening-token or_token p = record {
  first = b'o';
  behind = codes "r";
  front = refl;
  first_tight = refl;
}
Opening-token left_paren p = record { first = b'('; behind = []; front = refl; first_tight = refl }
Opening-token right_paren p = record { first = b')'; behind = []; front = refl; first_tight = refl }

pub Opening-print :
    (t : Token) (ts : List Token) → All Printable (t ∷ ts) → Opening (print (t ∷ ts))
Opening-print t [] h = Opening-token t h.0
Opening-print t (u ∷ ts) h =
    let o = Opening-token t h.0 in
    record {
      first = o.first;
      behind = o.behind ++ (b' ' ∷ print (u ∷ ts));
      front = ap (λ x. x ++ (b' ' ∷ print (u ∷ ts))) o.front;
      first_tight = o.first_tight;
    }
