-- ===== src/Pattern/Restore/Invariant.antt =====
-- go/yangpattern/runtime_program.go: the invariant of the search in `RestoreWithLimits`.
use cambium.Pattern.Checks.{RestoreError, within}
use cambium.Prelude.{
  ℕ, ◌+◌, ◌≤◌, ◌≡◌, refl, ◌∙◌, ◌≢◌, ◌⊎◌, inl, inr, Option, none, some, List, arith, length, All,
  All-map,
}
use cambium.Prelude.Result.{Result, ok}
use cambium.Pattern.Program.{NodeData}
use cambium.Pattern.Restore.{node_at, Search, Color, white, grey, black}
use cambium.Pattern.Restore.Step.{IsShaped, Fresh, RightAt}
use cambium.Pattern.{ResourceError}

pub Color-cases : (c : Color) → (c ≡ white) ⊎ (c ≡ grey) ⊎ (c ≡ black)
Color-cases white = inl refl
Color-cases grey = inr (inl refl)
Color-cases black = inr (inr refl)

pub within-ok {ℓ} :
    {A : Type ℓ} (e : Option ResourceError) (next : Result RestoreError A) {a : A}
    → within e next ≡ ok a
    → (e ≡ none) × (next ≡ ok a)
unfolding within
within-ok none next h = (refl, h)
within-ok (some e) next h = cc

-- Every node of the table passed the tests on one node.
abbrev pub AllShaped : List NodeData → Type 0
AllShaped nodes = (id : ℕ) (n : NodeData) → node_at nodes id ≡ some n → IsShaped (length nodes) n

-- The two searches agree about the node, which is black.
abbrev pub SameAt : Search → Search → ℕ → Type 0
SameAt s t j =
    (t.color j ≡ black)
    × (t.nullable j ≡ s.nullable j)
    × (t.minimum j ≡ s.minimum j)
    × (t.depths j ≡ s.depths j)

-- Black and grey nodes stay as they are.
pub record Grows (s t : Search) : Type 0 where
  pub blacks : (j : ℕ) → s.color j ≡ black → SameAt s t j
  pub greys : (j : ℕ) → s.color j ≡ grey → t.color j ≡ grey

pub Grows-refl : (s : Search) → Grows s s
Grows-refl s = record { blacks = λ j h. (h, refl, refl, refl); greys = λ j h. h }

pub Grows-trans : (s t u : Search) → Grows s t → Grows t u → Grows s u
Grows-trans s t u g h = record {
  blacks = λ j b.
      let (c, n, m, d) = g.blacks j b in
      let (c', n', m', d') = h.blacks j c in (c', n' ∙ n, m' ∙ m, d' ∙ d);
  greys = λ j b. h.greys j (g.greys j b);
}

module _ (limit : ℕ) (nodes : List NodeData) where
  -- A child is black and less deep than its parent.
  abbrev pub Under : Search → ℕ → ℕ → Type 0
  Under s height c = (s.color c ≡ black) × (s.depths c + 1 ≤ height)

  pub record Settled (s : Search) (id : ℕ) : Type 0 where
    pub node : NodeData
    pub here : node_at nodes id ≡ some node
    pub facts : RightAt nodes s id
    pub children : All (Under s (s.depths id)) node.children
    pub shallow : s.depths id ≤ limit
    pub positive : 1 ≤ s.depths id

  pub record Invariant (s : Search) : Type 0 where
    pub settled : (id : ℕ) → s.color id ≡ black → Settled s id
    pub fresh : (id : ℕ) → s.color id ≢ black → Fresh s id

  -- What is settled stays so while black nodes stay as they are.
  pub Settled-Grows :
      (s t : Search) (id : ℕ)
      → ((j : ℕ) → s.color j ≡ black → SameAt s t j)
      → s.color id ≡ black
      → Settled s id
      → Settled t id
  Settled-Grows s t id g b st =
      let (c, n, m, d) = g id b in
      record {
        node = st.node;
        here = st.here;
        facts = rw (n, m) st.facts;
        children =
            All-map (Under s (s.depths id)) (Under t (t.depths id))
              (λ j u. let (c', n', m', d') = g j u.0 in (c', omega (arith, u.1, d, d')))
              st.node.children st.children;
        shallow = omega (arith, st.shallow, d);
        positive = omega (arith, st.positive, d);
      }
