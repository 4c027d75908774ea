-- ===== src/Pattern/Restore/Visiting.antt =====
-- go/yangpattern/runtime_program.go: the closure `visit` of `RestoreWithLimits` and the invariant of the
-- search.
use cambium.Pattern.Checks.{RestoreError}
use cambium.Pattern.Restore.Step.{Fresh, RightAt, Finished, set_same, same_or_not, set_other}
use cambium.Pattern.{Ledger}
use cambium.Prelude.{
  All-map, sym, ◌≢◌, some, refl, inr, inl, ◌∙◌, subst, ℕ, ◌+◌, ◌≤◌, ◌≡◌, List, [], ◌∷◌, arith, All,
}
use cambium.Prelude.Result.{Result, ok, >>=-eq-ok, ok-injective}
use cambium.Pattern.Program.{NodeData}
use cambium.Pattern.Restore.{
  blackened, node_at, grey, set, white, greyed, Search, black, visit_children, max_of,
}
use cambium.Pattern.Restore.Invariant.{
  Settled, Settled-Grows, SameAt, Grows, Grows-refl, Grows-trans, Under, Invariant,
}

module _ (limit : ℕ) (nodes : List NodeData) where
  -- What a successful visit of a node at a depth gives.
  pub record Visited (s t : Search) (id depth : ℕ) : Type 0 where
    pub invariant : Invariant limit nodes t
    pub grows : Grows s t
    pub done : t.color id ≡ black
    pub room : depth + t.depths id ≤ limit + 1

  -- What the loop over some children gives, with a height in front of it and one behind it.
  pub record VisitedChildren (s : Search) (cs : List ℕ) (depth height : ℕ) (p : Search × ℕ)
      : Type 0 where
    pub invariant : Invariant limit nodes (p.0)
    pub grows : Grows s (p.0)
    pub under : All (Under limit nodes p.0 p.1) cs
    pub rising : height ≤ p.1
    pub room : height + depth ≤ limit + 1 → p.1 + depth ≤ limit + 1

  pub visit_children_lem :
      (go : Search → ℕ → Result RestoreError Search) (depth : ℕ)
      → ((s : Search) (c : ℕ) (t : Search)
          → Invariant limit nodes s
          → go s c ≡ ok t
          → Visited s t c (depth + 1))
      → (s : Search) (cs : List ℕ) (height : ℕ) (p : Search × ℕ) → Invariant limit nodes s
      → visit_children go s cs height ≡ ok p
      → VisitedChildren s cs depth height p
  unfolding visit_children max_of
  visit_children_lem go depth each s [] height p i h =
      subst (λ q. VisitedChildren s [] depth height q) (ok-injective h)
        (record {
          invariant = i;
          grows = Grows-refl s;
          under = tt;
          rising = omega arith;
          room = λ r. r;
        })
  visit_children_lem go depth each s (c ∷ cs) height p i h =
      let (t, e, h') =
        >>=-eq-ok (go s c) (λ t. visit_children go t cs (max_of height (t.depths c + 1))) h in
      let v = each s c t i e in
      let rest =
        visit_children_lem go depth each t cs (max_of height (t.depths c + 1)) p (v.invariant) h' in
      let (b, n, m, d) = rest.grows.blacks c v.done in
      record {
        invariant = rest.invariant;
        grows = Grows-trans s t p.0 v.grows rest.grows;
        under = ((b, max_bound height (t.depths c) p.1 (p.0.depths c) rest.rising d), rest.under);
        rising = max_rising height (t.depths c) p.1 rest.rising;
        room = λ r. rest.room (max_room height (t.depths c) depth limit r v.room);
      }
    where
      max_bound : (a b m e : ℕ) → max_of a (b + 1) ≤ m → e ≡ b → e + 1 ≤ m
      max_bound a b m e h k = ground arith

      max_rising : (a b m : ℕ) → max_of a (b + 1) ≤ m → a ≤ m
      max_rising a b m h = ground arith

      max_room : (a b d l : ℕ) → a + d ≤ l + 1 → d + 1 + b ≤ l + 1 → max_of a (b + 1) + d ≤ l + 1
      max_room a b d l h k = ground arith

  -- A white node turns grey, and the invariant stays.
  pub greyed-Invariant :
      (s : Search) (id : ℕ) (b : Ledger)
      → s.color id ≡ white
      → Invariant limit nodes s
      → Invariant limit nodes (greyed id s b)
  unfolding greyed
  greyed-Invariant s id b w i = record {
    settled = λ j c. elim (same_or_not j id) [
      | inl e ↦
          let x = set_same s.color id grey in
          let y : set s.color id grey id ≡ black = subst (λ k. set s.color id grey k ≡ black) e c in
          absurd (cc)
      | inr d ↦
          let o = set_other s.color id grey j d in
          let q : s.color j ≡ black = cc in
          Settled-Grows limit nodes s (record s { color = set s.color id grey; ledger = b }) j
            (greyed_same s id b w) q (i.settled j q)
    ];
    fresh = λ j c. i.fresh j (λ q. c ((greyed_same s id b w j q).0));
  }
    where
      greyed_same :
          (s : Search) (id : ℕ) (b : Ledger)
          → s.color id ≡ white
          → (j : ℕ) → s.color j ≡ black
          → SameAt s (record s { color = set s.color id grey; ledger = b }) j
      greyed_same s id b w j q = (
        set_other s.color id grey j (λ e. let z = subst (λ k. s.color k ≡ black) e q in absurd (cc))
            ∙ q,
        refl,
        refl,
        refl,
      )

  module _ (id : ℕ) (n : NodeData) (here : node_at nodes id ≡ some n) (t u : Search) (height : ℕ)
      (i : Invariant limit nodes t) (g : t.color id ≡ grey)
      (under : All (Under limit nodes t height) n.children) (f : Finished nodes t u id)
      (low : height ≤ limit) (one : 1 ≤ height) where
    not_this : (j : ℕ) → t.color j ≡ black → j ≢ id
    not_this j b e = let z = subst (λ k. t.color k ≡ black) e b in absurd (cc)

    pub blackened_same : (j : ℕ) → t.color j ≡ black → SameAt t (blackened id height u) j
    unfolding blackened
    blackened_same j b =
        let d = not_this j b in
        let (x, y) = f.others j d in
        (
          set_other u.color id black j d ∙ f.colors j ∙ b,
          x,
          y,
          set_other u.depths id height j d ∙ f.depths j,
        )

    pub blackened_other : (j : ℕ) → j ≢ id → (blackened id height u).color j ≡ t.color j
    unfolding blackened
    blackened_other j d = set_other u.color id black j d ∙ f.colors j

    pub blackened_this :
        ((blackened id height u).color id ≡ black) × ((blackened id height u).depths id ≡ height)
    unfolding blackened
    blackened_this = (set_same u.color id black, set_same u.depths id height)

    blackened_facts : RightAt nodes (blackened id height u) id
    unfolding blackened
    blackened_facts = f.right

    blackened-Fresh : (j : ℕ) → j ≢ id → Fresh t j → Fresh (blackened id height u) j
    unfolding blackened
    blackened-Fresh j d h = let (x, y) = f.others j d in (x ∙ h.0, y ∙ h.1)

    pub blackened-Invariant : Invariant limit nodes (blackened id height u)
    blackened-Invariant = record {
      settled = λ j c. elim (same_or_not j id) [
        | inl e ↦
            subst (λ k. Settled limit nodes (blackened id height u) k) (sym e)
              (record {
                node = n;
                here = here;
                facts = blackened_facts;
                children =
                    All-map (Under limit nodes t height)
                      (Under limit nodes (blackened id height u)
                        ((blackened id height u).depths id))
                      (λ k v.
                        let (b, x, y, d) = blackened_same k v.0 in
                        (b, omega (arith, d, blackened_this.1, v.1)))
                      n.children under;
                shallow = omega (arith, blackened_this.1, low);
                positive = omega (arith, blackened_this.1, one);
              })
        | inr d ↦
            let q : t.color j ≡ black = sym (blackened_other j d) ∙ c in
            Settled-Grows limit nodes t (blackened id height u) j blackened_same q (i.settled j q)
      ];
      fresh = λ j c. elim (same_or_not j id) [
        | inl e ↦
            absurd
              (c (subst (λ k. (blackened id height u).color k ≡ black) (sym e) blackened_this.0))
        | inr d ↦ blackened-Fresh j d (i.fresh j (λ q. c (blackened_other j d ∙ q)))
      ];
    }
