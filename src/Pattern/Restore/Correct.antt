-- ===== src/Pattern/Restore/Correct.antt =====
-- go/yangpattern/runtime_program.go: the whole search of `RestoreWithLimits`, by induction on its fuel.
use cambium.Pattern.Checks.{spent, RestoreError}
use cambium.Pattern.Charging.{limit_error-none}
use cambium.Prelude.{
  zero, inr, inl, ◌-◌, suc, ◌^◌, ◌<◌, subst, ℕ, ◌+◌, ◌≤◌, ◌≡◌, refl, sym, ◌∙◌, ◌≢◌, Option, none,
  some, List, arith, All-map,
}
use cambium.Prelude.Result.{Result, ok, >>=-eq-ok, ok-injective, ◌>>=◌}
use cambium.Pattern.Program.{NodeData}
use cambium.Pattern.Restore.{
  visit_all, visit, node_at, Search, Color, white, grey, black, finish, visit_children, visit_node,
  blackened, greyed,
}
use cambium.Pattern.Restore.Step.{same_or_not, finish-Right, RightAt, set_same, set_other}
use cambium.Pattern.Restore.Invariant.{
  Color-cases, Grows-trans, Grows-refl, within-ok, Grows, AllShaped, SameAt, Under, Invariant,
}
use cambium.Pattern.Restore.Visiting.{
  Visited, VisitedChildren, visit_children_lem, greyed-Invariant, blackened-Invariant,
  blackened_same, blackened_other, blackened_this,
}
use cambium.Pattern.{charge, of_depth, restore_validate, add_sat, limit_error, Ledger}

module _ (limit : ℕ) (nodes : List NodeData) (shaped : AllShaped nodes) where
  module _ (s : Search) (id : ℕ) (b : Ledger) (w : s.color id ≡ white) where
    other_color : (j : ℕ) (c : Color) → c ≢ white → s.color j ≡ c → (greyed id s b).color j ≡ c
    unfolding greyed
    other_color j c d q =
        set_other s.color id grey j (λ e. let z = subst (λ k. s.color k ≡ c) e q in d (sym z ∙ w))
        ∙ q

    this_color : (greyed id s b).color id ≡ grey
    unfolding greyed
    this_color = set_same s.color id grey

    greyed_same : (j : ℕ) → s.color j ≡ black → SameAt s (greyed id s b) j
    greyed_same j q = (
      other_color j black (λ e. absurd (cc)) q,
      unfold greyed in refl,
      unfold greyed in refl,
      unfold greyed in refl,
    )

    greyed_grey : (j : ℕ) → s.color j ≡ grey → ((greyed id s b).color j ≡ grey) × (j ≢ id)
    greyed_grey j q = (
      other_color j grey (λ e. absurd (cc)) q,
      λ e. let z = subst (λ k. s.color k ≡ grey) e q in absurd (cc),
    )

    closed :
        (n : NodeData) (depth : ℕ) (t u : Search) (height : ℕ)
        → node_at nodes id ≡ some n
        → 1 ≤ depth
        → depth ≤ limit
        → VisitedChildren limit nodes (greyed id s b) n.children depth 1 (t, height)
        → finish n n.op n.children t id ≡ ok u
        → Visited limit nodes s (blackened id height u) id depth
    closed n depth t u height here l0 l c h =
        let g = c.grows.greys id this_color in
        let room = c.room (omega (arith, l)) in
        let low : height ≤ limit = omega (arith, room, l0) in
        let fresh = c.invariant.fresh id (λ q. absurd (cc)) in
        let right =
          All-map (Under limit nodes t height) (RightAt nodes t)
            (λ k v. (c.invariant.settled k v.0).facts) n.children c.under in
        let f =
          finish-Right nodes id n here (shaped id n here) n.op n.children t u refl refl fresh right
            h in
        let this =
          blackened_this limit nodes id n here t u height c.invariant g c.under f low c.rising in
        let same =
          blackened_same limit nodes id n here t u height c.invariant g c.under f low c.rising in
        let other =
          blackened_other limit nodes id n here t u height c.invariant g c.under f low c.rising in
        record {
          invariant =
              blackened-Invariant limit nodes id n here t u height c.invariant g c.under f low
                c.rising;
          grows = record {
            blacks = λ j q.
                let (c1, n1, m1, d1) = greyed_same j q in
                let (c2, n2, m2, d2) = c.grows.blacks j c1 in
                let (c3, n3, m3, d3) = same j c2 in (c3, n3 ∙ n2 ∙ n1, m3 ∙ m2 ∙ m1, d3 ∙ d2 ∙ d1);
            greys = λ j q. let (k, d) = greyed_grey j q in other j d ∙ c.grows.greys j k;
          };
          done = this.0;
          room = omega (arith, room, this.1);
        }

  visit_node_lem :
      (go : Search → ℕ → Result RestoreError Search) (depth : ℕ)
      → ((s : Search) (c : ℕ) (t : Search)
          → Invariant limit nodes s
          → go s c ≡ ok t
          → Visited limit nodes s t c (depth + 1))
      → (s : Search) (id : ℕ) (b : Ledger) (o : Option NodeData) (v : Search) → 1 ≤ depth
      → depth ≤ limit
      → node_at nodes id ≡ o
      → s.color id ≡ white
      → Invariant limit nodes s
      → visit_node go o (greyed id s b) id ≡ ok v
      → Visited limit nodes s v id depth
  unfolding visit_node
  visit_node_lem go depth each s id b none v l0 l e w i h = absurd (cc)
  visit_node_lem go depth each s id b (some n) v l0 l e w i h =
      let ((t, height), hc, h') =
        >>=-eq-ok (visit_children go (greyed id s b) n.children 1)
          (λ p. finish n n.op n.children p.0 id >>= λ u. ok (blackened id p.1 u)) h in
      let (u, hf, h'') =
        >>=-eq-ok (finish n n.op n.children t id) (λ u. ok (blackened id height u)) h' in
      let c =
        visit_children_lem limit nodes go depth each (greyed id s b) n.children 1 (t, height)
          (greyed-Invariant limit nodes s id b w i) hc in
      subst (λ x. Visited limit nodes s x id depth) (ok-injective h'')
        (closed s id b w n depth t u height e l0 l c hf)

  module _ (small : limit < 2 ^ 63) where
    -- A black node that is met again: nothing changes, and the limit is kept.
    black_room :
        (depth d : ℕ)
        → 1 ≤ depth
        → depth ≤ limit
        → d ≤ limit
        → limit_error restore_validate of_depth limit (add_sat depth d - 1) ≡ none
        → depth + d ≤ limit + 1
    unfolding limit_error add_sat
    black_room depth d l0 l k h = ground arith

    visit_lem :
        (f : ℕ) (s : Search) (id depth : ℕ) (t : Search)
        → 1 ≤ depth
        → Invariant limit nodes s
        → visit limit nodes f s id depth ≡ ok t
        → Visited limit nodes s t id depth
    unfolding visit
    visit_lem zero s id depth t l0 i h = absurd (cc)
    visit_lem (suc f) s id depth t l0 i h =
        let (e, h') = within-ok (limit_error restore_validate of_depth limit depth) _ h in
        let l = ((limit_error-none restore_validate of_depth limit depth).0 e).1 in
        elim (Color-cases (s.color id)) [
          | inl w ↦
              let (b, p, q) = >>=-eq-ok (spent (charge s.ledger 0 1)) _ (rw w at h') in
              visit_node_lem (λ t' c. visit limit nodes f t' c (depth + 1)) depth
                (λ s' c t' i' k. visit_lem f s' c (depth + 1) t' (omega arith) i' k) s id b
                (node_at nodes id) t l0 l refl w i q
          | inr (inl g) ↦ let x = rw g at h' in absurd (cc)
          | inr (inr g) ↦
              let (e', k) =
                within-ok
                  (limit_error restore_validate of_depth limit (add_sat depth (s.depths id) - 1))
                  (ok s) (rw g at h') in
              subst (λ x. Visited limit nodes s x id depth) (ok-injective k)
                (record {
                  invariant = i;
                  grows = Grows-refl s;
                  done = g;
                  room = black_room depth (s.depths id) l0 l ((i.settled id g).shallow) e';
                })
        ]

    pub visit_all_lem :
        (left i : ℕ) (s t : Search)
        → Invariant limit nodes s
        → visit_all limit nodes s i left ≡ ok t
        → Invariant limit nodes t × Grows s t × ((j : ℕ) → i ≤ j → j < i + left → t.color j ≡ black)
    unfolding visit_all
    visit_all_lem zero i s t v h =
        subst
          (λ x.
            Invariant limit nodes x
            × Grows s x
            × ((j : ℕ) → i ≤ j → j < i + zero → x.color j ≡ black))
          (ok-injective h) (v, Grows-refl s, λ j a b. absurd (omega (arith, a, b)))
    visit_all_lem (suc left) i s t v h =
        let (u, e, h') =
          >>=-eq-ok (visit limit nodes (limit + 2) s i 1)
            (λ u. visit_all limit nodes u (i + 1) left) h in
        let w = visit_lem (limit + 2) s i 1 u (omega arith) v e in
        let (inv, g, done) = visit_all_lem left (i + 1) u t w.invariant h' in
        (
          inv,
          Grows-trans s u t w.grows g,
          λ j a b. elim (same_or_not j i) [
            | inl q ↦ (g.blacks j (subst (λ k. u.color k ≡ black) (sym q) w.done)).0
            | inr d ↦ done j (omega (arith, a, d)) (omega (arith, b))
          ],
        )
