-- ===== src/Leafref/Visits.antt =====
-- go/cambium/schema_leafref_cycles.go: what a visit gives, in strict and in vendor mode.
use cambium.Prelude.{
  subst, All-drop, ℕ, zero, suc, ◌-◌, ◌≡◌, refl, sym, ap, ◌∙◌, inl, inr, Bool, true, false, List,
  [], ◌∷◌, ◌++◌, Bool-cases, All, All-append,
}
use cambium.Prelude.Result.{Gives, ok, gives, fails, Gives->>=, Gives-map}
use cambium.Leafref.{
  targets_of, leave, enter, type_info, Mark, visit, type_info_contains_leafref, visit_marked,
  WalkFailure, mark_of, Outcome, closed_chain, Walk, Schema, circular_chain, fuel_spent, unvisited,
  on_stack, finished, visit_targets, visit_target, close_chain,
}
use cambium.Leafref.Graph.{
  IsChain, IsChain-drop, IsVertex, Contains, Reach-step, IsReport, IsChain-append, Reach, Grounded,
  grounded, Edge,
}
use cambium.Leafref.Search.{
  leave-Inv, enter-Inv, append_not_empty, drop-append, Sits, Quiet, Inv, Trail,
}

-- In strict mode a visit may fail, with a report of its start.
abbrev pub Fails : Schema → Bool → ℕ → WalkFailure → Type 0
Fails g vendor start (circular_chain r) = IsReport g r × (r.start ≡ start) × (vendor ≡ false)
Fails g vendor start fuel_spent = Unit

-- What the search for `n` gives from `w`: the stack is as before, and without a warning so far the
-- node is grounded.
pub record Visited (g : Schema) (P : ℕ → Type 0) (n : ℕ) (w w' : Walk) : Type 0 where
  pub inv : Inv g P w'
  pub stack : w'.stack ≡ w.stack
  pub quiet : Quiet w' → Quiet w
  pub grounds : Quiet w' → Grounded g n

-- The same for a list of targets, those that are vertices.
pub record Scanned (g : Schema) (P : ℕ → Type 0) (ts : List ℕ) (w w' : Walk) : Type 0 where
  pub inv : Inv g P w'
  pub stack : w'.stack ≡ w.stack
  pub quiet : Quiet w' → Quiet w
  pub grounds : Quiet w' → (t : ℕ) → Contains t ts → IsVertex g t → Grounded g t

module _ (g : Schema) (start : ℕ) where
  pub Trail-append :
      (s : List ℕ) (n t : ℕ)
      → Trail g start (s ++ n ∷ [])
      → Edge g n t
      → Trail g start ((s ++ n ∷ []) ++ t ∷ [])
  Trail-append s n t h e = record {
    chain = IsChain-append g s n t h.chain e;
    reached =
        All-append (λ x. Reach g start x) (s ++ n ∷ []) (t ∷ []) h.reached
          (Reach-step (last_reached s h.reached) e, tt);
  }
    where
      last_reached : (s : List ℕ) → All (λ x. Reach g start x) (s ++ n ∷ []) → Reach g start n
      last_reached [] r = r.0
      last_reached (x ∷ xs) r = last_reached xs r.1

  -- The chain that a target on the stack closes is a report.
  pub closed_chain-IsReport :
      (w : Walk) (t p : ℕ)
      → Trail g start (w.stack ++ t ∷ [])
      → Sits w.stack t p
      → IsReport g (closed_chain start w t p)
  unfolding closed_chain
  closed_chain-IsReport w t p trail (rest, q) =
      let longer = drop-append (p - 1) w.stack (t ∷ []) q in
      let chain = IsChain-drop g (p - 1) (w.stack ++ t ∷ []) trail.chain in
      let reached = All-drop (λ x. Reach g start x) (p - 1) (w.stack ++ t ∷ []) trail.reached in
      let closed = ap (λ l. l ++ t ∷ []) q in
      (
        t,
        rest,
        closed,
        subst (λ l. IsChain g l) (longer ∙ sym closed) chain,
        (subst (λ l. All (λ x. Reach g start x) l) longer reached).0,
      )

module _ (g : Schema) (P : ℕ → Type 0) (start : ℕ) where
  close_chain-Gives :
      (vendor : Bool)
      → (vendor ≡ true → P start)
      → (t p : ℕ) (w : Walk) (next : Walk → Outcome) {R : Walk → Type 0} → Inv g P w
      → Trail g start (w.stack ++ t ∷ [])
      → mark_of w.pos t ≡ on_stack p
      → ((w' : Walk)
          → Inv g P w'
          → w'.stack ≡ w.stack
          → (¬ (Quiet w'))
          → Gives (Fails g vendor start) R (next w'))
      → Gives (Fails g vendor start) R (close_chain g vendor start t p w next)
  unfolding close_chain
  close_chain-Gives false allowed t p w next inv trail at onward =
      fails (closed_chain-IsReport g start w t p trail (inv.stacked t p at), refl, refl)
  close_chain-Gives true allowed t p w next inv trail at onward =
      let report = closed_chain-IsReport g start w t p trail (inv.stacked t p at) in
      let loud : ¬ (w.warnings ++ closed_chain start w t p ∷ [] ≡ []) =
        λ q. append_not_empty w.warnings (closed_chain start w t p) q in
      onward (record w { warnings = w.warnings ++ closed_chain start w t p ∷ [] })
        (record {
          settled = λ m h q. absurd (loud q);
          stacked = inv.stacked;
          reported =
              All-append (λ r. IsReport g r × P r.start) w.warnings _ inv.reported
                ((report, allowed refl), tt);
        })
        refl loud

  module _ (vendor : Bool) (allowed : vendor ≡ true → P start) (go : ℕ → Walk → Outcome) where
    -- What `go` is to give for each target that carries on the trail.
    abbrev pub GoVisits : Type 0
    GoVisits =
        (t : ℕ) (w : Walk)
        → Inv g P w
        → mark_of w.pos t ≡ unvisited
        → Trail g start (w.stack ++ t ∷ [])
        → Gives (Fails g vendor start) (Visited g P t w) (go t w)

    -- What the rest of the loop is given after a target.
    record Tried (t : ℕ) (w w' : Walk) : Type 0 where
      inv : Inv g P w'
      stack : w'.stack ≡ w.stack
      quiet : Quiet w' → Quiet w
      grounds : Quiet w' → IsVertex g t → Grounded g t

    visit_marked-Gives :
        GoVisits
        → (mark : Mark) (t : ℕ) (w : Walk) (next : Walk → Outcome) {R : Walk → Type 0} → Inv g P w
        → mark_of w.pos t ≡ mark
        → Trail g start (w.stack ++ t ∷ [])
        → ((w' : Walk) → Tried t w w' → Gives (Fails g vendor start) R (next w'))
        → Gives (Fails g vendor start) R (visit_marked g vendor mark start go t w next)
    unfolding visit_marked
    visit_marked-Gives visits (on_stack p) t w next inv at trail onward =
        close_chain-Gives vendor allowed t p w next inv trail at (λ w' i e loud. onward w' (record {
          inv = i;
          stack = e;
          quiet = λ q. absurd (loud q);
          grounds = λ q. absurd (loud q);
        }))
    visit_marked-Gives visits unvisited t w next inv at trail onward =
        Gives->>= next (visits t w inv at trail) (λ w' v.
          onward w' (record {
            inv = v.inv;
            stack = v.stack;
            quiet = v.quiet;
            grounds = λ q _. v.grounds q;
          }))
    visit_marked-Gives visits finished t w next inv at trail onward =
        onward w
          (record { inv = inv; stack = refl; quiet = λ q. q; grounds = λ q _. inv.settled t at q })

    visit_target-Gives :
        GoVisits
        → (t : ℕ) (w : Walk) (next : Walk → Outcome) {R : Walk → Type 0} → Inv g P w
        → (IsVertex g t → Trail g start (w.stack ++ t ∷ []))
        → ((w' : Walk) → Tried t w w' → Gives (Fails g vendor start) R (next w'))
        → Gives (Fails g vendor start) R (visit_target g vendor start go t w next)
    unfolding visit_target
    visit_target-Gives visits t w next inv trail onward =
        elim (Bool-cases (type_info_contains_leafref (type_info g t))) [
          | inl vertex ↦
              rw vertex (
                visit_marked-Gives visits (mark_of w.pos t) t w next inv refl (trail vertex) onward)
          | inr other ↦ rw other (
              onward w (record {
                inv = inv;
                stack = refl;
                quiet = λ q. q;
                grounds = λ q v. let clash : true ≡ false = sym v ∙ other in cc;
              }))
        ]

    -- The loop over the targets of `n`, which is on top of the stack.
    pub visit_targets-Gives :
        GoVisits
        → (s : List ℕ) (n : ℕ) (ts : List ℕ) (w : Walk) → Inv g P w
        → w.stack ≡ s ++ n ∷ []
        → Trail g start (s ++ n ∷ [])
        → ((t : ℕ) → Contains t ts → IsVertex g t → Edge g n t)
        → Gives (Fails g vendor start) (Scanned g P ts w) (visit_targets g vendor start go ts w)
    unfolding visit_targets
    visit_targets-Gives visits s n [] w inv top trail edges =
        gives (record { inv = inv; stack = refl; quiet = λ q. q; grounds = λ q t c. absurd c })
    visit_targets-Gives visits s n (t ∷ ts) w inv top trail edges =
        visit_target-Gives visits t w (visit_targets g vendor start go ts) inv
          (λ v.
            subst (λ l. Trail g start (l ++ t ∷ [])) (sym top)
              (Trail-append g start s n t trail (edges t (inl refl) v)))
          (λ w' tried.
            Gives-map
              (visit_targets-Gives visits s n ts w' tried.inv (tried.stack ∙ top) trail
                (λ u c. edges u (inr c)))
              (λ e f. f)
              (λ w'' rest. record {
                inv = rest.inv;
                stack = rest.stack ∙ tried.stack;
                quiet = λ q. tried.quiet (rest.quiet q);
                grounds = λ q u c v. elim c [
                  | inl same ↦
                      subst (λ m. Grounded g m) same
                        (tried.grounds (rest.quiet q) (subst (λ m. IsVertex g m) (sym same) v))
                  | inr c' ↦ rest.grounds q u c' v
                ];
              }))

module _ (g : Schema) (P : ℕ → Type 0) (vendor : Bool) (start : ℕ)
    (allowed : vendor ≡ true → P start) where
  pub visit-Gives : (fuel : ℕ) → GoVisits g P start vendor allowed (visit g vendor fuel start)
  unfolding visit enter leave
  visit-Gives zero n w inv at trail = fails tt
  visit-Gives (suc fuel) n w inv at trail =
      Gives->>= (λ w'. ok (leave n w'))
        (visit_targets-Gives g P start vendor allowed (visit g vendor fuel start) (visit-Gives fuel)
          w.stack n (targets_of (type_info g n)) (enter n w) (enter-Inv g P n w inv) refl trail
          (λ t c v. (c, v)))
        (λ w' done.
          let below : Quiet w' → Grounded g n = λ q. grounded (λ t e. done.grounds q t e.0 e.1) in
          let (kept, stack) = leave-Inv g P n w' w.stack done.inv done.stack below in
          gives (record { inv = kept; stack = stack; quiet = done.quiet; grounds = below }))
