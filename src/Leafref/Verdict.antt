-- ===== src/Leafref/Verdict.antt =====
-- go/cambium/schema_leafref_cycles.go: `validateLeafrefCycles` as a whole.
use cambium.Leafref.Fuel.{validate_leafref_cycles_ends}
use cambium.Leafref.Visits.{Fails, visit-Gives}
use cambium.Leafref.Graph.{
  Grounded-Reach, Reach-IsChain, Grounded-acyclic, Edge, IsChain, Reach, Grounded, IsVertex,
  IsReport,
}
use cambium.Prelude.{
  drop, subst, ℕ, zero, suc, ◌-◌, ◌≡◌, refl, sym, ap, ◌∙◌, ◌≢◌, ◌↔◌, ◌⊎◌, inl, inr, Bool, true,
  false, Option, List, [], ◌∷◌, ◌++◌, Bool-cases, length, All, All-map,
}
use cambium.Prelude.Result.{Gives, ok, err, ◌>>=◌, gives, fails, Gives->>=, Gives-map}
use cambium.Leafref.{
  validate_leafref_cycles, new_walk, type_info, mark_of, type_info_contains_leafref, Mark, Outcome,
  Report, walk_modules, walk_schema_nodes, visit_once, visit_new, Walk, WalkFailure, walked_nodes,
  Schema, ModuleData, SchemaNodes, circular_chain, fuel_spent, unvisited, on_stack, finished,
  no_nodes, schema_node,
}
use cambium.Leafref.Graph.{here}
use cambium.Leafref.Search.{Quiet, Inv, Trail}

abbrev pub Listed : ℕ → SchemaNodes → Type 0
Listed n no_nodes = ⊥
Listed n (schema_node m below after) = (m ≡ n) ⊎ (Listed n below ⊎ Listed n after)

-- A node of an implemented module.
abbrev pub ListedIn : ℕ → List (Option ModuleData) → Type 0
ListedIn n [] = ⊥
ListedIn n (m ∷ ms) = Listed n (walked_nodes m) ⊎ ListedIn n ms

drop_empty : (k n : ℕ) (rest : List ℕ) → ¬ (drop k [] ≡ n ∷ rest)
drop_empty zero n rest h = cc
drop_empty (suc k) n rest h = cc

-- `L` holds of the nodes that the walk visits.
module _ (g : Schema) (vendor : Bool) (L : ℕ → Type 0) where
  -- A start of a walk.
  abbrev Starts : ℕ → Type 0
  Starts n = L n × IsVertex g n

  -- A start of a walk that may leave warnings.
  abbrev Warns : ℕ → Type 0
  Warns n = Starts n × (vendor ≡ true)

  abbrev FailsFrom : WalkFailure → Type 0
  FailsFrom (circular_chain r) = IsReport g r × Starts r.start × (vendor ≡ false)
  FailsFrom fuel_spent = Unit

  Fails-FailsFrom : (n : ℕ) → Starts n → (e : WalkFailure) → Fails g vendor n e → FailsFrom e
  Fails-FailsFrom n starts (circular_chain r) h = (h.0, subst (λ m. Starts m) (sym h.1) starts, h.2)
  Fails-FailsFrom n starts fuel_spent h = tt

  -- Between visits the stack is empty.
  record Idle (w : Walk) : Type 0 where
    inv : Inv g Warns w
    stack : w.stack ≡ []

  -- What the walk over the nodes of `P` gives.
  record Settles (P : ℕ → Type 0) (w w' : Walk) : Type 0 where
    idle : Idle w'
    quiet : Quiet w' → Quiet w
    grounds : Quiet w' → (n : ℕ) → P n → IsVertex g n → Grounded g n

  abbrev Settled : (ℕ → Type 0) → Walk → Outcome → Type 0
  Settled P w m = Gives FailsFrom (Settles P w) m

  -- One walk after another.
  Settled->>= :
      (P Q R : ℕ → Type 0) (w : Walk) {m : Outcome} (next : Walk → Outcome)
      → ((n : ℕ) → R n → P n ⊎ Q n)
      → Settled P w m
      → ((w' : Walk) → Idle w' → Settled Q w' (next w'))
      → Settled R w (m >>= next)
  Settled->>= P Q R w next split first second = Gives->>= next first (λ w' h.
      Gives-map (second w' h.idle) (λ e f. f)
        (λ w'' k. record {
          idle = k.idle;
          quiet = λ q. h.quiet (k.quiet q);
          grounds = λ q n r v. elim (split n r) [
            | inl p ↦ h.grounds (k.quiet q) n p v
            | inr p ↦ k.grounds q n p v
          ];
        }))

  Settled-ok :
      (P : ℕ → Type 0) (w : Walk)
      → Idle w
      → ((n : ℕ) → P n → IsVertex g n → Quiet w → Grounded g n)
      → Settled P w (ok w)
  Settled-ok P w idle h =
      gives (record { idle = idle; quiet = λ q. q; grounds = λ q n p v. h n p v q })

  visit_new-settles :
      (mark : Mark) (fuel n : ℕ) (w : Walk)
      → Starts n
      → mark_of w.pos n ≡ mark
      → Idle w
      → Settled (λ m. n ≡ m) w (visit_new g vendor mark fuel n w)
  unfolding visit_new
  visit_new-settles unvisited fuel n w starts at idle =
      let trail : Trail g n (w.stack ++ n ∷ []) =
        rw idle.stack (record { chain = tt; reached = (here, tt) }) in
      Gives-map (visit-Gives g Warns vendor n (λ e. (starts, e)) fuel n w idle.inv at trail)
        (Fails-FailsFrom n starts)
        (λ w' v. record {
          idle = record { inv = v.inv; stack = v.stack ∙ idle.stack };
          quiet = v.quiet;
          grounds = λ q m same _. subst (λ x. Grounded g x) same (v.grounds q);
        })
  visit_new-settles (on_stack p) fuel n w starts at idle =
      let (rest, sits) = idle.inv.stacked n p at in
      absurd (drop_empty (p - 1) n rest (ap (λ l. drop (p - 1) l) (sym idle.stack) ∙ sits))
  visit_new-settles finished fuel n w starts at idle =
      Settled-ok (λ m. n ≡ m) w idle
        (λ m same v q. subst (λ x. Grounded g x) same (idle.inv.settled n at q))

  visit_once-settles :
      (fuel n : ℕ) (w : Walk) → L n → Idle w → Settled (λ m. n ≡ m) w (visit_once g vendor fuel n w)
  unfolding visit_once
  visit_once-settles fuel n w listed idle =
      elim (Bool-cases (type_info_contains_leafref (type_info g n))) [
        | inl vertex ↦
            rw vertex (visit_new-settles (mark_of w.pos n) fuel n w (listed, vertex) refl idle)
        | inr other ↦ rw other (
            Settled-ok (λ m. n ≡ m) w idle
              (λ m same v q.
                let clash : true ≡ false = sym (subst (λ x. IsVertex g x) (sym same) v) ∙ other in
                cc))
      ]

  walk_schema_nodes-settles :
      (fuel : ℕ) (nodes : SchemaNodes) (w : Walk)
      → ((n : ℕ) → Listed n nodes → L n)
      → Idle w
      → Settled (λ n. Listed n nodes) w (walk_schema_nodes (visit_once g vendor fuel) nodes w)
  unfolding walk_schema_nodes
  walk_schema_nodes-settles fuel no_nodes w within idle =
      Settled-ok (λ n. ⊥) w idle (λ n h. absurd h)
  walk_schema_nodes-settles fuel (schema_node n below after) w within idle =
      Settled->>= (λ m. n ≡ m) (λ m. Listed m below ⊎ Listed m after) _ w _ (λ m h. h)
        (visit_once-settles fuel n w (within n (inl refl)) idle)
        (λ w' idle'.
          Settled->>= (λ m. Listed m below) (λ m. Listed m after) _ w' _ (λ m h. h)
            (walk_schema_nodes-settles fuel below w' (λ m h. within m (inr (inl h))) idle')
            (λ w'' idle''.
              walk_schema_nodes-settles fuel after w'' (λ m h. within m (inr (inr h))) idle''))

  walk_modules-settles :
      (fuel : ℕ) (ms : List (Option ModuleData)) (w : Walk)
      → ((n : ℕ) → ListedIn n ms → L n)
      → Idle w
      → Settled (λ n. ListedIn n ms) w (walk_modules (visit_once g vendor fuel) ms w)
  unfolding walk_modules
  walk_modules-settles fuel [] w within idle = Settled-ok (λ n. ⊥) w idle (λ n h. absurd h)
  walk_modules-settles fuel (m ∷ ms) w within idle =
      Settled->>= (λ n. Listed n (walked_nodes m)) (λ n. ListedIn n ms) _ w _ (λ n h. h)
        (walk_schema_nodes-settles fuel (walked_nodes m) w (λ n h. within n (inl h)) idle)
        (λ w' idle'. walk_modules-settles fuel ms w' (λ n h. within n (inr h)) idle')

  new_walk-Idle : Idle new_walk
  unfolding mark_of
  new_walk-Idle = record {
    inv = record { settled = λ n h. cc; stacked = λ n p h. cc; reported = tt };
    stack = refl;
  }

-- No walk of leafrefs from a node of an implemented module returns to a node that it has passed.
abbrev pub IsAcyclic : Schema → List (Option ModuleData) → Type 0
IsAcyclic g load_order =
    (n c t : ℕ) → ListedIn n load_order → IsVertex g n → Reach g n c → Edge g c t → ¬ (Reach g t c)

-- A closed chain of leafrefs that a node of an implemented module leads to.
abbrev pub IsCircular : Schema → List (Option ModuleData) → Report → Type 0
IsCircular g load_order r = IsReport g r × ListedIn r.start load_order × IsVertex g r.start

module _ (g : Schema) (load_order : List (Option ModuleData)) where
  validate-settles :
      (vendor : Bool)
      → Settled g vendor
          (λ n. ListedIn n load_order)
          (λ n. ListedIn n load_order)
          new_walk
          (validate_leafref_cycles g vendor load_order)
  unfolding validate_leafref_cycles
  validate-settles vendor =
      walk_modules-settles g vendor (λ n. ListedIn n load_order) (length g) load_order new_walk
        (λ n h. h) (new_walk-Idle g vendor (λ n. ListedIn n load_order))

  circular : (r : Report) → IsCircular g load_order r → ¬ (IsAcyclic g load_order)
  circular r ((c, inner, e, chain, reached), listed, vertex) h =
      closes inner (subst (λ l. IsChain g l) e chain)
    where
      closes : (xs : List ℕ) → IsChain g (c ∷ xs ++ c ∷ []) → ⊥
      closes [] k = h _ c c listed vertex reached k.0 here
      closes (z ∷ zs) k = h _ c z listed vertex reached k.0 (Reach-IsChain z c zs k.1)

  -- What the walk may give: no warning and an acyclic graph, warnings that are circular chains in
  -- vendor mode, or an error that is one in strict mode.
  data Verdict (vendor : Bool) : Outcome → Type 0 where
    accepted : {w : Walk} → Quiet w → IsAcyclic g load_order → Verdict vendor (ok w)
    warned :
        {w : Walk} {r : Report} {rest : List Report}
        → vendor ≡ true
        → w.warnings ≡ r ∷ rest
        → All (IsCircular g load_order) w.warnings
        → Verdict vendor (ok w)
    refused :
        {r : Report}
        → vendor ≡ false
        → IsCircular g load_order r
        → Verdict vendor (err (circular_chain r))

  settled-Verdict :
      (vendor : Bool) (w : Walk) (ws : List Report)
      → w.warnings ≡ ws
      → Settles g vendor (λ n. ListedIn n load_order) (λ n. ListedIn n load_order) new_walk w
      → Verdict vendor (ok w)
  settled-Verdict vendor w [] q h = accepted q (λ n c t listed vertex reached.
      Grounded-acyclic (Grounded-Reach (h.grounds q n listed vertex) reached))
  settled-Verdict vendor w (r ∷ rest) q h =
      let reported = h.idle.inv.reported in
      warned
        (subst
          (λ l. All (λ r. IsReport g r × Warns g vendor (λ n. ListedIn n load_order) r.start) l) q
          reported).0.1.1
        q (All-map _ (IsCircular g load_order) (λ r k. (k.0, k.1.0.0, k.1.0.1)) w.warnings reported)

  gives-Verdict :
      (vendor : Bool) {m : Outcome}
      → m ≢ err fuel_spent
      → Settled g vendor (λ n. ListedIn n load_order) (λ n. ListedIn n load_order) new_walk m
      → Verdict vendor m
  gives-Verdict vendor ends (gives {a = w} h) = settled-Verdict vendor w w.warnings refl h
  gives-Verdict vendor ends (fails {e = circular_chain r} h) = refused h.2 (h.0, h.1.0, h.1.1)
  gives-Verdict vendor ends (fails {e = fuel_spent} h) = absurd (ends refl)

  validate-Verdict : (vendor : Bool) → Verdict vendor (validate_leafref_cycles g vendor load_order)
  validate-Verdict vendor =
      gives-Verdict vendor (validate_leafref_cycles_ends g vendor load_order)
        (validate-settles vendor)

  strict : {m : Outcome} → Verdict false m → ((w : Walk) × (m ≡ ok w)) ↔ IsAcyclic g load_order
  strict (accepted {w} q a) = ((λ _. a), (λ _. (w, refl)))
  strict (warned v q c) = cc
  strict (refused {r} v c) = ((λ h. let (w, e) = h in cc), (λ a. absurd (circular r c a)))

  -- Strict mode accepts a schema exactly when no walk of leafrefs that begins at a node of an
  -- implemented module returns to a node that it has passed.
  pub validate_leafref_cycles_iff :
      ((w : Walk) × (validate_leafref_cycles g false load_order ≡ ok w)) ↔ IsAcyclic g load_order
  validate_leafref_cycles_iff = strict (validate-Verdict false)

  strict_error :
      {m : Outcome} {e : WalkFailure}
      → Verdict false m
      → m ≡ err e
      → (r : Report) × (e ≡ circular_chain r) × IsCircular g load_order r
  strict_error (accepted q a) h = cc
  strict_error (warned v q c) h = cc
  strict_error (refused {r} v c) h = (r, cc, c)

  -- An error of strict mode reports a chain of leafrefs that returns to where it begins, at a node
  -- that its start, a node of an implemented module, leads to.
  pub validate_leafref_cycles_error :
      (e : WalkFailure)
      → validate_leafref_cycles g false load_order ≡ err e
      → (r : Report) × (e ≡ circular_chain r) × IsCircular g load_order r
  validate_leafref_cycles_error e h = strict_error (validate-Verdict false) h

  vendor_warnings :
      {m : Outcome}
      → Verdict true m
      → (w : Walk) × (m ≡ ok w)
        × All (IsCircular g load_order) w.warnings
        × ((w.warnings ≡ []) ↔ IsAcyclic g load_order)
  vendor_warnings (accepted {w} q a) =
      (w, refl, subst (λ l. All (IsCircular g load_order) l) (sym q) tt, ((λ _. a), (λ _. q)))
  vendor_warnings (warned {w} {r} v q c) =
      let first = subst (λ l. All (IsCircular g load_order) l) q c in
      (w, refl, c, ((λ e. cc), (λ a. absurd (circular r first.0 a))))
  vendor_warnings (refused v c) = cc

  -- In vendor mode the walk accepts every schema; each of its warnings is a chain that returns to
  -- where it begins, and there is none exactly when the leafrefs have no cycle.
  pub validate_leafref_cycles_vendor :
      (w : Walk) × (validate_leafref_cycles g true load_order ≡ ok w)
      × All (IsCircular g load_order) w.warnings
      × ((w.warnings ≡ []) ↔ IsAcyclic g load_order)
  validate_leafref_cycles_vendor = vendor_warnings (validate-Verdict true)
