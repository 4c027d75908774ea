-- ===== src/Leafref/Fuel.antt =====
-- go/cambium/schema_leafref_cycles.go: the fuel of the walk.
use cambium.Prelude.Result.{Gives-err, err, Gives-map, fails, gives, ok, Gives, Gives->>=}
use cambium.Leafref.Graph.{IsVertex}
use cambium.Prelude.{
  subst, ◌≢◌, Option, [], ◌∷◌, length, ℕ, zero, suc, ◌≤◌, ◌<◌, ◌≡◌, refl, ap, inl, inr, Bool, true,
  false, List, arith, ◌==◌, if◌then◌else◌, Bool-cases,
}
use cambium.Leafref.{
  new_walk, no_nodes, walked_nodes, ModuleData, schema_node, SchemaNodes, fuel_spent,
  validate_leafref_cycles, walk_modules, walk_schema_nodes, visit_new, targets_of, visit_target,
  close_chain, visit_targets, visit_marked, visit_once, visit, Outcome, leave, enter,
  type_info_contains_leafref, circular_chain, Schema, type_info, Walk, WalkFailure, mark_of, Mark,
  unvisited, on_stack, finished,
}

is_unvisited : Mark → Bool
is_unvisited unvisited = true
is_unvisited (on_stack p) = false
is_unvisited finished = false

-- How many nodes below `k` are unvisited.
fresh : List (ℕ × Mark) → ℕ → ℕ
unfolding is_unvisited
fresh pos zero = 0
fresh pos (suc k) =
    let below = fresh pos k in if is_unvisited (mark_of pos k) then suc below else below

-- No mark is taken back.
abbrev Keeps : List (ℕ × Mark) → List (ℕ × Mark) → Type 0
Keeps pos pos' = (n : ℕ) → mark_of pos' n ≡ unvisited → mark_of pos n ≡ unvisited

is_unvisited-eq : (m : Mark) → is_unvisited m ≡ true → m ≡ unvisited
unfolding is_unvisited
is_unvisited-eq unvisited h = refl
is_unvisited-eq (on_stack p) h = cc
is_unvisited-eq finished h = cc

fresh-le : (pos pos' : List (ℕ × Mark)) → Keeps pos pos' → (k : ℕ) → fresh pos' k ≤ fresh pos k
unfolding fresh is_unvisited
fresh-le pos pos' h zero = omega arith
fresh-le pos pos' h (suc k) = ground (
  arith,
  fresh-le pos pos' h k,
  h k,
  is_unvisited-eq (mark_of pos' k),
  is_unvisited-eq (mark_of pos k),
)

-- A node that is marked for the first time counts no more.
fresh-lt :
    (pos pos' : List (ℕ × Mark))
    → Keeps pos pos'
    → (n k : ℕ) → n < k
    → mark_of pos n ≡ unvisited
    → is_unvisited (mark_of pos' n) ≡ false
    → fresh pos' k < fresh pos k
unfolding fresh is_unvisited
fresh-lt pos pos' h n zero below was is = omega arith
fresh-lt pos pos' h n (suc k) below was is = elim (Bool-cases (n == k)) [
  | inl e ↦
      let same : n ≡ k = ground (arith, e) in
      ground (
        arith,
        same,
        was,
        is,
        fresh-le pos pos' h k,
        ap is_unvisited was,
        ap (λ m. mark_of pos m) same,
        ap (λ m. mark_of pos' m) same,
      )
  | inr e ↦ ground (
    arith,
    fresh-lt pos pos' h n k (ground (arith, e)) was is,
    h k,
    is_unvisited-eq (mark_of pos' k),
    is_unvisited-eq (mark_of pos k),
  )
]

abbrev pub Ended : WalkFailure → Type 0
Ended (circular_chain r) = Unit
Ended fuel_spent = ⊥

abbrev pub KeepsMarks : Walk → Walk → Type 0
KeepsMarks w w' = Keeps w.pos w'.pos

pub IsVertex-lt : (g : Schema) (n : ℕ) → IsVertex g n → n < length g
unfolding type_info type_info_contains_leafref
IsVertex-lt [] n h = cc
IsVertex-lt (t ∷ ts) zero h = omega arith
IsVertex-lt (t ∷ ts) (suc n) h = omega (arith, IsVertex-lt ts n h)

module _ (g : Schema) where
  abbrev unvisited_in : Walk → ℕ
  unvisited_in w = fresh w.pos (length g)

  enter-KeepsMarks : (n : ℕ) (w : Walk) → KeepsMarks w (enter n w)
  unfolding enter mark_of
  enter-KeepsMarks n w m h = ground arith

  leave-KeepsMarks : (n : ℕ) (w : Walk) → KeepsMarks w (leave n w)
  unfolding leave mark_of
  leave-KeepsMarks n w m h = ground arith

  enter-fresh :
      (n : ℕ) (w : Walk)
      → IsVertex g n
      → mark_of w.pos n ≡ unvisited
      → unvisited_in (enter n w) < unvisited_in w
  unfolding enter mark_of is_unvisited
  enter-fresh n w vertex at =
      fresh-lt w.pos (enter n w).pos (enter-KeepsMarks n w) n (length g) (IsVertex-lt g n vertex) at
        (ground arith)

  module _ (vendor : Bool) (start : ℕ) where
    -- The function ends on every vertex that is unvisited, when so many nodes are.
    abbrev GoEnds : ℕ → (ℕ → Walk → Outcome) → Type 0
    GoEnds fuel go =
        (t : ℕ) (w : Walk)
        → IsVertex g t
        → mark_of w.pos t ≡ unvisited
        → unvisited_in w ≤ fuel
        → Gives Ended (KeepsMarks w) (go t w)

    module _ (fuel : ℕ) (go : ℕ → Walk → Outcome) (go-ends : GoEnds fuel go) where
      visit_marked-ends :
          (mark : Mark) (t : ℕ) (w : Walk) (next : Walk → Outcome) {R : Walk → Type 0}
          → mark_of w.pos t ≡ mark
          → IsVertex g t
          → unvisited_in w ≤ fuel
          → ((w' : Walk) → KeepsMarks w w' → Gives Ended R (next w'))
          → Gives Ended R (visit_marked g vendor mark start go t w next)
      unfolding visit_marked close_chain
      visit_marked-ends (on_stack p) t w next at vertex few onward = elim (Bool-cases vendor) [
        | inl v ↦ rw v (onward _ (λ n h. h))
        | inr v ↦ rw v (fails tt)
      ]
      visit_marked-ends unvisited t w next at vertex few onward =
          Gives->>= next (go-ends t w vertex at few) onward
      visit_marked-ends finished t w next at vertex few onward = onward w (λ n h. h)

      visit_targets-ends :
          (ts : List ℕ) (w : Walk)
          → unvisited_in w ≤ fuel
          → Gives Ended (KeepsMarks w) (visit_targets g vendor start go ts w)
      unfolding visit_targets visit_target
      visit_targets-ends [] w few = gives (λ n h. h)
      visit_targets-ends (t ∷ ts) w few =
          let onward : (w' : Walk)
              → KeepsMarks w w'
              → Gives Ended (KeepsMarks w) (visit_targets g vendor start go ts w') =
            λ w' kept.
              Gives-map
                (visit_targets-ends ts w' (omega (arith, fresh-le w.pos w'.pos kept (length g))))
                (λ e f. f) (λ w'' kept' n h. kept n (kept' n h)) in
          elim (Bool-cases (type_info_contains_leafref (type_info g t))) [
            | inl vertex ↦ rw vertex (
                visit_marked-ends (mark_of w.pos t) t w (visit_targets g vendor start go ts) refl
                  vertex few onward)
            | inr other ↦ rw other (onward w (λ n h. h))
          ]

    visit-ends : (fuel : ℕ) → GoEnds fuel (visit g vendor fuel start)
    unfolding visit
    visit-ends zero t w vertex at few = absurd (omega (arith, enter-fresh t w vertex at))
    visit-ends (suc fuel) t w vertex at few =
        Gives->>= (λ w'. ok (leave t w'))
          (visit_targets-ends fuel (visit g vendor fuel start) (visit-ends fuel)
            (targets_of (type_info g t)) (enter t w) (omega (arith, enter-fresh t w vertex at)))
          (λ w' kept. gives (λ n h. enter-KeepsMarks t w n (kept n (leave-KeepsMarks t w' n h))))

  fresh-le_all : (pos : List (ℕ × Mark)) (k : ℕ) → fresh pos k ≤ k
  unfolding fresh
  fresh-le_all pos zero = omega arith
  fresh-le_all pos (suc k) = ground (arith, fresh-le_all pos k)

  visit_new-ends :
      (vendor : Bool) (mark : Mark) (n : ℕ) (w : Walk)
      → mark_of w.pos n ≡ mark
      → IsVertex g n
      → Gives Ended (λ _. Unit {0}) (visit_new g vendor mark (length g) n w)
  unfolding visit_new
  visit_new-ends vendor unvisited n w at vertex =
      Gives-map (visit-ends vendor n (length g) n w vertex at (fresh-le_all w.pos (length g)))
        (λ e f. f) (λ w' k. tt)
  visit_new-ends vendor (on_stack p) n w at vertex = gives tt
  visit_new-ends vendor finished n w at vertex = gives tt

  visit_once-ends :
      (vendor : Bool) (n : ℕ) (w : Walk)
      → Gives Ended (λ _. Unit {0}) (visit_once g vendor (length g) n w)
  unfolding visit_once
  visit_once-ends vendor n w = elim (Bool-cases (type_info_contains_leafref (type_info g n))) [
    | inl vertex ↦ rw vertex (visit_new-ends vendor (mark_of w.pos n) n w refl vertex)
    | inr other ↦ rw other (gives tt)
  ]

module _ (fn : ℕ → Walk → Outcome)
    (fn-ends : (n : ℕ) (w : Walk) → Gives Ended (λ _. Unit {0}) (fn n w)) where
  walk_schema_nodes-ends :
      (nodes : SchemaNodes) (w : Walk) → Gives Ended (λ _. Unit {0}) (walk_schema_nodes fn nodes w)
  unfolding walk_schema_nodes
  walk_schema_nodes-ends no_nodes w = gives tt
  walk_schema_nodes-ends (schema_node n below after) w = Gives->>= _ (fn-ends n w) (λ w' _.
      Gives->>= _ (walk_schema_nodes-ends below w') (λ w'' _. walk_schema_nodes-ends after w''))

  walk_modules-ends :
      (ms : List (Option ModuleData)) (w : Walk)
      → Gives Ended (λ _. Unit {0}) (walk_modules fn ms w)
  unfolding walk_modules
  walk_modules-ends [] w = gives tt
  walk_modules-ends (m ∷ ms) w =
      Gives->>= _ (walk_schema_nodes-ends (walked_nodes m) w) (λ w' _. walk_modules-ends ms w')

-- The fuel is enough: whatever the schema and the load order, the walk ends.
pub validate_leafref_cycles_ends :
    (g : Schema) (vendor : Bool) (load_order : List (Option ModuleData))
    → validate_leafref_cycles g vendor load_order ≢ err fuel_spent
unfolding validate_leafref_cycles
validate_leafref_cycles_ends g vendor load_order h = Gives-err (
    subst (λ r. Gives Ended (λ _. Unit {0}) r) h
      (walk_modules-ends (visit_once g vendor (length g)) (visit_once-ends g vendor) load_order
        new_walk))
