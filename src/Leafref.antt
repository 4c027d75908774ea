-- ===== src/Leafref.antt =====
-- go/cambium/schema_leafref_cycles.go: the search for chains of leafrefs that return to a node they
-- have passed. A schema node is its index in a table of types; a node outside the table has none.
pub mod Graph
pub mod Search
pub mod Visits
pub mod Fuel
pub mod Verdict
use cambium.Prelude.{
  drop, ℕ, zero, suc, ◌+◌, ◌-◌, ◌*◌, ◌/◌, ◌%◌, ◌^◌, ◌≤◌, ◌<◌, ◌≡◌, refl, sym, ap, ◌∙◌, ◌≢◌, ◌↔◌,
  ◌⊎◌, inl, inr, Bool, true, false, not, ◌&&◌, ◌||◌, Option, none, some, List, [], ◌∷◌, ◌++◌, map,
  arith, ltb, leb, ◌==◌, if◌then◌else◌, Bool-cases, Option-cases, length, All, Any, All-map,
  All-append, ltb→lt, leb→le,
}
use cambium.Prelude.Result.{Result, ok, err, ◌>>=◌}

-- What these functions read of a resolved type. A leafref has a target, or is unresolved; every
-- type that is neither a leafref nor a union is `other_type`.
mutual
  pub data ResolvedType : Type 0 where
    leaf_ref : ℕ → ResolvedType
    unresolved other_type : ResolvedType
    union : MemberTypes → ResolvedType

  pub data MemberTypes : Type 0 where
    no_members : MemberTypes
    member : ResolvedType → MemberTypes → MemberTypes

-- A node's type information, `none` where it has no type.
abbrev pub Schema : Type 0
Schema = List (Option ResolvedType)

unfoldable pub type_info : Schema → ℕ → Option ResolvedType
type_info [] n = none
type_info (t ∷ ts) zero = t
type_info (t ∷ ts) (suc n) = type_info ts n

unfoldable mutual
  pub leafref_targets : List ℕ → ResolvedType → List ℕ
  leafref_targets out (leaf_ref target) = out ++ target ∷ []
  leafref_targets out unresolved = out
  leafref_targets out other_type = out
  leafref_targets out (union members) = member_targets out members

  pub member_targets : List ℕ → MemberTypes → List ℕ
  member_targets out no_members = out
  member_targets out (member t members) = member_targets (leafref_targets out t) members

unfoldable mutual
  pub resolved_contains_leafref : ResolvedType → Bool
  resolved_contains_leafref (leaf_ref target) = true
  resolved_contains_leafref unresolved = true
  resolved_contains_leafref other_type = false
  resolved_contains_leafref (union members) = members_contain_leafref members

  pub members_contain_leafref : MemberTypes → Bool
  members_contain_leafref no_members = false
  members_contain_leafref (member t members) =
      resolved_contains_leafref t || members_contain_leafref members

unfoldable pub type_info_contains_leafref : Option ResolvedType → Bool
unfolding resolved_contains_leafref
type_info_contains_leafref none = false
type_info_contains_leafref (some t) = resolved_contains_leafref t

-- The targets of a node's own leafrefs.
unfoldable pub targets_of : Option ResolvedType → List ℕ
unfolding leafref_targets
targets_of none = []
targets_of (some t) = leafref_targets [] t

-- An entry of `pos`: 0, the index on the stack plus one, and `leafrefCycleDone`.
pub data Mark : Type 0 where
  unvisited : Mark
  on_stack : ℕ → Mark
  finished : Mark

-- `start` and the closed chain that `leafrefCycleError` and the warning report.
pub record Report : Type 0 where
  pub start : ℕ
  pub cycle : List ℕ

pub record Walk : Type 0 where
  pub pos : List (ℕ × Mark)
  pub stack : List ℕ
  pub warnings : List Report

unfoldable pub mark_of : List (ℕ × Mark) → ℕ → Mark
mark_of [] n = unvisited
mark_of ((m, mark) ∷ rest) n = if m == n then mark else mark_of rest n

pub data WalkFailure : Type 0 where
  circular_chain : Report → WalkFailure
  fuel_spent : WalkFailure

abbrev pub Outcome : Type 0
Outcome = Result WalkFailure Walk

-- `stack[:len(stack)-1]`.
unfoldable pub pop : List ℕ → List ℕ
pop [] = []
pop (x ∷ []) = []
pop (x ∷ y ∷ rest) = x ∷ pop (y ∷ rest)

-- The two statements at the head of `visit` and the two at its end.
unfoldable pub enter : ℕ → Walk → Walk
enter n w = record {
  pos = (n, on_stack (length w.stack + 1)) ∷ w.pos;
  stack = w.stack ++ n ∷ [];
  warnings = w.warnings;
}

unfoldable pub leave : ℕ → Walk → Walk
unfolding pop
leave n w = record { pos = (n, finished) ∷ w.pos; stack = pop w.stack; warnings = w.warnings }

-- The chain from the stack's entry p-1 back to the target.
unfoldable pub closed_chain : (start : ℕ) → Walk → (target p : ℕ) → Report
closed_chain start w target p = record {
  start = start;
  cycle = drop (p - 1) w.stack ++ target ∷ [];
}

module _ (g : Schema) (vendor : Bool) where
  -- A target whose mark is on the stack closes a chain: an error, or a warning in vendor mode.
  unfoldable pub close_chain : (start target p : ℕ) → Walk → (Walk → Outcome) → Outcome
  unfolding closed_chain
  close_chain start target p w next =
      if vendor
      then next (record w { warnings = w.warnings ++ closed_chain start w target p ∷ [] })
      else err (circular_chain (closed_chain start w target p))

  -- The switch on the target's entry in `pos`; `go` is `visit(start, ·)`, `next` the rest of the loop.
  unfoldable pub visit_marked :
      Mark → (start : ℕ) → (ℕ → Walk → Outcome) → ℕ → Walk → (Walk → Outcome) → Outcome
  unfolding close_chain
  visit_marked (on_stack p) start go target w next = close_chain start target p w next
  visit_marked unvisited start go target w next = go target w >>= next
  visit_marked finished start go target w next = next w

  -- One target of the loop in `visit`.
  unfoldable pub visit_target :
      (start : ℕ) → (ℕ → Walk → Outcome) → ℕ → Walk → (Walk → Outcome) → Outcome
  unfolding visit_marked type_info_contains_leafref
  visit_target start go target w next =
      let skip = next w in
      if type_info_contains_leafref (type_info g target)
      then visit_marked (mark_of w.pos target) start go target w next
      else skip

  unfoldable pub visit_targets : (start : ℕ) → (ℕ → Walk → Outcome) → List ℕ → Walk → Outcome
  unfolding visit_target
  visit_targets start go [] w = ok w
  visit_targets start go (t ∷ ts) w = visit_target start go t w (visit_targets start go ts)

  unfoldable pub visit : (fuel start : ℕ) → ℕ → Walk → Outcome
  unfolding visit_targets enter leave targets_of
  visit zero start n w = err fuel_spent
  visit (suc fuel) start n w =
      visit_targets start (visit fuel start) (targets_of (type_info g n)) (enter n w) >>= λ w'.
      ok (leave n w')

  -- The function that `walkSchemaNodes` calls, once the node's entry in `pos` is read.
  unfoldable pub visit_new : Mark → (fuel : ℕ) → ℕ → Walk → Outcome
  unfolding visit
  visit_new unvisited fuel n w = visit fuel n n w
  visit_new (on_stack p) fuel n w = ok w
  visit_new finished fuel n w = ok w

  unfoldable pub visit_once : (fuel : ℕ) → ℕ → Walk → Outcome
  unfolding visit_new
  visit_once fuel n w =
      if type_info_contains_leafref (type_info g n)
      then visit_new (mark_of w.pos n) fuel n w
      else ok w

-- The descendants of a schema node in schema order: the first child, below it its own descendants,
-- then the children after it.
pub data SchemaNodes : Type 0 where
  no_nodes : SchemaNodes
  schema_node : ℕ → SchemaNodes → SchemaNodes → SchemaNodes

unfoldable pub walk_schema_nodes : (ℕ → Walk → Outcome) → SchemaNodes → Walk → Outcome
walk_schema_nodes fn no_nodes w = ok w
walk_schema_nodes fn (schema_node n below after) w =
    fn n w >>= λ w'. walk_schema_nodes fn below w' >>= λ w''. walk_schema_nodes fn after w''

-- A module of the load order: `none` where it has no root.
pub record ModuleData : Type 0 where
  pub root : Option SchemaNodes
  pub implemented : Bool

-- The descendants of a module's root that the walk reaches, none where the module is skipped.
unfoldable pub walked_nodes : Option ModuleData → SchemaNodes
walked_nodes none = no_nodes
walked_nodes (some m) = elim m.root [
  | none ↦ no_nodes
  | some nodes ↦ if m.implemented then nodes else no_nodes
]

unfoldable pub walk_modules : (ℕ → Walk → Outcome) → List (Option ModuleData) → Walk → Outcome
unfolding walk_schema_nodes walked_nodes
walk_modules fn [] w = ok w
walk_modules fn (m ∷ ms) w = walk_schema_nodes fn (walked_nodes m) w >>= λ w'. walk_modules fn ms w'

abbrev pub new_walk : Walk
new_walk = record { pos = []; stack = []; warnings = [] }

-- `validateLeafrefCycles`, on fuel: no chain of visits is longer than the table.
unfoldable pub validate_leafref_cycles : Schema → Bool → List (Option ModuleData) → Outcome
unfolding walk_modules visit_once
validate_leafref_cycles g vendor load_order =
    walk_modules (visit_once g vendor (length g)) load_order new_walk
