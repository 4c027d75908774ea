-- ===== src/Samples/Leafrefs.antt =====
-- Runs and theorems of the search for leafref cycles on small schemas.
use cambium.Leafref.Verdict.{
  validate_leafref_cycles_vendor, validate_leafref_cycles_error, validate_leafref_cycles_iff,
  IsCircular, IsAcyclic,
}
use cambium.Leafref.Fuel.{validate_leafref_cycles_ends}
use cambium.Prelude.{◌≡◌, refl, ◌≢◌, ◌↔◌, true, false, Option, none, some, List, [], ◌∷◌, All}
use cambium.Prelude.Result.{ok, err}
use cambium.Leafref.{
  Walk, validate_leafref_cycles, Report, ModuleData, Schema, ResolvedType, leaf_ref, unresolved,
  other_type, union, no_members, member, circular_chain, fuel_spent, schema_node, no_nodes,
}

-- 0 is no leafref; 1 refers to 0 and to 2 by a union; 2 refers to 3, and 3 to 1.
abbrev looped : Schema
looped =
    some other_type
    ∷ some (union (member (leaf_ref 0) (member (leaf_ref 2) no_members)))
    ∷ some (leaf_ref 3)
    ∷ some (leaf_ref 1)
    ∷ []

-- The same, where 3 is not resolved.
abbrev straight : Schema
straight =
    some other_type
    ∷ some (union (member (leaf_ref 0) (member (leaf_ref 2) no_members)))
    ∷ some (leaf_ref 3)
    ∷ some unresolved
    ∷ []

abbrev loaded : List (Option ModuleData)
loaded =
    none
    ∷ some (record {
      root =
          some (schema_node 0 (schema_node 3 no_nodes no_nodes) (schema_node 2 no_nodes no_nodes));
      implemented = true;
    })
    ∷ []

abbrev chain_of_three : Report
chain_of_three = record { start = 3; cycle = 3 ∷ 1 ∷ 2 ∷ 3 ∷ [] }

finds_cycle : validate_leafref_cycles looped false loaded ≡ err (circular_chain chain_of_three)
unfolding validate_leafref_cycles cambium.Leafref.type_info cambium.Leafref.mark_of
finds_cycle = refl

validate_leafref_cycles_ends_example : validate_leafref_cycles looped true loaded ≢ err fuel_spent
validate_leafref_cycles_ends_example = validate_leafref_cycles_ends looped true loaded

validate_leafref_cycles_iff_example :
    ((w : Walk) × (validate_leafref_cycles straight false loaded ≡ ok w))
    ↔ IsAcyclic straight loaded
validate_leafref_cycles_iff_example = validate_leafref_cycles_iff straight loaded

validate_leafref_cycles_error_example :
    (r : Report) × (circular_chain chain_of_three ≡ circular_chain r) × IsCircular looped loaded r
validate_leafref_cycles_error_example =
    validate_leafref_cycles_error looped loaded (circular_chain chain_of_three) finds_cycle

validate_leafref_cycles_vendor_example :
    (w : Walk) × (validate_leafref_cycles looped true loaded ≡ ok w)
    × All (IsCircular looped loaded) w.warnings
    × ((w.warnings ≡ []) ↔ IsAcyclic looped loaded)
validate_leafref_cycles_vendor_example = validate_leafref_cycles_vendor looped loaded
