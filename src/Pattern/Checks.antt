-- ===== src/Pattern/Checks.antt =====
-- go/yangpattern/runtime_program.go: the errors of `RestoreWithLimits`, and its first loop, which tests
-- each node.
use cambium.Prelude.{ℕ, ◌+◌, Bool, true, false, Option, none, some, List, [], ◌∷◌, length}
use cambium.Prelude.Result.{Result, ok, err, ◌>>=◌}
use cambium.Pattern.{
  Ledger, ResourceError, restore_validate, of_edges, of_ranges, of_digits, add_sat, mul_sat,
  limit_error, charge,
}
use cambium.Pattern.Program.{NodeData, RestoreLimits, Detail, shape_error}

-- `index_panic` is the run-time panic of an index out of range; `out_of_fuel` is of the model.
pub data RestoreError : Type 0 where
  configuration : Detail → RestoreError
  resource : Option ResourceError → RestoreError
  index_panic out_of_fuel : RestoreError

-- `if !b.charge(...) { return nil, b.err }`.
unfoldable pub spent : Bool × Ledger → Result RestoreError Ledger
spent (true, b) = ok b
spent (false, b) = err (resource b.failure)

-- `if err := limitError(...); err != nil { return err }`, and what follows.
unfoldable pub within {ℓ} :
    {A : Type ℓ} → Option ResourceError → Result RestoreError A → Result RestoreError A
within none next = next
within (some e) next = err (resource (some e))

unfoldable pub shaped : Option Detail → Ledger → Result RestoreError Ledger
shaped none b = ok b
shaped (some d) b = err (configuration d)

pub record Totals : Type 0 where
  pub edges : ℕ
  pub ranges : ℕ
  pub digits : ℕ

unfoldable pub add_node : Totals → NodeData → Totals
unfolding add_sat
add_node t n = record {
  edges = add_sat t.edges (length n.children);
  ranges = add_sat t.ranges (length n.ranges);
  digits = add_sat t.digits (length n.min + length n.max);
}

-- One round of the first loop.
unfoldable pub check_node :
    ℕ → RestoreLimits → Totals → Ledger → NodeData → Result RestoreError Ledger
unfolding within spent shaped limit_error charge
check_node count l t b n =
    let digits = length n.min + length n.max in
    let bytes =
      add_sat (mul_sat (length n.children) 8) (add_sat (mul_sat (length n.ranges) 16) digits) in
    let work = add_sat (length n.children + length n.ranges) (mul_sat digits 2) in
    let charged = (spent (charge b bytes work) >>= λ b'. shaped (shape_error count n) b') in
    within (limit_error restore_validate of_edges l.edges t.edges) (
      within (limit_error restore_validate of_ranges l.ranges t.ranges)
        (within (limit_error restore_validate of_digits l.digits t.digits) charged))

unfoldable pub check_nodes :
    ℕ → RestoreLimits → Totals → Ledger → List NodeData → Result RestoreError Ledger
unfolding check_node add_node
check_nodes count l t b [] = ok b
check_nodes count l t b (n ∷ ns) =
    let t' = add_node t n in check_node count l t' b n >>= λ b'. check_nodes count l t' b' ns
