-- ===== src/Pattern/Restore.antt =====
-- go/yangpattern/runtime_program.go: `RestoreWithLimits`, up to the preparation of the native engine,
-- which is optional. A slice that is indexed by nodes is a function.
pub mod Estimates
pub mod Facts
pub mod Step
pub mod Invariant
pub mod Visiting
pub mod Correct
pub mod Accepted
pub mod Promises
pub mod Fuel
use cambium.Pattern.Checks.{
  RestoreError, configuration, resource, index_panic, out_of_fuel, spent, within, shaped, Totals,
  add_node, check_node, check_nodes,
}
use cambium.Prelude.{
  ℕ, zero, suc, ◌+◌, ◌-◌, Bool, true, false, not, ◌&&◌, ◌||◌, Option, none, some, List, [], ◌∷◌,
  ltb, ◌==◌, if◌then◌else◌, length,
}
use cambium.Strconv.{Text, max_uint64}
use cambium.Prelude.Result.{Result, ok, err, ◌>>=◌}
use cambium.Pattern.{
  Ledger, ResourceError, restore_validate, of_depth, of_nodes, of_edges, of_ranges, of_digits,
  add_sat, mul_sat, limit_error, charge,
}
use cambium.Pattern.Decimal.{decimal_uint}
use cambium.Pattern.Program.{
  NodeData, ProgramData, RestoreLimits, restore_defaults, Detail, format_version, op_empty,
  op_epsilon, op_class, op_alternate, op_concat, op_repeat, op_other, Op, is_nil, shape_error,
  invalid_header, cyclic_program, nullable_child,
}

-- The colors 0, 1 and 2.
pub data Color : Type 0 where
  white grey black : Color

pub record Bounds : Type 0 where
  pub lower : ℕ
  pub upper : ℕ

pub record Search : Type 0 where
  pub color : ℕ → Color
  pub nullable : ℕ → Bool
  pub minimum : ℕ → ℕ
  pub bounds : ℕ → Bounds
  pub depths : ℕ → ℕ
  pub ledger : Ledger

-- `slice[i] = v`.
unfoldable pub set {ℓ} : {A : Type ℓ} → (ℕ → A) → ℕ → A → ℕ → A
set f i v j = if j == i then v else f j

unfoldable pub max_of : ℕ → ℕ → ℕ
max_of a b = if ltb a b then b else a

unfoldable pub min_of : ℕ → ℕ → ℕ
min_of a b = if ltb b a then b else a

unfoldable pub node_at : List NodeData → ℕ → Option NodeData
node_at [] i = none
node_at (n ∷ ns) zero = some n
node_at (n ∷ ns) (suc i) = node_at ns i

-- `n.Min == "0"`.
unfoldable pub is_zero_text : Text → Bool
is_zero_text (d ∷ []) = d == b'0'
is_zero_text _ = false

-- What a repetition of the child `c` leaves in the slices at `id`.
unfoldable pub repetition : NodeData → ℕ → Search → ℕ → Ledger → Search
unfolding set decimal_uint mul_sat is_zero_text
repetition n c s id b =
    let lower = decimal_uint n.min in
    record s {
      ledger = b;
      bounds = set s.bounds id (record { lower = lower; upper = decimal_uint n.max });
      nullable = set s.nullable id (is_zero_text n.min);
      minimum = set s.minimum id (if is_zero_text n.min then 0 else mul_sat lower (s.minimum c));
    }

-- The `switch` of `visit`.
unfoldable pub finish : NodeData → Op → List ℕ → Search → ℕ → Result RestoreError Search
unfolding repetition set min_of add_sat charge spent
finish n op_empty cs s id = ok (record s { minimum = set s.minimum id max_uint64 })
finish n op_epsilon cs s id = ok (record s { nullable = set s.nullable id true })
finish n op_class cs s id = ok (record s { minimum = set s.minimum id 1 })
finish n op_alternate (a ∷ z ∷ cs) s id = ok (record s {
  nullable = set s.nullable id (s.nullable a || s.nullable z);
  minimum = set s.minimum id (min_of (s.minimum a) (s.minimum z));
})
finish n op_concat (a ∷ z ∷ cs) s id = ok (record s {
  nullable = set s.nullable id (s.nullable a && s.nullable z);
  minimum = set s.minimum id (add_sat (s.minimum a) (s.minimum z));
})
finish n op_repeat (c ∷ cs) s id =
    let charged =
      (spent (charge s.ledger 0 (length n.min + length n.max)) >>= λ b.
      ok (repetition n c s id b)) in
    if s.nullable c then err (configuration nullable_child) else charged
finish n op_other cs s id = ok s
finish n _ cs s id = err index_panic

-- The loop of `visit` over the children; `go` is the recursive call.
unfoldable pub visit_children :
    (Search → ℕ → Result RestoreError Search)
    → Search
    → List ℕ
    → ℕ
    → Result RestoreError (Search × ℕ)
unfolding max_of
visit_children go s [] height = ok (s, height)
visit_children go s (c ∷ cs) height =
    go s c >>= λ t. visit_children go t cs (max_of height (t.depths c + 1))

-- `color[id] = 2; depths[id] = height`.
unfoldable pub blackened : ℕ → ℕ → Search → Search
unfolding set
blackened id height s = record s { color = set s.color id black; depths = set s.depths id height }

unfoldable pub greyed : ℕ → Search → Ledger → Search
unfolding set
greyed id s b = record s { color = set s.color id grey; ledger = b }

-- `visit` of a white node behind the charge.
unfoldable pub visit_node :
    (Search → ℕ → Result RestoreError Search)
    → Option NodeData
    → Search
    → ℕ
    → Result RestoreError Search
unfolding visit_children finish blackened
visit_node go none s id = err index_panic
visit_node go (some n) s id = visit_children go s n.children 1 >>= λ (t, height).
    finish n n.op n.children t id >>= λ u. ok (blackened id height u)

-- The closure `visit`; every call is one deeper, and the depth is bounded by the limit.
unfoldable pub visit : ℕ → List NodeData → ℕ → Search → ℕ → ℕ → Result RestoreError Search
unfolding visit_node within spent limit_error add_sat charge greyed node_at
visit limit nodes zero s id depth = err out_of_fuel
visit limit nodes (suc f) s id depth =
    let go : Search → ℕ → Result RestoreError Search =
      (λ t c. visit limit nodes f t c (depth + 1)) in
    let seen = add_sat depth (s.depths id) - 1 in
    let entered =
      (spent (charge s.ledger 0 1) >>= λ b. visit_node go (node_at nodes id) (greyed id s b) id) in
    within (limit_error restore_validate of_depth limit depth) (elim (s.color id) [
      | grey ↦ err (configuration cyclic_program)
      | black ↦ within (limit_error restore_validate of_depth limit seen) (ok s)
      | white ↦ entered
    ])

-- `for i := range d.Nodes`, from `i` on, with as many rounds as there are nodes left.
unfoldable pub visit_all : ℕ → List NodeData → Search → ℕ → ℕ → Result RestoreError Search
unfolding visit
visit_all limit nodes s i zero = ok s
visit_all limit nodes s i (suc left) =
    visit limit nodes (limit + 2) s i 1 >>= λ t. visit_all limit nodes t (i + 1) left

-- A program in memory; its native engine is left out.
pub record Program : Type 0 where
  pub portable : ProgramData
  pub nullable : ℕ → Bool
  pub minimum : ℕ → ℕ
  pub bounds : ℕ → Bounds

abbrev pub unvisited : Ledger → Search
unvisited b = record {
  color = λ i. white;
  nullable = λ i. false;
  minimum = λ i. 0;
  bounds = λ i. record { lower = 0; upper = 0 };
  depths = λ i. 0;
  ledger = b;
}

unfoldable pub bad_header : ProgramData → Bool
bad_header d =
    not (d.version == format_version) || is_nil d.nodes || not (ltb d.root (length d.nodes))

abbrev pub new_ledger : RestoreLimits → Ledger
new_ledger l = record {
  place = restore_validate;
  bytes = 0;
  work = 0;
  byte_limit = l.bytes;
  work_limit = l.work;
  failure = none;
}

abbrev pub no_totals : Totals
no_totals = record { edges = 0; ranges = 0; digits = 0 }

-- `RestoreWithLimits` behind `l := limits.defaults()`.
unfoldable pub restore_within : ProgramData → RestoreLimits → Result RestoreError Program
unfolding visit_all check_nodes within spent bad_header charge limit_error add_sat mul_sat
restore_within d l =
    let count = length d.nodes in
    let bytes = add_sat (length d.source) (mul_sat count 272) in
    let checked =
      (spent (charge (new_ledger l) bytes count) >>= λ b.
      check_nodes count l no_totals b d.nodes >>= λ b'.
      visit_all l.depth d.nodes (unvisited b') 0 count >>= λ s.
      ok
        (record { portable = d; nullable = s.nullable; minimum = s.minimum; bounds = s.bounds })) in
    if bad_header d
    then err (configuration invalid_header)
    else within (limit_error restore_validate of_nodes l.nodes count) checked

unfoldable pub restore_with_limits : ProgramData → RestoreLimits → Result RestoreError Program
unfolding restore_within restore_defaults
restore_with_limits d limits = restore_within d (restore_defaults limits)
