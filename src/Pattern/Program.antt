-- ===== src/Pattern/Program.antt =====
-- go/yangpattern/runtime_program.go: the portable programs, and the tests on each node of
-- `RestoreWithLimits`.
use cambium.Prelude.Comparison.{Comparison, above}
use cambium.Prelude.{
  ℕ, ◌*◌, ◌^◌, Bool, true, false, not, ◌&&◌, ◌||◌, Option, none, some, List, [], ◌∷◌, ltb, ◌==◌,
  if◌then◌else◌, length,
}
use cambium.Strconv.{Text}
use cambium.Prelude.Int.{ℤ, pos, negsuc, ltb_ℤ}
use cambium.Pattern.{default_value}
use cambium.Pattern.Decimal.{canonical_decimal, decimal_compare}

abbrev pub format_version : ℕ
format_version = 1

-- `op_other` stands for each value that is no operation.
pub data Op : Type 0 where
  op_empty op_epsilon op_class op_alternate op_concat op_repeat op_other : Op

-- A rune is an int32, which a caller can make negative.
pub record ScalarRange : Type 0 where
  pub lo : ℤ
  pub hi : ℤ

pub record NodeData : Type 0 where
  pub op : Op
  pub children : List ℕ
  pub ranges : List ScalarRange
  pub min : Text
  pub max : Text
  pub unbounded : Bool

pub record ProgramData : Type 0 where
  pub version : ℕ
  pub source : Text
  pub nodes : List NodeData
  pub root : ℕ

pub record RestoreLimits : Type 0 where
  pub bytes : ℕ
  pub nodes : ℕ
  pub edges : ℕ
  pub depth : ℕ
  pub digits : ℕ
  pub ranges : ℕ
  pub work : ℕ

-- `RestoreLimits.defaults`.
unfoldable pub restore_defaults : RestoreLimits → RestoreLimits
unfolding default_value
restore_defaults l = record {
  bytes = default_value l.bytes (16 * 2 ^ 20);
  nodes = default_value l.nodes 32768;
  edges = default_value l.edges 65536;
  depth = default_value l.depth 256;
  digits = default_value l.digits 65536;
  ranges = default_value l.ranges 131072;
  work = default_value l.work 5000000;
}

-- The details of a configuration error.
pub data Detail : Type 0 where
  invalid_header empty_class unknown_opcode invalid_arity ranges_on_nonclass : Detail
  bounds_on_nonrepeat invalid_bounds child_out_of_bounds invalid_scalar_ranges : Detail
  cyclic_program nullable_child : Detail

abbrev pub is_class : Op → Bool
is_class op_class = true
is_class _ = false

abbrev pub is_repeat : Op → Bool
is_repeat op_repeat = true
is_repeat _ = false

abbrev pub is_other : Op → Bool
is_other op_other = true
is_other _ = false

abbrev pub arity : Op → ℕ
arity op_alternate = 2
arity op_concat = 2
arity op_repeat = 1
arity _ = 0

abbrev pub is_nil {ℓ} : {A : Type ℓ} → List A → Bool
is_nil [] = true
is_nil (x ∷ xs) = false

unfoldable pub is_above : Comparison → Bool
is_above above = true
is_above _ = false

-- The third test on the bounds of a repetition.
unfoldable pub bad_bounds : NodeData → Bool
unfolding is_above decimal_compare canonical_decimal
bad_bounds n =
    not (canonical_decimal n.min)
    || (not n.unbounded
        && (not (canonical_decimal n.max) || is_above (decimal_compare n.min n.max)))
    || (n.unbounded && not (is_nil n.max))

unfoldable pub children_below : ℕ → List ℕ → Bool
children_below count [] = true
children_below count (c ∷ cs) = ltb c count && children_below count cs

-- The test on one range behind `previous`.
unfoldable pub bad_range : ℤ → ScalarRange → Bool
bad_range previous r =
    ltb_ℤ r.lo (pos 0)
    || ltb_ℤ r.hi r.lo
    || ltb_ℤ (pos 0x10FFFF) r.hi
    || not (ltb_ℤ previous r.lo)
    || (not (ltb_ℤ (pos 0xDFFF) r.lo) && not (ltb_ℤ r.hi (pos 0xD800)))

unfoldable pub bad_ranges : ℤ → List ScalarRange → Bool
unfolding bad_range
bad_ranges previous [] = false
bad_ranges previous (r ∷ rs) = bad_range previous r || bad_ranges r.hi rs

-- The tests on one node of a table of `count` nodes, in the order of the code.
unfoldable pub shape_error : ℕ → NodeData → Option Detail
unfolding bad_bounds children_below bad_ranges
shape_error count n =
    if is_class n.op && is_nil n.ranges
    then some empty_class
    else if is_other n.op
    then some unknown_opcode
    else if not (length n.children == arity n.op)
    then some invalid_arity
    else if not (is_class n.op) && not (is_nil n.ranges)
    then some ranges_on_nonclass
    else if not (is_repeat n.op) && (not (is_nil n.min) || not (is_nil n.max) || n.unbounded)
    then some bounds_on_nonrepeat
    else if is_repeat n.op && bad_bounds n
    then some invalid_bounds
    else if not (children_below count n.children)
    then some child_out_of_bounds
    else if bad_ranges (negsuc 0) n.ranges
    then some invalid_scalar_ranges
    else none
