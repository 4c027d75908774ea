-- ===== src/Samples/Patterns.antt =====
-- Runs of the pattern ledger and of the restoring of pattern programs, and the theorems at concrete inputs.
use cambium.Pattern.Checks.{configuration, resource}
use cambium.Prelude.Comparison.{order_of}
use cambium.Prelude.{
  ◌^◌, ◌≤◌, ◌<◌, ◌≡◌, refl, ◌↔◌, ◌⊎◌, inl, true, false, Option, none, some, [], ◌∷◌, arith, length,
}
use cambium.Strconv.{Text}
use cambium.Prelude.Int.{pos}
use cambium.Prelude.Result.{ok, err}
use cambium.IfFeature.Tokenizer.{codes}
use cambium.Pattern.{Ledger, ResourceError, restore_validate, charge, add_sat}
use cambium.Pattern.Charging.{Fits, charge_lem}
use cambium.Pattern.Decimal.{decimal_compare, decimal_uint, canonical_decimal}
use cambium.Pattern.Decimal.Laws.{decimal_compare_lem, decimal_uint_lem, value, clip}
use cambium.Pattern.Program.{
  NodeData, ProgramData, RestoreLimits, restore_defaults, Detail, op_class, op_repeat, op_concat,
}
use cambium.Pattern.Restore.{Program, restore_with_limits, node_at}
use cambium.Pattern.Restore.Promises.{
  restore-nullable, restore-minimum, restore-shallow, restore-acyclic, Steps, stay,
}
use cambium.Pattern.Restore.Fuel.{restore_total}
use cambium.Pattern.Language.{Matches, by_class}

abbrev ledger : Ledger
ledger = record {
  place = restore_validate;
  bytes = 10;
  work = 3;
  byte_limit = 100;
  work_limit = 5;
  failure = none;
}

charge_lem_example :
    (Fits ledger 7 1 × (charge ledger 7 1 ≡ (true, record ledger { bytes = 17; work = 4 })))
    ⊎ (¬ (Fits ledger 7 1)
        × ((e : ResourceError) × (charge ledger 7 1 ≡ (false, record ledger { failure = some e }))))
charge_lem_example = charge_lem ledger 7 1 refl (omega arith, omega arith, omega arith, omega arith)

decimal_compare_lem_example :
    decimal_compare (codes "99") (codes "100") ≡ order_of (value (codes "99")) (value (codes "100"))
decimal_compare_lem_example =
    decimal_compare_lem (codes "99") (codes "100") (unfold canonical_decimal in refl)
      (unfold canonical_decimal in refl)

decimal_uint_lem_example : decimal_uint (codes "307") ≡ clip (value (codes "307"))
decimal_uint_lem_example = decimal_uint_lem (codes "307") (ground arith)

-- [a-z]{0,3}[a-z]
abbrev letters_program : ProgramData
letters_program = record {
  version = 1;
  source = [];
  nodes =
      record {
        op = op_class;
        children = [];
        ranges = record { lo = pos b'a'; hi = pos b'z' } ∷ [];
        min = [];
        max = [];
        unbounded = false;
      }
      ∷ record {
        op = op_repeat;
        children = 0 ∷ [];
        ranges = [];
        min = codes "0";
        max = codes "3";
        unbounded = false;
      }
      ∷ record {
        op = op_concat;
        children = 1 ∷ 0 ∷ [];
        ranges = [];
        min = [];
        max = [];
        unbounded = false;
      }
      ∷ [];
  root = 2;
}

abbrev default_limits : RestoreLimits
default_limits = record {
  bytes = 0;
  nodes = 0;
  edges = 0;
  depth = 0;
  digits = 0;
  ranges = 0;
  work = 0;
}

abbrev some_program : Program
some_program = record {
  portable = letters_program;
  nullable = λ i. false;
  minimum = λ i. 0;
  bounds = λ i. record { lower = 0; upper = 0 };
}

abbrev restored_program : Program
restored_program = elim (restore_with_limits letters_program default_limits) [
  | ok p ↦ p
  | err e ↦ some_program
]

restored : restore_with_limits letters_program default_limits ≡ ok restored_program
unfolding restore_with_limits cambium.Pattern.Program.shape_error
restored = refl

small : (restore_defaults default_limits).depth < 2 ^ 63
unfolding restore_defaults
small = omega arith

restore-nullable_example : (restored_program.nullable 1 ≡ true) ↔ Matches letters_program.nodes 1 []
restore-nullable_example =
    restore-nullable letters_program default_limits restored_program restored small 1 (omega arith)

abbrev k_text : Text
k_text = b'k' ∷ []

letter : Matches letters_program.nodes 0 k_text
unfolding node_at
letter =
    by_class 0
      (record {
        op = op_class;
        children = [];
        ranges = record { lo = pos b'a'; hi = pos b'z' } ∷ [];
        min = [];
        max = [];
        unbounded = false;
      })
      b'k' refl refl (inl (omega arith, omega arith))

restore-minimum_example : restored_program.minimum 0 ≤ length k_text
restore-minimum_example =
    restore-minimum letters_program default_limits restored_program restored small 0 k_text
      (omega arith) letter

restore-shallow_example : 1 ≤ (restore_defaults default_limits).depth
restore-shallow_example =
    restore-shallow letters_program default_limits restored_program restored small 2 0 2
      (omega arith) (stay 2)

restore-acyclic_example : ¬ (Steps letters_program.nodes 2 1 2)
restore-acyclic_example =
    restore-acyclic letters_program default_limits restored_program restored small 2 0 (omega arith)

restore_total_example :
    ((p : Program) × (restore_with_limits letters_program default_limits ≡ ok p))
    ⊎ ((c : Detail) × (restore_with_limits letters_program default_limits ≡ err (configuration c)))
    ⊎ ((e : Option ResourceError) × (restore_with_limits letters_program default_limits
          ≡ err (resource e)))
restore_total_example = restore_total letters_program default_limits
