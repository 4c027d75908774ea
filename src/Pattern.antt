-- ===== src/Pattern.antt =====
-- go/yangpattern: pattern programs, and the ledger that bounds the work on them
-- (go/yangpattern/runtime_limits.go). A uint64 is a natural number.
pub mod Checks
pub mod Charging
pub mod Decimal
pub mod Program
pub mod Language
pub mod Restore
use cambium.Prelude.{
  ℕ, zero, suc, ◌+◌, ◌-◌, ◌*◌, ◌/◌, ◌%◌, ◌^◌, ◌≤◌, ◌<◌, ◌≡◌, refl, sym, ap, ◌∙◌, ◌≢◌, ◌↔◌, ◌⊎◌, inl,
  inr, Bool, true, false, not, ◌&&◌, ◌||◌, Option, none, some, List, [], ◌∷◌, ◌++◌, map, arith, ltb,
  leb, ◌==◌, if◌then◌else◌, Bool-cases, Option-cases, length, All, Any, All-map, All-append, ltb→lt,
  leb→le,
}
use cambium.Strconv.{max_uint64}

-- The phase and the stage of an error.
pub data Place : Type 0 where
  restore_validate match_derivative : Place

pub data Limit : Type 0 where
  of_bytes of_work of_nodes of_edges of_ranges of_digits of_depth : Limit

-- `overflow` is the suffix of the limit's name.
pub record ResourceError : Type 0 where
  pub place : Place
  pub limit : Limit
  pub overflow : Bool
  pub allowance : ℕ
  pub observed : ℕ

unfoldable pub default_value : ℕ → ℕ → ℕ
default_value v d = if v == 0 then d else v

unfoldable pub add_sat : ℕ → ℕ → ℕ
add_sat a b = if ltb (max_uint64 - a) b then max_uint64 else a + b

unfoldable pub mul_sat : ℕ → ℕ → ℕ
mul_sat a b = if not (a == 0) && ltb (max_uint64 / a) b then max_uint64 else a * b

unfoldable pub limit_error : Place → Limit → ℕ → ℕ → Option ResourceError
limit_error place name limit observed =
    if observed == max_uint64
    then some (record {
      place = place;
      limit = name;
      overflow = true;
      allowance = if ltb limit (observed - 1) then limit else observed - 1;
      observed = observed;
    })
    else if ltb limit observed
    then some (record {
      place = place;
      limit = name;
      overflow = false;
      allowance = limit;
      observed = observed;
    })
    else none

pub record Ledger : Type 0 where
  pub place : Place
  pub bytes : ℕ
  pub work : ℕ
  pub byte_limit : ℕ
  pub work_limit : ℕ
  pub failure : Option ResourceError

-- `charge` behind its first test, at the two sums.
charge_sums : Ledger → ℕ → ℕ → Option ResourceError → Option ResourceError → Bool × Ledger
charge_sums b next_bytes next_work (some e) over_work = (false, record b { failure = some e })
charge_sums b next_bytes next_work none (some e) = (false, record b { failure = some e })
charge_sums b next_bytes next_work none none =
    (true, record b { bytes = next_bytes; work = next_work })

charge_open : Ledger → ℕ → ℕ → Bool × Ledger
unfolding charge_sums add_sat limit_error
charge_open b bytes work =
    let next_bytes = add_sat b.bytes bytes in
    let next_work = add_sat b.work work in
    charge_sums b next_bytes next_work (limit_error b.place of_bytes b.byte_limit next_bytes)
      (limit_error b.place of_work b.work_limit next_work)

-- The answer, and the ledger behind the call.
unfoldable pub charge : Ledger → ℕ → ℕ → Bool × Ledger
unfolding charge_open
charge b bytes work = elim b.failure [ some e ↦ (false, b) | none ↦ charge_open b bytes work ]
