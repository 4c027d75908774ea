-- ===== src/Canonical/Bits.antt =====
-- go/datatree/datatree_order.go, go/datatree/datatree_canonical.go: the bits that a value names, and their
-- bitmap. The string is what `jsonStringValue` reads from the token.
pub mod Sparse
use cambium.Prelude.{
  ℕ, zero, suc, ◌+◌, ◌-◌, ◌*◌, ◌/◌, ◌%◌, ◌^◌, ◌≤◌, ◌<◌, ◌≡◌, refl, sym, ap, ◌∙◌, ◌≢◌, ◌↔◌, ◌⊎◌, inl,
  inr, Bool, true, false, not, ◌&&◌, ◌||◌, Option, none, some, List, [], ◌∷◌, ◌++◌, map, arith, ltb,
  leb, ◌==◌, if◌then◌else◌, Bool-cases, Option-cases, length, All, Any, All-map, All-append, ltb→lt,
  leb→le,
}
use cambium.Strconv.{Text, split}
use cambium.Prelude.Int.{ℤ, pos, negsuc}
use cambium.IfFeature.Tokenizer.{same_word}
use cambium.Identifiers.{is_used}

pub record EnumValue : Type 0 where
  pub name : Text
  pub value : ℤ

unsigned_position : ℤ → Option ℕ
unsigned_position (pos n) = some n
unsigned_position (negsuc n) = none

unfoldable pub bit_position : List EnumValue → Text → Option ℕ
unfolding same_word unsigned_position
bit_position [] name = none
bit_position (v ∷ values) name =
    let rest = bit_position values name in
    if same_word v.name name then unsigned_position v.value else rest

-- One name more in front, with its position.
unfoldable pub with_bit : Bool → Option ℕ → Option (List ℕ) → Option (List ℕ)
with_bit true position rest = none
with_bit false none rest = none
with_bit false (some p) none = none
with_bit false (some p) (some ps) = some (p ∷ ps)

-- The loop over the names: the positions in the order of the text; `none` for a name that is undefined or
-- comes twice.
unfoldable pub positions_of : List EnumValue → List Text → List Text → Option (List ℕ)
unfolding with_bit bit_position is_used
positions_of values seen [] = some []
positions_of values seen ([] ∷ names) = positions_of values seen names
positions_of values seen ((c ∷ s) ∷ names) =
    with_bit (is_used seen (c ∷ s)) (bit_position values (c ∷ s))
      (positions_of values ((c ∷ s) ∷ seen) names)

-- `b |= 1 << i`.
unfoldable pub or_bit : ℕ → ℕ → ℕ
or_bit b i = if (b / 2 ^ i) % 2 == 1 then b else b + 2 ^ i

-- `byteOf[pos/8] |= 1 << (pos % 8)`, on the pairs of the map.
unfoldable pub add_bit : ℕ → List (ℕ × ℕ) → List (ℕ × ℕ)
unfolding or_bit
add_bit p [] = (p / 8, or_bit 0 (p % 8)) ∷ []
add_bit p ((k, b) ∷ m) =
    let rest = add_bit p m in if k == p / 8 then (k, or_bit b (p % 8)) ∷ m else (k, b) ∷ rest

unfoldable pub add_bits : List ℕ → List (ℕ × ℕ) → List (ℕ × ℕ)
unfolding add_bit
add_bits [] m = m
add_bits (p ∷ ps) m = add_bits ps (add_bit p m)

-- The pairs in the order of `slices.Sort(idx)`.
unfoldable pub insert_byte : ℕ × ℕ → List (ℕ × ℕ) → List (ℕ × ℕ)
insert_byte x [] = x ∷ []
insert_byte x (y ∷ m) =
    let later = insert_byte x m in if ltb (y.0) (x.0) then y ∷ later else x ∷ y ∷ m

unfoldable pub sorted_bytes : List (ℕ × ℕ) → List (ℕ × ℕ)
unfolding insert_byte
sorted_bytes [] = []
sorted_bytes (x ∷ m) = insert_byte x (sorted_bytes m)

-- `k<<8 | byteOf[k]`.
unfoldable pub encoded : List (ℕ × ℕ) → List ℕ
encoded [] = []
encoded ((k, b) ∷ m) = (k * 256 % 2 ^ 64 + b) ∷ encoded m

unfoldable pub bits_bitmap : List ℕ → List ℕ
unfolding encoded sorted_bytes add_bits
bits_bitmap ps = encoded (sorted_bytes (add_bits ps []))

unfoldable pub bits_order_bitmap : Text → List EnumValue → Option (List ℕ)
unfolding bits_bitmap positions_of split
bits_order_bitmap s values = elim (positions_of values [] (split b' ' s)) [
  | none ↦ none
  | some ps ↦ some (bits_bitmap ps)
]
