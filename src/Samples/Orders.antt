-- ===== src/Samples/Orders.antt =====
-- Runs of the canonical order, and the theorems at concrete inputs.
use cambium.Canonical.Bits.{EnumValue, bits_bitmap, bits_order_bitmap}
use cambium.Canonical.Bits.Sparse.{bits_bitmap-IsSparse}
use cambium.Prelude.{none, some, ℕ, zero, suc, ◌≡◌, refl, true, List, [], ◌∷◌, arith}
use cambium.Prelude.Int.{ℤ, pos, negsuc}
use cambium.Prelude.Comparison.{below, compare_text, Composes}
use cambium.IfFeature.Tokenizer.{codes}
use cambium.Canonical.{
  OrderKey, OrderKind, order_bytes, order_signed, compare_sparse_bitmaps, compare_order_keys,
}
use cambium.Canonical.Bitmaps.{IsSparse, dense, compare_sparse_bitmaps-dense}
use cambium.Canonical.Order.{compare_order_keys-Composes}

-- Byte 0 with bit 3, and byte 2 with bit 0.
abbrev sparse : List ℕ
sparse = 8 ∷ 513 ∷ []

-- Byte 1 with bits 0 and 1.
abbrev sparse' : List ℕ
sparse' = 259 ∷ []

compare_sparse_bitmaps-dense_example :
    compare_sparse_bitmaps sparse sparse' ≡ compare_text (dense 0 3 sparse) (dense 0 3 sparse')
compare_sparse_bitmaps-dense_example =
    compare_sparse_bitmaps-dense 3 sparse sparse'
      (omega arith, omega arith, omega arith, (omega arith, omega arith, omega arith, tt))
      (omega arith, omega arith, omega arith, tt)

-- A union of an integer and a string.
abbrev kinds : ℕ → OrderKind
kinds zero = order_signed
kinds (suc n) = order_bytes

abbrev number_key : ℤ → OrderKey
number_key i = record {
  valid = true;
  member = 0;
  kind = order_signed;
  i = i;
  u = 0;
  b = [];
  bits = [];
}

abbrev text_key : OrderKey
text_key = record {
  valid = true;
  member = 1;
  kind = order_bytes;
  i = pos 0;
  u = 0;
  b = codes "auto";
  bits = [];
}

compare_order_keys-Composes_example :
    Composes
      (compare_order_keys text_key (number_key (negsuc 4)))
      (compare_order_keys (number_key (negsuc 4)) (number_key (pos 3)))
      (compare_order_keys text_key (number_key (pos 3)))
compare_order_keys-Composes_example =
    compare_order_keys-Composes kinds text_key (number_key (negsuc 4)) (number_key (pos 3)) refl
      refl refl

text_first : compare_order_keys text_key (number_key (negsuc 4)) ≡ below
unfolding compare_order_keys
text_first = refl

bits_bitmap-IsSparse_example : IsSparse 0 3 (bits_bitmap (16 ∷ 3 ∷ []))
bits_bitmap-IsSparse_example =
    bits_bitmap-IsSparse 3 (16 ∷ 3 ∷ []) (omega arith) (omega arith, (omega arith, tt))

abbrev flags : List EnumValue
flags =
    record { name = codes "up"; value = pos 3 }
    ∷ record { name = codes "loop"; value = pos 16 }
    ∷ []

two_flags : bits_order_bitmap (codes "loop  up") flags ≡ some sparse
unfolding bits_order_bitmap
two_flags = refl

twice : bits_order_bitmap (codes "up up") flags ≡ none
unfolding bits_order_bitmap
twice = refl
