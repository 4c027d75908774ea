-- ===== src/Canonical.antt =====
-- go/datatree/datatree_order.go: the canonical order of the values of ordered-by system lists and
-- leaf-lists. An int64 is an integer, a uint64 a natural number, a byte string the list of its bytes.
pub mod Bitmaps
pub mod Order
pub mod Bits
use cambium.Prelude.{
  ℕ, zero, suc, ◌+◌, ◌-◌, ◌*◌, ◌/◌, ◌%◌, ◌^◌, ◌≤◌, ◌<◌, ◌≡◌, refl, sym, ap, ◌∙◌, ◌≢◌, ◌↔◌, ◌⊎◌, inl,
  inr, Bool, true, false, not, ◌&&◌, ◌||◌, Option, none, some, List, [], ◌∷◌, ◌++◌, map, arith, ltb,
  leb, ◌==◌, if◌then◌else◌, Bool-cases, Option-cases, length, All, Any, All-map, All-append, ltb→lt,
  leb→le,
}
use cambium.Prelude.Comparison.{Comparison, below, same, above, order_of, compare_text, first_of}
use cambium.Prelude.Int.{ℤ, pos_part, neg_part}
use cambium.Strconv.{Text}

pub data OrderKind : Type 0 where
  order_bytes order_signed order_unsigned order_sized_bytes order_bits : OrderKind

pub record OrderKey : Type 0 where
  pub valid : Bool
  pub member : ℕ
  pub kind : OrderKind
  pub i : ℤ
  pub u : ℕ
  pub b : Text
  pub bits : List ℕ

-- `cmp.Compare` of two int64.
abbrev pub order_of_ℤ : ℤ → ℤ → Comparison
order_of_ℤ a b = order_of (pos_part a + neg_part b) (pos_part b + neg_part a)

-- `compareSparseBitmaps`, from the index `i` on; `x >> 8` is the index of a byte, `x & 0xff` the byte.
unfoldable pub compare_sparse_bitmaps : List ℕ → List ℕ → Comparison
compare_sparse_bitmaps [] [] = same
compare_sparse_bitmaps [] (y ∷ ys) = below
compare_sparse_bitmaps (x ∷ xs) [] = above
compare_sparse_bitmaps (x ∷ xs) (y ∷ ys) =
    let rest = compare_sparse_bitmaps xs ys in
    if not (x / 256 == y / 256)
    then (if ltb (x / 256) (y / 256) then above else below)
    else first_of (order_of (x % 256) (y % 256)) rest

-- The `switch` on the kind of the first key.
unfoldable pub compare_by_kind : OrderKind → OrderKey → OrderKey → Comparison
unfolding compare_text compare_sparse_bitmaps
compare_by_kind order_signed x y = order_of_ℤ x.i y.i
compare_by_kind order_unsigned x y = order_of x.u y.u
compare_by_kind order_sized_bytes x y =
    first_of (order_of (length x.b) (length y.b)) (compare_text x.b y.b)
compare_by_kind order_bits x y = compare_sparse_bitmaps x.bits y.bits
compare_by_kind order_bytes x y = compare_text x.b y.b

-- Two valid keys.
unfoldable pub compare_valid : OrderKey → OrderKey → Comparison
unfolding compare_by_kind
compare_valid x y =
    if not (x.member == y.member) then order_of y.member x.member else compare_by_kind x.kind x y

unfoldable pub compare_validity : Bool → Bool → OrderKey → OrderKey → Comparison
unfolding compare_valid compare_text
compare_validity true false x y = below
compare_validity false true x y = above
compare_validity false false x y = compare_text x.b y.b
compare_validity true true x y = compare_valid x y

unfoldable pub compare_order_keys : OrderKey → OrderKey → Comparison
unfolding compare_validity
compare_order_keys x y = compare_validity x.valid y.valid x y

-- The comparison of two list entries, key by key. The second entry has as many keys as the first.
unfoldable pub compare_entries : List OrderKey → List OrderKey → Comparison
unfolding compare_order_keys
compare_entries [] ys = same
compare_entries (x ∷ xs) [] = same
compare_entries (x ∷ xs) (y ∷ ys) = first_of (compare_order_keys x y) (compare_entries xs ys)
