-- ===== src/Pattern/Language.antt =====
-- The texts that a node of a pattern program matches, with no algorithm in it.
use cambium.Prelude.{ℕ, suc, ◌≤◌, ◌≡◌, ◌⊎◌, true, some, List, [], ◌∷◌, ◌++◌, Any}
use cambium.Strconv.{Text}
use cambium.Prelude.Int.{pos, ◌≤ℤ◌}
use cambium.Pattern.Program.{
  NodeData, ScalarRange, op_epsilon, op_class, op_alternate, op_concat, op_repeat,
}
use cambium.Pattern.Decimal.Laws.{value}
use cambium.Pattern.Restore.{node_at}

abbrev pub InScalarRange : ℕ → ScalarRange → Type 0
InScalarRange c r = (r.lo ≤ℤ pos c) × (pos c ≤ℤ r.hi)

-- The count of repetitions is one that the bounds permit.
abbrev pub Counts : NodeData → ℕ → Type 0
Counts n k = (value n.min ≤ k) × ((n.unbounded ≡ true) ⊎ (k ≤ value n.max))

module _ (nodes : List NodeData) where
  mutual
    pub data Matches : ℕ → Text → Type 0 where
      by_epsilon :
          (id : ℕ) (n : NodeData) → node_at nodes id ≡ some n → n.op ≡ op_epsilon → Matches id []
      by_class :
          (id : ℕ) (n : NodeData) (c : ℕ)
          → node_at nodes id ≡ some n
          → n.op ≡ op_class
          → Any (InScalarRange c) n.ranges
          → Matches id (c ∷ [])
      by_left :
          (id : ℕ) (n : NodeData) (a z : ℕ) (w : Text)
          → node_at nodes id ≡ some n
          → n.op ≡ op_alternate
          → n.children ≡ a ∷ z ∷ []
          → Matches a w
          → Matches id w
      by_right :
          (id : ℕ) (n : NodeData) (a z : ℕ) (w : Text)
          → node_at nodes id ≡ some n
          → n.op ≡ op_alternate
          → n.children ≡ a ∷ z ∷ []
          → Matches z w
          → Matches id w
      by_concat :
          (id : ℕ) (n : NodeData) (a z : ℕ) (u v : Text)
          → node_at nodes id ≡ some n
          → n.op ≡ op_concat
          → n.children ≡ a ∷ z ∷ []
          → Matches a u
          → Matches z v
          → Matches id (u ++ v)
      by_repeat :
          (id : ℕ) (n : NodeData) (c k : ℕ) (w : Text)
          → node_at nodes id ≡ some n
          → n.op ≡ op_repeat
          → n.children ≡ c ∷ []
          → Counts n k
          → Times c k w
          → Matches id w

    -- So many texts of the node, one behind the other.
    pub data Times : ℕ → ℕ → Text → Type 0 where
      times_zero : (c : ℕ) → Times c 0 []
      times_suc : (c k : ℕ) (u v : Text) → Matches c u → Times c k v → Times c (suc k) (u ++ v)
