-- ===== src/Pattern/Restore/Facts.antt =====
-- go/yangpattern/runtime_program.go: the facts that `visit` finds out about one node, from those of the
-- children.
use cambium.Pattern.Restore.Estimates.{
  append_nil_parts, add_sat_le, mul_sat_le, decimal_uint_le, zero_text-value, value-zero_text,
}
use cambium.Prelude.{if◌then◌else◌}
use cambium.Pattern.Decimal.Laws.{canonical-IsDigit}
use cambium.Pattern.Decimal.{decimal_uint, canonical_decimal}
use cambium.Pattern.{mul_sat, add_sat}
use native.Mathlib.Nat.{mul-le-mul}
use cambium.Prelude.{
  ◌||◌, length-append, ◌&&◌, ◌*◌, subst, ℕ, ◌≤◌, ◌≡◌, refl, sym, ◌↔◌, ◌⊎◌, inl, inr, Bool, true,
  false, some, List, [], ◌∷◌, ◌++◌, arith, length, Any,
}
use cambium.Strconv.{Text, max_uint64}
use cambium.Pattern.Program.{
  NodeData, Op, op_empty, op_epsilon, op_class, op_alternate, op_concat, op_repeat,
}
use cambium.Pattern.Language.{
  times_suc, times_zero, Matches, Times, by_epsilon, by_class, by_left, by_right, by_concat,
  by_repeat, Counts, InScalarRange,
}
use cambium.Pattern.Restore.{min_of, is_zero_text, node_at}

-- The answer about the empty text, and the bound on the length of a text, are right for a node.
abbrev pub Right : List NodeData → ℕ → Bool → ℕ → Type 0
Right nodes id nullable minimum =
    ((nullable ≡ true) ↔ Matches nodes id [])
    × ((w : Text) → Matches nodes id w → minimum ≤ length w)

module _ (nodes : List NodeData) where
  -- What a node with the operation matches, by the children.
  abbrev Parts : Op → NodeData → Text → Type 0
  Parts op_epsilon n w = w ≡ []
  Parts op_class n w = (c : ℕ) × (w ≡ c ∷ []) × Any (InScalarRange c) n.ranges
  Parts op_alternate n w =
      (a : ℕ) × (z : ℕ) × (n.children ≡ a ∷ z ∷ []) × (Matches nodes a w ⊎ Matches nodes z w)
  Parts op_concat n w =
      (a : ℕ) × (z : ℕ) × (u : Text) × (v : Text) × (n.children ≡ a ∷ z ∷ [])
      × (w ≡ u ++ v)
      × Matches nodes a u
      × Matches nodes z v
  Parts op_repeat n w = (c : ℕ) × (k : ℕ) × (n.children ≡ c ∷ []) × Counts n k × Times nodes c k w
  Parts _ n w = ⊥

  with_op : (n : NodeData) (w : Text) (o : Op) → n.op ≡ o → Parts o n w → Parts n.op n w
  with_op n w o e p = subst (λ q. Parts q n w) (sym e) p

  Parts-of :
      (id : ℕ) (w : Text)
      → Matches nodes id w
      → (n : NodeData) × (node_at nodes id ≡ some n) × Parts n.op n w
  Parts-of _ _ (by_epsilon id n h o) = (n, h, with_op n [] op_epsilon o refl)
  Parts-of _ _ (by_class id n c h o r) = (n, h, with_op n (c ∷ []) op_class o (c, refl, r))
  Parts-of _ _ (by_left id n a z w h o cs m) = (n, h, with_op n w op_alternate o (a, z, cs, inl m))
  Parts-of _ _ (by_right id n a z w h o cs m) = (n, h, with_op n w op_alternate o (a, z, cs, inr m))
  Parts-of _ _ (by_concat id n a z u v h o cs l r) =
      (n, h, with_op n (u ++ v) op_concat o (a, z, u, v, cs, refl, l, r))
  Parts-of _ _ (by_repeat id n c k w h o cs b t) = (n, h, with_op n w op_repeat o (c, k, cs, b, t))

  Parts-at :
      (id : ℕ) (n : NodeData) (o : Op) (w : Text)
      → node_at nodes id ≡ some n
      → n.op ≡ o
      → Matches nodes id w
      → Parts o n w
  Parts-at id n o w here e m =
      let (n', h, p) = Parts-of id w m in
      let s : n' ≡ n = cc in subst (λ q. Parts q n w) e (subst (λ q. Parts q.op q w) s p)

  length-Times :
      (c m : ℕ)
      → ((w : Text) → Matches nodes c w → m ≤ length w)
      → (k : ℕ) (w : Text) → Times nodes c k w
      → k * m ≤ length w
  length-Times c m h _ _ (times_zero _) = omega arith
  length-Times c m h _ _ (times_suc _ k u v a t) =
      omega (arith, h u a, length-Times c m h k v t, length-append {0} u v)

  -- A node that does not match the empty text matches it no number of times but zero.
  no-Times :
      (c : ℕ) → ¬ (Matches nodes c []) → (k : ℕ) (w : Text) → Times nodes c k w → w ≡ [] → k ≡ 0
  no-Times c h _ _ (times_zero _) e = refl
  no-Times c h _ _ (times_suc _ k u v a t) e =
      absurd (h (subst (λ x. Matches nodes c x) (append_nil_parts u v (sym e)).0 a))

  module _ (id : ℕ) (n : NodeData) (here : node_at nodes id ≡ some n) where
    pub Right-empty : n.op ≡ op_empty → Right nodes id false max_uint64
    Right-empty e = (
      (λ h. absurd (cc), λ m. absurd (Parts-at id n op_empty [] here e m)),
      λ w m. absurd (Parts-at id n op_empty w here e m),
    )

    pub Right-epsilon : n.op ≡ op_epsilon → Right nodes id true 0
    Right-epsilon e = ((λ h. by_epsilon id n here e, λ m. refl), λ w m. omega arith)

    pub Right-class : n.op ≡ op_class → Right nodes id false 1
    Right-class e = (
      (λ h. absurd (cc), λ m. let (c, h, r) = Parts-at id n op_class [] here e m in absurd (cc)),
      λ w m. let (c, h, r) = Parts-at id n op_class w here e m in rw h (omega arith),
    )

    pub Right-alternate :
        (a z : ℕ) (na nz : Bool) (ma mz : ℕ)
        → n.op ≡ op_alternate
        → n.children ≡ a ∷ z ∷ []
        → Right nodes a na ma
        → Right nodes z nz mz
        → Right nodes id (na || nz) (min_of ma mz)
    unfolding min_of
    Right-alternate a z na nz ma mz e cs ra rz = ((forth na nz ra rz, back), least)
      where
        forth :
            (na nz : Bool)
            → Right nodes a na ma
            → Right nodes z nz mz
            → (na || nz) ≡ true
            → Matches nodes id []
        forth true nz ra rz h = by_left id n a z [] here e cs (ra.0.0 refl)
        forth false true ra rz h = by_right id n a z [] here e cs (rz.0.0 refl)
        forth false false ra rz h = absurd (cc)

        back : Matches nodes id [] → (na || nz) ≡ true
        back m =
            let (a', z', cs', s) = Parts-at id n op_alternate [] here e m in
            let p : a' ≡ a = cc in
            let q : z' ≡ z = cc in
            elim s [
              | inl l ↦ rw (ra.0.1 (subst (λ i. Matches nodes i []) p l)) refl
              | inr r ↦ let t = rz.0.1 (subst (λ i. Matches nodes i []) q r) in ground arith
            ]

        least : (w : Text) → Matches nodes id w → min_of ma mz ≤ length w
        least w m =
            let (a', z', cs', s) = Parts-at id n op_alternate w here e m in
            let p : a' ≡ a = cc in
            let q : z' ≡ z = cc in
            elim s [
              | inl l ↦ let t = ra.1 w (subst (λ i. Matches nodes i w) p l) in ground (arith, t)
              | inr r ↦ let t = rz.1 w (subst (λ i. Matches nodes i w) q r) in ground (arith, t)
            ]

    pub Right-concat :
        (a z : ℕ) (na nz : Bool) (ma mz : ℕ)
        → n.op ≡ op_concat
        → n.children ≡ a ∷ z ∷ []
        → Right nodes a na ma
        → Right nodes z nz mz
        → Right nodes id (na && nz) (add_sat ma mz)
    Right-concat a z na nz ma mz e cs ra rz = ((forth na nz ra rz, back), least)
      where
        forth :
            (na nz : Bool)
            → Right nodes a na ma
            → Right nodes z nz mz
            → (na && nz) ≡ true
            → Matches nodes id []
        forth true true ra rz h = by_concat id n a z [] [] here e cs (ra.0.0 refl) (rz.0.0 refl)
        forth true false ra rz h = absurd (cc)
        forth false nz ra rz h = absurd (cc)

        back : Matches nodes id [] → (na && nz) ≡ true
        back m =
            let (a', z', u, v, cs', s, l, r) = Parts-at id n op_concat [] here e m in
            let p : a' ≡ a = cc in
            let q : z' ≡ z = cc in
            let (us, vs) = append_nil_parts u v s in
            let t =
              ra.0.1 (subst (λ i. Matches nodes i []) p (subst (λ w. Matches nodes a' w) us l)) in
            let t' =
              rz.0.1 (subst (λ i. Matches nodes i []) q (subst (λ w. Matches nodes z' w) vs r)) in
            rw (t, t') refl

        least : (w : Text) → Matches nodes id w → add_sat ma mz ≤ length w
        least w m =
            let (a', z', u, v, cs', s, l, r) = Parts-at id n op_concat w here e m in
            let p : a' ≡ a = cc in
            let q : z' ≡ z = cc in
            let t = ra.1 u (subst (λ i. Matches nodes i u) p l) in
            let t' = rz.1 v (subst (λ i. Matches nodes i v) q r) in
            rw s (omega (arith, add_sat_le ma mz, t, t', length-append {0} u v))

    pub Right-repeat :
        (c : ℕ) (mc : ℕ)
        → n.op ≡ op_repeat
        → n.children ≡ c ∷ []
        → canonical_decimal n.min ≡ true
        → Right nodes c false mc
        → Right nodes id
            (is_zero_text n.min)
            (if is_zero_text n.min then 0 else mul_sat (decimal_uint n.min) mc)
    Right-repeat c mc e cs can rc = ((forth, back), least)
      where
        forth : is_zero_text n.min ≡ true → Matches nodes id []
        forth h =
            by_repeat id n c 0 [] here e cs
              (omega (arith, zero_text-value n.min h), inr (omega arith)) (times_zero c)

        back : Matches nodes id [] → is_zero_text n.min ≡ true
        back m =
            let (c', k, cs', b, t) = Parts-at id n op_repeat [] here e m in
            let p : c' ≡ c = cc in
            let z =
              no-Times c (λ x. let y = rc.0.1 x in absurd (cc)) k []
                (subst (λ i. Times nodes i k []) p t) refl in
            value-zero_text n.min can (omega (arith, b.0, z))

        least :
            (w : Text)
            → Matches nodes id w
            → (if is_zero_text n.min then 0 else mul_sat (decimal_uint n.min) mc) ≤ length w
        least w m =
            let (c', k, cs', b, t) = Parts-at id n op_repeat w here e m in
            let p : c' ≡ c = cc in
            let l = length-Times c mc rc.1 k w (subst (λ i. Times nodes i k w) p t) in
            let u = mul_sat_le (decimal_uint n.min) mc in
            let d = decimal_uint_le n.min (canonical-IsDigit n.min can) in
            let v =
              mul-le-mul {n₁ = decimal_uint n.min} {m₁ = mc} {n₂ = k} {m₂ = mc}
                (omega (arith, d, b.0)) (omega arith) in
            ground (arith, l, u, v)
