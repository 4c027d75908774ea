-- ===== src/Pattern/Restore/Step.antt =====
-- go/yangpattern/runtime_program.go: the state of the search in `RestoreWithLimits`, and the `switch` of
-- `visit` on it.
use cambium.Pattern.Checks.{spent, RestoreError}
use cambium.Pattern.{charge}
use cambium.Prelude.{◌+◌, ◌∷◌, []}
use cambium.Strconv.{max_uint64}
use cambium.Prelude.Result.{>>=-eq-ok, ok-injective, ok, Result}
use cambium.Pattern.Restore.Facts.{
  Right-repeat, Right-concat, Right-alternate, Right-class, Right-epsilon, Right-empty, Right,
}
use cambium.Prelude.{
  All, subst, sym, ◌∙◌, fun_ext, Bool, some, List, ℕ, ◌≡◌, refl, ap, ◌≢◌, ◌⊎◌, inl, inr, true,
  false, none, arith, ◌==◌, Bool-cases, length,
}
use cambium.Pattern.Program.{
  op_concat, op_alternate, op_class, op_epsilon, op_empty, Op, NodeData, op_repeat, op_other,
  shape_error, arity, children_below, bad_bounds, is_repeat, is_other, is_class,
}
use cambium.Pattern.Restore.{repetition, finish, node_at, Search, set}
use cambium.Pattern.Decimal.{canonical_decimal}

pub same_or_not : (i j : ℕ) → (i ≡ j) ⊎ (i ≢ j)
same_or_not i j = elim (Bool-cases (i == j)) [
  | inl b ↦ inl (ground arith)
  | inr b ↦ inr (λ e. ground arith)
]

module _ {ℓ} {A : Type ℓ} (f : ℕ → A) (i : ℕ) (v : A) where
  pub set_same : set f i v i ≡ v
  unfolding set
  set_same = let e : (i == i) ≡ true = ground arith in rw e refl

  pub set_other : (j : ℕ) → j ≢ i → set f i v j ≡ f j
  unfolding set
  set_other j h = let e : (j == i) ≡ false = ground (arith, h) in rw e refl

pub set_keep {ℓ} : {A : Type ℓ} (f : ℕ → A) (i : ℕ) (v : A) → f i ≡ v → set f i v ≡ f
set_keep f i v h = fun_ext (λ j. elim (same_or_not j i) [
  | inl e ↦ rw e (set_same f i v ∙ sym h)
  | inr e ↦ set_other f i v j e
])

-- A node that passed the tests has as many children as its operation takes.
pub record IsShaped (count : ℕ) (n : NodeData) : Type 0 where
  pub child_count : length n.children ≡ arity n.op
  pub known : n.op ≢ op_other
  pub canonical : n.op ≡ op_repeat → canonical_decimal n.min ≡ true
  pub bounded : children_below count n.children ≡ true

pub shape_error-IsShaped :
    (count : ℕ) (n : NodeData) → shape_error count n ≡ none → IsShaped count n
unfolding shape_error bad_bounds
shape_error-IsShaped count n h = record {
  child_count = ground arith;
  known = λ e. let o = ap is_other e in let c = ap is_class e in ground arith;
  canonical = λ e. let o = ap is_repeat e in ground arith;
  bounded = ground arith;
}

-- No facts are known about the node.
abbrev pub Fresh : Search → ℕ → Type 0
Fresh s id = (s.nullable id ≡ false) × (s.minimum id ≡ 0)

-- Only the facts of one node differ, and they are right.
pub record Finished (nodes : List NodeData) (s u : Search) (id : ℕ) : Type 0 where
  pub colors : (j : ℕ) → u.color j ≡ s.color j
  pub depths : (j : ℕ) → u.depths j ≡ s.depths j
  pub others : (j : ℕ) → j ≢ id → (u.nullable j ≡ s.nullable j) × (u.minimum j ≡ s.minimum j)
  pub right : Right nodes id (u.nullable id) (u.minimum id)

-- The facts that a child has are right.
abbrev pub RightAt : List NodeData → Search → ℕ → Type 0
RightAt nodes s c = Right nodes c (s.nullable c) (s.minimum c)

module _ (nodes : List NodeData) (id : ℕ) (n : NodeData) (here : node_at nodes id ≡ some n)
    (shaped : IsShaped (length nodes) n) where
  set_both :
      (s : Search) (v : Bool) (m : ℕ) (u : Search)
      → u.color ≡ s.color
      → u.depths ≡ s.depths
      → u.nullable ≡ set s.nullable id v
      → u.minimum ≡ set s.minimum id m
      → Right nodes id v m
      → Finished nodes s u id
  set_both s v m u c d e f r = record {
    colors = λ j. ap (λ g. g j) c;
    depths = λ j. ap (λ g. g j) d;
    others = λ j h. (
      ap (λ g. g j) e ∙ set_other s.nullable id v j h,
      ap (λ g. g j) f ∙ set_other s.minimum id m j h,
    );
    right =
        rw (ap (λ g. g id) e ∙ set_same s.nullable id v, ap (λ g. g id) f ∙ set_same s.minimum id m)
          r;
  }

  finished :
      (s : Search) (v : Bool) (m : ℕ) (w : Search)
      → w.color ≡ s.color
      → w.depths ≡ s.depths
      → w.nullable ≡ set s.nullable id v
      → w.minimum ≡ set s.minimum id m
      → Right nodes id v m
      → (u : Search) → ◌≡◌ {A = Result RestoreError Search} (ok w) (ok u)
      → Finished nodes s u id
  finished s v m w c d e f r u h =
      subst (λ x. Finished nodes s x id) (ok-injective h) (set_both s v m w c d e f r)

  count_is : (o : Op) (cs : List ℕ) → n.op ≡ o → n.children ≡ cs → length cs ≡ arity o
  count_is o cs e k = ap length (sym k) ∙ shaped.child_count ∙ ap arity e

  -- If the facts about the children are right, the `switch` leaves right facts about the node.
  pub finish-Right :
      (o : Op) (cs : List ℕ) (s u : Search)
      → n.op ≡ o
      → n.children ≡ cs
      → Fresh s id
      → All (RightAt nodes s) cs
      → finish n o cs s id ≡ ok u
      → Finished nodes s u id
  unfolding finish repetition
  finish-Right op_empty cs s u e k fresh r h =
      finished s false max_uint64 (record s { minimum = set s.minimum id max_uint64 }) refl refl
        (sym (set_keep s.nullable id false fresh.0)) refl (Right-empty nodes id n here e) u h
  finish-Right op_epsilon cs s u e k fresh r h =
      finished s true 0 (record s { nullable = set s.nullable id true }) refl refl refl
        (sym (set_keep s.minimum id 0 fresh.1)) (Right-epsilon nodes id n here e) u h
  finish-Right op_class cs s u e k fresh r h =
      finished s false 1 (record s { minimum = set s.minimum id 1 }) refl refl
        (sym (set_keep s.nullable id false fresh.0)) refl (Right-class nodes id n here e) u h
  finish-Right op_alternate (a ∷ z ∷ []) s u e k fresh r h =
      finished s _ _ _ refl refl refl refl
        (Right-alternate nodes id n here a z (s.nullable a) (s.nullable z) (s.minimum a)
          (s.minimum z) e k r.0 r.1.0)
        u h
  finish-Right op_concat (a ∷ z ∷ []) s u e k fresh r h =
      finished s _ _ _ refl refl refl refl
        (Right-concat nodes id n here a z (s.nullable a) (s.nullable z) (s.minimum a) (s.minimum z)
          e k r.0 r.1.0)
        u h
  finish-Right op_repeat (c ∷ []) s u e k fresh r h = elim (Bool-cases (s.nullable c)) [
    | inl b ↦ let x = rw b at h in absurd (cc)
    | inr b ↦
        let (l, p, q) =
          >>=-eq-ok (spent (charge s.ledger 0 (length n.min + length n.max)))
            (λ b'. ok (repetition n c s id b')) (rw b at h) in
        finished s _ _ (repetition n c s id l) refl refl refl refl
          (Right-repeat nodes id n here c (s.minimum c) e k (shaped.canonical e)
            (subst (λ v. Right nodes c v (s.minimum c)) b r.0))
          u q
  ]
  finish-Right op_other cs s u e k fresh r h = absurd (shaped.known e)
  finish-Right o cs s u e k fresh r h = absurd (omega (arith, count_is o cs e k))
