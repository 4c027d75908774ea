-- ===== src/Pattern/Restore/Fuel.antt =====
-- go/yangpattern/runtime_program.go: the fuel and the indexes of `RestoreWithLimits`.
use cambium.Pattern.Checks.{
  RestoreError, configuration, resource, Totals, within, spent, shaped, check_node, check_nodes,
  add_node,
}
use cambium.Prelude.{
  ℕ, zero, suc, ◌+◌, ◌≤◌, ◌<◌, ◌≡◌, refl, ◌⊎◌, inl, inr, Bool, true, false, Option, none, some,
  List, [], ◌∷◌, arith, Bool-cases, length, All,
}
use cambium.Prelude.Result.{Result, ok, err, ◌>>=◌}
use cambium.Pattern.Program.{
  nullable_child, cyclic_program, invalid_header, NodeData, ProgramData, RestoreLimits,
  restore_defaults, Op, op_empty, op_epsilon, op_class, op_alternate, op_concat, op_repeat,
  op_other, shape_error, Detail, arity, children_below,
}
use cambium.Pattern.Restore.{
  node_at, Search, Program, finish, visit, visit_children, visit_node, visit_all, greyed,
  repetition, no_totals, unvisited, new_ledger, bad_header, restore_within, restore_with_limits,
}
use cambium.Pattern.Restore.Step.{shape_error-IsShaped}
use cambium.Pattern.Restore.Invariant.{AllShaped, Color-cases}
use cambium.Pattern.Restore.Accepted.{check_nodes-ok, node_at-All}
use cambium.Pattern.{
  of_nodes, of_edges, of_ranges, of_digits, mul_sat, Ledger, charge, limit_error, of_depth,
  restore_validate, ResourceError, add_sat,
}
use cambium.Pattern.Charging.{limit_error-none}

-- Neither out of fuel nor a panic.
data Ends {ℓ} {A : Type ℓ} : Result RestoreError A → Type ℓ where
  ends_ok : (a : A) → Ends (ok a)
  ends_configuration : (d : Detail) → Ends (err (configuration d))
  ends_resource : (e : Option ResourceError) → Ends (err (resource e))

Ends->>= {ℓ κ} :
    {A : Type ℓ} {B : Type κ} (m : Result RestoreError A) (f : A → Result RestoreError B)
    → Ends m
    → ((a : A) → m ≡ ok a → Ends (f a))
    → Ends (m >>= f)
Ends->>= _ f (ends_ok a) k = k a refl
Ends->>= _ f (ends_configuration d) k = ends_configuration d
Ends->>= _ f (ends_resource e) k = ends_resource e

Ends-spent : (r : Bool × Ledger) → Ends (spent r)
unfolding spent
Ends-spent (true, b) = ends_ok b
Ends-spent (false, b) = ends_resource b.failure

Ends-within {ℓ} :
    {A : Type ℓ} (e : Option ResourceError) (next : Result RestoreError A)
    → (e ≡ none → Ends next)
    → Ends (within e next)
unfolding within
Ends-within none next h = h refl
Ends-within (some e) next h = ends_resource (some e)

Ends-shaped : (o : Option Detail) (b : Ledger) → Ends (shaped o b)
unfolding shaped
Ends-shaped none b = ends_ok b
Ends-shaped (some d) b = ends_configuration d

Ends-check_node :
    (count : ℕ) (l : RestoreLimits) (t : Totals) (b : Ledger) (n : NodeData)
    → Ends (check_node count l t b n)
unfolding check_node
Ends-check_node count l t b n =
    let digits = length n.min + length n.max in
    let bytes =
      add_sat (mul_sat (length n.children) 8) (add_sat (mul_sat (length n.ranges) 16) digits) in
    let work = add_sat (length n.children + length n.ranges) (mul_sat digits 2) in
    let last = (spent (charge b bytes work) >>= λ b'. shaped (shape_error count n) b') in
    let third = within (limit_error restore_validate of_digits l.digits t.digits) last in
    let second = within (limit_error restore_validate of_ranges l.ranges t.ranges) third in
    Ends-within (limit_error restore_validate of_edges l.edges t.edges) second (λ e.
      Ends-within (limit_error restore_validate of_ranges l.ranges t.ranges) third (λ e'.
        Ends-within (limit_error restore_validate of_digits l.digits t.digits) last (λ e''.
          Ends->>= (spent (charge b bytes work)) (λ b'. shaped (shape_error count n) b')
            (Ends-spent (charge b bytes work)) (λ b' q. Ends-shaped (shape_error count n) b'))))

Ends-check_nodes :
    (count : ℕ) (l : RestoreLimits) (t : Totals) (b : Ledger) (ns : List NodeData)
    → Ends (check_nodes count l t b ns)
unfolding check_nodes
Ends-check_nodes count l t b [] = ends_ok b
Ends-check_nodes count l t b (n ∷ ns) =
    Ends->>= _ _ (Ends-check_node count l (add_node t n) b n)
      (λ b' q. Ends-check_nodes count l (add_node t n) b' ns)

node_at-some :
    (ns : List NodeData) (id : ℕ) → id < length ns → (n : NodeData) × (node_at ns id ≡ some n)
unfolding node_at
node_at-some [] id h = absurd (omega (arith, h))
node_at-some (n ∷ ns) zero h = (n, refl)
node_at-some (n ∷ ns) (suc id) h = node_at-some ns id (omega (arith, h))

children_below-All :
    (count : ℕ) (cs : List ℕ) → children_below count cs ≡ true → All (λ c. c < count) cs
unfolding children_below
children_below-All count [] h = tt
children_below-All count (c ∷ cs) h =
    (ground (arith, h), children_below-All count cs (ground (arith, h)))

module _ (limit : ℕ) (nodes : List NodeData) (shapes : AllShaped nodes) where
  Ends-finish :
      (n : NodeData) (o : Op) (cs : List ℕ) (s : Search) (id : ℕ)
      → length cs ≡ arity o
      → Ends (finish n o cs s id)
  unfolding finish
  Ends-finish n op_empty cs s id h = ends_ok _
  Ends-finish n op_epsilon cs s id h = ends_ok _
  Ends-finish n op_class cs s id h = ends_ok _
  Ends-finish n op_alternate (a ∷ z ∷ cs) s id h = ends_ok _
  Ends-finish n op_concat (a ∷ z ∷ cs) s id h = ends_ok _
  Ends-finish n op_repeat (c ∷ cs) s id h = elim (Bool-cases (s.nullable c)) [
    | inl b ↦ rw b (ends_configuration nullable_child)
    | inr b ↦ rw b (
        Ends->>= (spent (charge s.ledger 0 (length n.min + length n.max)))
          (λ l. ok (repetition n c s id l)) (Ends-spent _) (λ l q. ends_ok _))
  ]
  Ends-finish n op_other cs s id h = ends_ok _
  Ends-finish n o cs s id h = absurd (omega (arith, h))

  Ends-visit_children :
      (go : Search → ℕ → Result RestoreError Search)
      → ((s : Search) (c : ℕ) → c < length nodes → Ends (go s c))
      → (s : Search) (cs : List ℕ) (height : ℕ) → All (λ c. c < length nodes) cs
      → Ends (visit_children go s cs height)
  unfolding visit_children
  Ends-visit_children go each s [] height h = ends_ok _
  Ends-visit_children go each s (c ∷ cs) height h =
      Ends->>= (go s c) _ (each s c h.0) (λ t q. Ends-visit_children go each t cs _ h.1)

  Ends-visit_node :
      (go : Search → ℕ → Result RestoreError Search)
      → ((s : Search) (c : ℕ) → c < length nodes → Ends (go s c))
      → (s : Search) (id : ℕ) (n : NodeData) → node_at nodes id ≡ some n
      → Ends (visit_node go (some n) s id)
  unfolding visit_node
  Ends-visit_node go each s id n here =
      let sh = shapes id n here in
      Ends->>= (visit_children go s n.children 1) _
        (Ends-visit_children go each s n.children 1
          (children_below-All (length nodes) n.children sh.bounded))
        (λ p q.
          Ends->>= (finish n n.op n.children p.0 id) _
            (Ends-finish n n.op n.children p.0 id sh.child_count) (λ u r. ends_ok _))

  Ends-visit :
      (f : ℕ) (s : Search) (id depth : ℕ)
      → id < length nodes
      → depth ≤ limit + 1
      → limit + 2 ≤ depth + f
      → Ends (visit limit nodes f s id depth)
  unfolding visit
  Ends-visit zero s id depth h l k = absurd (omega (arith, l, k))
  Ends-visit (suc f) s id depth h l k =
      let (n, here) = node_at-some nodes id h in
      Ends-within (limit_error restore_validate of_depth limit depth) _ (λ e.
        let le = ((limit_error-none restore_validate of_depth limit depth).0 e).1 in
        elim (Color-cases (s.color id)) [
          | inl w ↦
              rw (w, here)
                (Ends->>= (spent (charge s.ledger 0 1)) _ (Ends-spent _) (λ b q.
                  Ends-visit_node (λ t c. visit limit nodes f t c (depth + 1))
                    (λ t c hc.
                      Ends-visit f t c (depth + 1) hc (omega (arith, le)) (omega (arith, k)))
                    (greyed id s b) id n here))
          | inr (inl g) ↦ rw g (ends_configuration cyclic_program)
          | inr (inr g) ↦ rw g (Ends-within _ (ok s) (λ e'. ends_ok s))
        ])

  Ends-visit_all :
      (left i : ℕ) (s : Search) → i + left ≤ length nodes → Ends (visit_all limit nodes s i left)
  unfolding visit_all
  Ends-visit_all zero i s h = ends_ok s
  Ends-visit_all (suc left) i s h =
      Ends->>= (visit limit nodes (limit + 2) s i 1) _
        (Ends-visit (limit + 2) s i 1 (omega (arith, h)) (omega arith) (omega arith))
        (λ t q. Ends-visit_all left (i + 1) t (omega (arith, h)))

all_shaped :
    (l : RestoreLimits) (b c : Ledger) (nodes : List NodeData)
    → check_nodes (length nodes) l no_totals b nodes ≡ ok c
    → AllShaped nodes
all_shaped l b c nodes h id n e = shape_error-IsShaped (length nodes) n (
    node_at-All (λ m. shape_error (length nodes) m ≡ none) nodes id n
      (check_nodes-ok (length nodes) l no_totals b nodes c h) e)

Ends-restore_within : (d : ProgramData) (l : RestoreLimits) → Ends (restore_within d l)
unfolding restore_within
Ends-restore_within d l =
    let count = length d.nodes in
    let bytes = add_sat (length d.source) (mul_sat count 272) in
    let result : Search → Result RestoreError Program = (λ s.
      ok
        (record { portable = d; nullable = s.nullable; minimum = s.minimum; bounds = s.bounds })) in
    let searched : Ledger → Result RestoreError Program =
      (λ b. visit_all l.depth d.nodes (unvisited b) 0 count >>= result) in
    let tested : Ledger → Result RestoreError Program =
      (λ b. check_nodes count l no_totals b d.nodes >>= searched) in
    let checked = (spent (charge (new_ledger l) bytes count) >>= tested) in
    elim (Bool-cases (bad_header d)) [
      | inl b ↦ rw b (ends_configuration invalid_header)
      | inr b ↦ rw b (
          Ends-within (limit_error restore_validate of_nodes l.nodes count) checked (λ e.
            Ends->>= (spent (charge (new_ledger l) bytes count)) tested
              (Ends-spent (charge (new_ledger l) bytes count))
              (λ b1 e1.
                Ends->>= (check_nodes count l no_totals b1 d.nodes) searched
                  (Ends-check_nodes count l no_totals b1 d.nodes)
                  (λ b2 e2.
                    Ends->>= (visit_all l.depth d.nodes (unvisited b2) 0 count) result
                      (Ends-visit_all l.depth d.nodes (all_shaped l b1 b2 d.nodes e2) count 0
                        (unvisited b2) (omega arith))
                      (λ s e3. ends_ok _)))))
    ]

-- `RestoreWithLimits` always returns a program, or an error of its own: the fuel is enough, and no index
-- is out of range.
pub restore_total :
    (d : ProgramData) (limits : RestoreLimits)
    → ((p : Program) × (restore_with_limits d limits ≡ ok p))
      ⊎ ((c : Detail) × (restore_with_limits d limits ≡ err (configuration c)))
      ⊎ ((e : Option ResourceError) × (restore_with_limits d limits ≡ err (resource e)))
unfolding restore_with_limits
restore_total d limits =
    outcome (restore_within d (restore_defaults limits))
      (Ends-restore_within d (restore_defaults limits))
  where
    outcome :
        (r : Result RestoreError Program)
        → Ends r
        → ((p : Program) × (r ≡ ok p))
          ⊎ ((c : Detail) × (r ≡ err (configuration c)))
          ⊎ ((e : Option ResourceError) × (r ≡ err (resource e)))
    outcome _ (ends_ok p) = inl (p, refl)
    outcome _ (ends_configuration c) = inr (inl (c, refl))
    outcome _ (ends_resource e) = inr (inr (e, refl))
