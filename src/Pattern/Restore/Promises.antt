-- ===== src/Pattern/Restore/Promises.antt =====
-- go/yangpattern/runtime_program.go: the facts and the shape of a program that `RestoreWithLimits` returns.
use cambium.Prelude.{
  subst, ℕ, suc, ◌+◌, ◌^◌, ◌≤◌, ◌<◌, ◌≡◌, sym, ◌↔◌, inl, inr, true, some, List, [], ◌∷◌, arith,
  length, All, Any,
}
use cambium.Strconv.{Text}
use cambium.Prelude.Result.{ok}
use cambium.Pattern.Program.{NodeData, ProgramData, RestoreLimits, restore_defaults}
use cambium.Pattern.Restore.{black, node_at, Program, restore_with_limits}
use cambium.Pattern.Restore.Invariant.{Under}
use cambium.Pattern.Restore.Accepted.{Accepted, restore_within-Accepted}
use cambium.Pattern.Language.{Matches}

-- So many steps down from a node, each to a child.
pub data Steps (nodes : List NodeData) : ℕ → ℕ → ℕ → Type 0 where
  stay : (a : ℕ) → Steps nodes a 0 a
  down :
      (a c k b : ℕ) (n : NodeData)
      → node_at nodes a ≡ some n
      → Any (λ x. x ≡ c) n.children
      → Steps nodes c k b
      → Steps nodes a (suc k) b

module _ (d : ProgramData) (limits : RestoreLimits) (p : Program)
    (restored : restore_with_limits d limits ≡ ok p)
    (small : (restore_defaults limits).depth < 2 ^ 63) where
  accepted : Accepted (restore_defaults limits).depth d p
  unfolding restore_with_limits
  accepted = restore_within-Accepted d (restore_defaults limits) p small restored

  -- In a program that is accepted, with a limit on the depth below 2^63, a node is marked as
  -- nullable exactly when it matches the empty text.
  pub restore-nullable :
      (id : ℕ) → id < length d.nodes → (p.nullable id ≡ true) ↔ Matches d.nodes id []
  restore-nullable id h =
      subst (λ f. (f id ≡ true) ↔ Matches d.nodes id []) (sym (accepted.nullables))
        ((accepted.settled id (accepted.black_nodes id h)).facts.0)

  -- In a program that is accepted, with a limit on the depth below 2^63, no text that a node matches
  -- is shorter than the minimum of the node.
  pub restore-minimum :
      (id : ℕ) (w : Text) → id < length d.nodes → Matches d.nodes id w → p.minimum id ≤ length w
  restore-minimum id w h m =
      subst (λ f. f id ≤ length w) (sym (accepted.minima))
        ((accepted.settled id (accepted.black_nodes id h)).facts.1 w m)

  Under-at :
      (m : ℕ) (cs : List ℕ) (c : ℕ)
      → All (Under (restore_defaults limits).depth d.nodes accepted.search m) cs
      → Any (λ x. x ≡ c) cs
      → Under (restore_defaults limits).depth d.nodes accepted.search m c
  Under-at m [] c h e = absurd e
  Under-at m (x ∷ cs) c h (inl e) =
      subst (Under (restore_defaults limits).depth d.nodes accepted.search m) e h.0
  Under-at m (x ∷ cs) c h (inr e) = Under-at m cs c h.1 e

  Steps-depth :
      (a k b : ℕ)
      → accepted.search.color a ≡ black
      → Steps d.nodes a k b
      → accepted.search.depths b + k ≤ accepted.search.depths a × (accepted.search.color b ≡ black)
  Steps-depth _ _ _ h (stay a) = (omega arith, h)
  Steps-depth _ _ _ h (down a c k b n e m s) =
      let st = accepted.settled a h in
      let q : st.node ≡ n = (let r = st.here in cc) in
      let u =
        Under-at (accepted.search.depths a) n.children c
          (subst
            (λ x.
              All
                (Under (restore_defaults limits).depth d.nodes accepted.search
                  (accepted.search.depths a))
                x.children)
            q st.children)
          m in
      let (le, bl) = Steps-depth c k b u.0 s in (omega (arith, le, u.1), bl)

  -- In a program that is accepted, with a limit on the depth below 2^63, a way down from a node to
  -- its children, and on to theirs, passes through at most as many nodes as the limit on the depth
  -- says.
  pub restore-shallow :
      (a k b : ℕ)
      → a < length d.nodes
      → Steps d.nodes a k b
      → k + 1 ≤ (restore_defaults limits).depth
  restore-shallow a k b h s =
      let st = accepted.settled a (accepted.black_nodes a h) in
      let (le, bl) = Steps-depth a k b (accepted.black_nodes a h) s in
      omega (arith, le, st.shallow, (accepted.settled b bl).positive)

  -- In a program that is accepted, with a limit on the depth below 2^63, no node is below itself.
  pub restore-acyclic : (a k : ℕ) → a < length d.nodes → ¬ (Steps d.nodes a (suc k) a)
  restore-acyclic a k h s =
      let (le, bl) = Steps-depth a (suc k) a (accepted.black_nodes a h) s in omega (arith, le)
