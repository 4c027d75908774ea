-- ===== src/Pattern/Restore/Accepted.antt =====
-- go/yangpattern/runtime_program.go: the search behind a program that `RestoreWithLimits` returns.
use cambium.Pattern.Checks.{spent, shaped, check_node, check_nodes, add_node, Totals}
use cambium.Prelude.{
  subst, ℕ, zero, suc, ◌^◌, ◌<◌, ◌≡◌, refl, sym, ap, inl, inr, Option, none, some, List, [], ◌∷◌,
  arith, Bool-cases, length, All,
}
use cambium.Prelude.Result.{ok, >>=-eq-ok, ok-injective}
use cambium.Pattern.Program.{NodeData, ProgramData, RestoreLimits, shape_error, Detail}
use cambium.Pattern.Restore.{
  node_at, Search, black, Program, visit_all, no_totals, unvisited, new_ledger, bad_header,
  restore_within,
}
use cambium.Pattern.Restore.Step.{shape_error-IsShaped}
use cambium.Pattern.Restore.Invariant.{within-ok, AllShaped, Settled, Invariant}
use cambium.Pattern.Restore.Correct.{visit_all_lem}
use cambium.Pattern.{
  Ledger, charge, limit_error, of_nodes, of_edges, of_ranges, of_digits, restore_validate,
}

shaped-ok : (o : Option Detail) (b : Ledger) {c : Ledger} → shaped o b ≡ ok c → o ≡ none
unfolding shaped
shaped-ok none b h = refl
shaped-ok (some d) b h = cc

check_node-ok :
    (count : ℕ) (l : RestoreLimits) (t : Totals) (b : Ledger) (n : NodeData) (c : Ledger)
    → check_node count l t b n ≡ ok c
    → shape_error count n ≡ none
unfolding check_node
check_node-ok count l t b n c h =
    let (e1, h1) = within-ok (limit_error restore_validate of_edges l.edges t.edges) _ h in
    let (e2, h2) = within-ok (limit_error restore_validate of_ranges l.ranges t.ranges) _ h1 in
    let (e3, h3) = within-ok (limit_error restore_validate of_digits l.digits t.digits) _ h2 in
    let (b', e4, h4) =
      >>=-eq-ok (spent (charge b _ _)) (λ b'. shaped (shape_error count n) b') h3 in
    shaped-ok (shape_error count n) b' h4

pub check_nodes-ok :
    (count : ℕ) (l : RestoreLimits) (t : Totals) (b : Ledger) (ns : List NodeData) (c : Ledger)
    → check_nodes count l t b ns ≡ ok c
    → All (λ n. shape_error count n ≡ none) ns
unfolding check_nodes
check_nodes-ok count l t b [] c h = tt
check_nodes-ok count l t b (n ∷ ns) c h =
    let (b', e, h') = >>=-eq-ok (check_node count l (add_node t n) b n) _ h in
    (
      check_node-ok count l (add_node t n) b n b' e,
      check_nodes-ok count l (add_node t n) b' ns c h',
    )

pub node_at-All :
    (P : NodeData → Type 0) (ns : List NodeData) (id : ℕ) (n : NodeData)
    → All P ns
    → node_at ns id ≡ some n
    → P n
unfolding node_at
node_at-All P [] id n h e = absurd (cc)
node_at-All P (m ∷ ns) zero n h e = let q : m ≡ n = cc in subst P q h.0
node_at-All P (m ∷ ns) (suc id) n h e = node_at-All P ns id n h.1 e

unvisited-Invariant :
    (limit : ℕ) (nodes : List NodeData) (b : Ledger) → Invariant limit nodes (unvisited b)
unvisited-Invariant limit nodes b = record {
  settled = λ id h. absurd (cc);
  fresh = λ id h. (refl, refl);
}

-- The search behind an accepted program, with every node settled.
pub record Accepted (limit : ℕ) (d : ProgramData) (p : Program) : Type 0 where
  pub search : Search
  pub settled : (id : ℕ) → search.color id ≡ black → Settled limit d.nodes search id
  pub black_nodes : (id : ℕ) → id < length d.nodes → search.color id ≡ black
  pub nullables : p.nullable ≡ search.nullable
  pub minima : p.minimum ≡ search.minimum

pub restore_within-Accepted :
    (d : ProgramData) (l : RestoreLimits) (p : Program)
    → l.depth < 2 ^ 63
    → restore_within d l ≡ ok p
    → Accepted l.depth d p
unfolding restore_within
restore_within-Accepted d l p small h = elim (Bool-cases (bad_header d)) [
  | inl b ↦ let x = rw b at h in absurd (cc)
  | inr b ↦
      let count = length d.nodes in
      let (e1, h1) =
        within-ok (limit_error restore_validate of_nodes l.nodes count) _ (rw b at h) in
      let (b1, e2, h2) = >>=-eq-ok (spent (charge (new_ledger l) _ count)) _ h1 in
      let (b2, e3, h3) = >>=-eq-ok (check_nodes count l no_totals b1 d.nodes) _ h2 in
      let (s, e4, h4) = >>=-eq-ok (visit_all l.depth d.nodes (unvisited b2) 0 count) _ h3 in
      let every = check_nodes-ok count l no_totals b1 d.nodes b2 e3 in
      let shapes : AllShaped d.nodes = (λ id n e.
        shape_error-IsShaped count n
          (node_at-All (λ m. shape_error count m ≡ none) d.nodes id n every e)) in
      let (inv, g, done) =
        visit_all_lem l.depth d.nodes shapes small count 0 (unvisited b2) s
          (unvisited-Invariant l.depth d.nodes b2) e4 in
      let q = ok-injective h4 in
      record {
        search = s;
        settled = inv.settled;
        black_nodes = λ id k. done id (omega arith) (omega (arith, k));
        nullables = ap (λ r. r.nullable) (sym q);
        minima = ap (λ r. r.minimum) (sym q);
      }
]
