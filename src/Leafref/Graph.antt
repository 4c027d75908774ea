-- ===== src/Leafref/Graph.antt =====
-- The graph that the leafrefs of a schema draw: its edges, its walks, and the nodes from which every
-- walk ends.
use cambium.Prelude.{drop, subst, ℕ, zero, suc, ◌≡◌, true, List, [], ◌∷◌, ◌++◌, Any}
use cambium.Leafref.{Schema, Report, type_info, targets_of, type_info_contains_leafref}

abbrev pub Contains : ℕ → List ℕ → Type 0
Contains t xs = Any (λ x. x ≡ t) xs

-- A node whose type contains a leafref.
abbrev pub IsVertex : Schema → ℕ → Type 0
IsVertex g n = type_info_contains_leafref (type_info g n) ≡ true

-- A leafref of `n` has the target `t`, whose type contains a leafref too.
abbrev pub Edge : Schema → ℕ → ℕ → Type 0
Edge g n t = Contains t (targets_of (type_info g n)) × IsVertex g t

-- Walks of any length.
pub data Reach (g : Schema) : ℕ → ℕ → Type 0 where
  here : {n : ℕ} → Reach g n n
  step : {n t u : ℕ} → Edge g n t → Reach g t u → Reach g n u

-- Every walk from the node ends.
pub data Grounded (g : Schema) : ℕ → Type 0 where
  grounded : {n : ℕ} → ((t : ℕ) → Edge g n t → Grounded g t) → Grounded g n

-- Each entry has an edge to the next one.
abbrev pub IsChain : Schema → List ℕ → Type 0
IsChain g [] = Unit
IsChain g (x ∷ []) = Unit
IsChain g (x ∷ y ∷ rest) = Edge g x y × IsChain g (y ∷ rest)

-- A chain that ends where it begins, has an edge at least, and begins at a node that `start` reaches.
abbrev pub IsReport : Schema → Report → Type 0
IsReport g r =
    (c : ℕ) × (inner : List ℕ) × (r.cycle ≡ c ∷ inner ++ c ∷ [])
    × IsChain g r.cycle
    × Reach g r.start c

module _ {g : Schema} where
  pub Reach-step : {m n t : ℕ} → Reach g m n → Edge g n t → Reach g m t
  Reach-step here e = step e here
  Reach-step (step e' r) e = step e' (Reach-step r e)

  pub Reach-trans : {m n t : ℕ} → Reach g m n → Reach g n t → Reach g m t
  Reach-trans here s = s
  Reach-trans (step e r) s = step e (Reach-trans r s)

  pub Grounded-Reach : {n t : ℕ} → Grounded g n → Reach g n t → Grounded g t
  Grounded-Reach h here = h
  Grounded-Reach (grounded below) (step e r) = Grounded-Reach (below _ e) r

  -- No walk with an edge leads from a grounded node back to it.
  pub Grounded-acyclic : {n t : ℕ} → Grounded g n → Edge g n t → ¬ (Reach g t n)
  Grounded-acyclic (grounded below) e here = Grounded-acyclic (below _ e) e here
  Grounded-acyclic (grounded below) e (step e' r) = Grounded-acyclic (below _ e) e' (Reach-step r e)

  -- A chain leads from its head to its last entry.
  pub Reach-IsChain : (x y : ℕ) (xs : List ℕ) → IsChain g (x ∷ xs ++ y ∷ []) → Reach g x y
  Reach-IsChain x y [] h = step h.0 here
  Reach-IsChain x y (z ∷ zs) h = step h.0 (Reach-IsChain z y zs h.1)

  -- The chain of a report has no grounded node at its head.
  pub IsReport-not-Grounded : (r : Report) → IsReport g r → ¬ (Grounded g r.start)
  IsReport-not-Grounded r (c, inner, e, chain, reached) h =
      closes inner (subst (λ l. IsChain g l) e chain)
    where
      closes : (xs : List ℕ) → IsChain g (c ∷ xs ++ c ∷ []) → ⊥
      closes [] k = Grounded-acyclic (Grounded-Reach h reached) k.0 here
      closes (z ∷ zs) k = Grounded-acyclic (Grounded-Reach h reached) k.0 (Reach-IsChain z c zs k.1)

module _ (g : Schema) where
  pub IsChain-drop : (k : ℕ) (xs : List ℕ) → IsChain g xs → IsChain g (drop k xs)
  IsChain-drop zero xs h = h
  IsChain-drop (suc k) [] h = tt
  IsChain-drop (suc k) (x ∷ []) h = IsChain-drop k [] tt
  IsChain-drop (suc k) (x ∷ y ∷ rest) h = IsChain-drop k (y ∷ rest) h.1

  pub IsChain-append :
      (xs : List ℕ) (n t : ℕ)
      → IsChain g (xs ++ n ∷ [])
      → Edge g n t
      → IsChain g ((xs ++ n ∷ []) ++ t ∷ [])
  IsChain-append [] n t h e = (e, tt)
  IsChain-append (x ∷ []) n t h e = (h.0, (e, tt))
  IsChain-append (x ∷ y ∷ rest) n t h e = (h.0, IsChain-append (y ∷ rest) n t h.1 e)
