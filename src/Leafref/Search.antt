-- ===== src/Leafref/Search.antt =====
-- go/cambium/schema_leafref_cycles.go: the invariant of the walk, and what one visit gives.
use cambium.Prelude.{
  subst, drop, ℕ, zero, suc, ◌+◌, ◌-◌, ◌≡◌, refl, sym, ap, ◌∙◌, ◌≢◌, inl, inr, List, [], ◌∷◌, ◌++◌,
  arith, ◌==◌, if◌then◌else◌, Bool-cases, length, All,
}
use cambium.Leafref.{leave, Mark, enter, mark_of, Walk, Schema, pop, on_stack, finished}
use cambium.Leafref.Graph.{IsReport, IsChain, Reach, Grounded}

module _ {ℓ} {A : Type ℓ} where
  pub drop-append :
      (k : ℕ) (xs ys : List A) {a : A} {rest : List A}
      → drop k xs ≡ a ∷ rest
      → drop k (xs ++ ys) ≡ a ∷ rest ++ ys
  drop-append zero xs ys h = ap (λ l. l ++ ys) h
  drop-append (suc k) [] ys h = cc
  drop-append (suc k) (x ∷ xs) ys h = drop-append k xs ys h

  pub drop-length : (xs : List A) (a : A) → drop (length xs) (xs ++ a ∷ []) ≡ a ∷ []
  drop-length [] a = refl
  drop-length (x ∷ xs) a = drop-length xs a

  pub drop-init :
      (k : ℕ) (xs : List A) {m a : A} {rest : List A}
      → drop k (xs ++ m ∷ []) ≡ a ∷ rest
      → a ≢ m
      → (tail : List A) × (drop k xs ≡ a ∷ tail)
  drop-init zero [] h ne = absurd (ne cc)
  drop-init (suc zero) [] h ne = cc
  drop-init (suc (suc k)) [] h ne = cc
  drop-init zero (x ∷ xs) h ne = (xs, cc)
  drop-init (suc k) (x ∷ xs) h ne = drop-init k xs h ne

pub append_not_empty {ℓ} : {A : Type ℓ} (xs : List A) (a : A) → xs ++ a ∷ [] ≢ []
append_not_empty [] a h = cc
append_not_empty (x ∷ xs) a h = cc

pub pop-append : (xs : List ℕ) (a : ℕ) → pop (xs ++ a ∷ []) ≡ xs
unfolding pop
pop-append [] a = refl
pop-append (x ∷ []) a = refl
pop-append (x ∷ y ∷ rest) a = ap (λ l. x ∷ l) (pop-append (y ∷ rest) a)

-- The stack's entry p-1 is `n`.
abbrev pub Sits : List ℕ → ℕ → ℕ → Type 0
Sits stack n p = (rest : List ℕ) × (drop (p - 1) stack ≡ n ∷ rest)

-- Without a warning so far, what is finished is grounded; a mark on the stack says where the
-- node sits; and every warning is a report, of a start in `P`.
pub record Inv (g : Schema) (P : ℕ → Type 0) (w : Walk) : Type 0 where
  pub settled : (n : ℕ) → mark_of w.pos n ≡ finished → w.warnings ≡ [] → Grounded g n
  pub stacked : (n p : ℕ) → mark_of w.pos n ≡ on_stack p → Sits w.stack n p
  pub reported : All (λ r. IsReport g r × P r.start) w.warnings

-- The chain from the start of the walk to the node that is on top of the stack.
pub record Trail (g : Schema) (start : ℕ) (stack : List ℕ) : Type 0 where
  pub chain : IsChain g stack
  pub reached : All (λ n. Reach g start n) stack

abbrev pub Quiet : Walk → Type 0
Quiet w = w.warnings ≡ []

pub mark_of-cons :
    (pos : List (ℕ × Mark)) (n m : ℕ) (mark : Mark)
    → mark_of ((n, mark) ∷ pos) m ≡ (if n == m then mark else mark_of pos m)
unfolding mark_of
mark_of-cons pos n m mark = refl

module _ (g : Schema) (P : ℕ → Type 0) (n : ℕ) where
  enter-stacked :
      (w : Walk)
      → Inv g P w
      → (m p : ℕ) → mark_of (enter n w).pos m ≡ on_stack p
      → Sits (enter n w).stack m p
  unfolding enter mark_of
  enter-stacked w inv m p h = elim (Bool-cases (n == m)) [
    | inl e ↦
        let at : on_stack (length w.stack + 1) ≡ on_stack p = (rw e at h) in
        let bottom : length w.stack + 1 ≡ p = cc in
        let top : p - 1 ≡ length w.stack = omega (arith, bottom) in
        let same : n ≡ m = ground (arith, e) in
        ([], rw top (drop-length w.stack n ∙ ap (λ x. x ∷ []) same))
    | inr e ↦
        let (rest, q) = inv.stacked m p (rw e at h) in
        (rest ++ n ∷ [], drop-append (p - 1) w.stack (n ∷ []) q)
  ]

  pub enter-Inv : (w : Walk) → Inv g P w → Inv g P (enter n w)
  unfolding enter mark_of
  enter-Inv w inv = record {
    settled = λ m h. ground (arith, inv.settled m);
    stacked = enter-stacked w inv;
    reported = inv.reported;
  }

  leave-stacked :
      (w : Walk) (s : List ℕ)
      → Inv g P w
      → w.stack ≡ s ++ n ∷ []
      → (m p : ℕ) → mark_of (leave n w).pos m ≡ on_stack p
      → Sits s m p
  unfolding leave mark_of
  leave-stacked w s inv top m p h = elim (Bool-cases (n == m)) [
    | inl e ↦ let clash : finished ≡ on_stack p = rw e at h in cc
    | inr e ↦
        let (rest, q) = inv.stacked m p (rw e at h) in
        drop-init (p - 1) s (ap (λ l. drop (p - 1) l) (sym top) ∙ q) (λ q. ground (arith, e, q))
  ]

  pub leave-Inv :
      (w : Walk) (s : List ℕ)
      → Inv g P w
      → w.stack ≡ s ++ n ∷ []
      → (Quiet w → Grounded g n)
      → Inv g P (leave n w) × ((leave n w).stack ≡ s)
  unfolding leave mark_of
  leave-Inv w s inv top done =
      let kept : pop w.stack ≡ s = rw top (pop-append s n) in
      (
        record {
          settled = λ m h. ground (arith, inv.settled m, done);
          stacked = λ m p h. subst (λ l. Sits l m p) (sym kept) (leave-stacked w s inv top m p h);
          reported = inv.reported;
        },
        kept,
      )
