-- ===== src/XsdClass/Fuel.antt =====
-- go/internal/xsdregex/pattern.go: the fuel of `parseClassExprRanges`.
use cambium.XsdClass.Expr.{parse_class_content_ranges, plain_class, class_expr}
use cambium.XsdClass.{GoUnicode}
use cambium.XsdClass.Atom.{starts_posix}
use cambium.XsdClass.Scan.{
  find_class_end, new_scan, positive_start, find_class_subtraction, bracket_closed, subtraction_of,
  next_opens, Subtraction, is_some, dashed, ends_here, jumps, bracket_opened, Round, scan_round,
  ClassScan, scan,
}
use cambium.Prelude.{
  take, drop, length-drop, subst, ℕ, zero, suc, ◌+◌, ◌-◌, ◌≤◌, ◌<◌, ◌≡◌, refl, sym, ◌∙◌, inl, inr,
  Bool, true, false, not, ◌&&◌, Option, none, some, [], ◌∷◌, arith, ◌==◌, if◌then◌else◌, Bool-cases,
  Option-cases, length,
}
use cambium.Strconv.{Text}

-- What a round leaves: `P` where the scan goes on, `Q` where it ends.
abbrev Leaves : {S : Type 0} → (ℕ → S → Type 0) → (S → Type 0) → ℕ → Round S → Type 0
Leaves P Q i (ends_here s) = Q s
Leaves P Q i (jumps k s) = P (suc i) s

-- What a loop keeps up to the bracket where it ends.
scan_rule :
    {S : Type 0} (round : ℕ → ℕ → Text → S → Round S) (P : ℕ → S → Type 0) (Q : S → Type 0)
    → ((i : ℕ) (s : S) → P i s → P (suc i) s)
    → ((i c : ℕ) (rest : Text) (s : S) → P i s → Leaves P Q i (round i c rest s))
    → (skip i : ℕ) (text : Text) (s s' : S) (e : ℕ) → P i s
    → scan round skip i text s ≡ some (s', e)
    → Q s'
unfolding scan
scan_rule round P Q later keeps skip i [] s s' e p h = cc
scan_rule round P Q later keeps (suc skip) i (c ∷ rest) s s' e p h =
    scan_rule round P Q later keeps skip (suc i) rest s s' e (later i s p) h
scan_rule round P Q later keeps zero i (c ∷ rest) s s' e p h =
    (elim (round i c rest s) as (λ r. round i c rest s ≡ r → Leaves P Q i r → Q s') [
      | ends_here z ↦ λ q left.
          let got : ◌≡◌ {A = Option (_ × ℕ)} (some (z, i)) (some (s', e)) = rw (scan, q) at h in
          let same : z ≡ s' = cc in subst Q same left
      | jumps k z ↦
          λ q left. scan_rule round P Q later keeps k (suc i) rest z s' e left (rw (scan, q) at h)
    ])
      refl (keeps i c rest s p)

abbrev Before : ℕ → Option ℕ → Type 0
Before i none = Unit
Before i (some m) = m < i

abbrev Positive : Option ℕ → Type 0
Positive none = Unit
Positive (some a) = 1 ≤ a

-- Before the rune at an index: the marker is behind it, and no subtraction starts at the first rune.
record Fine (i : ℕ) (s : ClassScan) : Type 0 where
  marked : Before i s.marker
  starts : Positive s.sub_start

Before-suc : (i : ℕ) (o : Option ℕ) → Before i o → Before (suc i) o
Before-suc i none h = tt
Before-suc i (some m) h = omega (arith, h)

Fine-suc : (i : ℕ) (s : ClassScan) → Fine i s → Fine (suc i) s
Fine-suc i s f = record { marked = Before-suc i s.marker f.marked; starts = f.starts }

bracket_opened-Positive :
    (b : Bool) (i : ℕ) (marker start : Option ℕ)
    → Before i marker
    → Positive start
    → Positive (if b && (is_some marker && not (is_some start)) then some i else start)
unfolding is_some
bracket_opened-Positive false i marker start m h = h
bracket_opened-Positive true i none start m h = h
bracket_opened-Positive true i (some k) none m h = omega (arith, m)
bracket_opened-Positive true i (some k) (some a) m h = h

bracket_opened-Fine : (i : ℕ) (s : ClassScan) → Fine i s → Fine (suc i) (bracket_opened i s)
unfolding bracket_opened
bracket_opened-Fine i s f = record {
  marked = Before-suc i s.marker f.marked;
  starts = bracket_opened-Positive (s.depth + 1 == 2) i s.marker s.sub_start f.marked f.starts;
}

bracket_closed-Fine : (i : ℕ) (s : ClassScan) → Fine i s → Fine (suc i) (bracket_closed i s)
unfolding bracket_closed
bracket_closed-Fine i s f = record { marked = Before-suc i s.marker f.marked; starts = f.starts }

dashed-Fine : (p i : ℕ) (rest : Text) (s : ClassScan) → Fine i s → Fine (suc i) (dashed p i rest s)
unfolding dashed
dashed-Fine p i rest s f = elim (Bool-cases ((i == p) && starts_posix rest)) [
  | inl e ↦ rw e (Fine-suc i s f)
  | inr e ↦ elim (Bool-cases ((s.depth == 1) && (next_opens rest && not (is_some s.marker)))) [
    | inl e' ↦ rw (e, e') (record { marked = omega arith; starts = f.starts })
    | inr e' ↦ rw (e, e') (Fine-suc i s f)
  ]
]

scan_round-Fine :
    (p i c : ℕ) (rest : Text) (s : ClassScan)
    → Fine i s
    → Leaves Fine (λ z. Positive z.sub_start) i (scan_round p i c rest s)
unfolding scan_round
scan_round-Fine p i c rest s f = elim (Bool-cases (c == b'\\')) [
  | inl e ↦ rw e (Fine-suc i s f)
  | inr e ↦ elim (Bool-cases (c == b'[')) [
    | inl e' ↦ rw (e, e') (bracket_opened-Fine i s f)
    | inr e' ↦ elim (Bool-cases (c == b']')) [
      | inl e'' ↦ elim (Bool-cases (s.depth == 1)) [
        | inl d ↦ rw (e, e', e'', d) ((bracket_closed-Fine i s f).starts)
        | inr d ↦ rw (e, e', e'', d) (bracket_closed-Fine i s f)
      ]
      | inr e'' ↦ elim (Bool-cases (c == b'-')) [
        | inl d ↦ rw (e, e', e'', d) (dashed-Fine p i rest s f)
        | inr d ↦ rw (e, e', e'', d) (Fine-suc i s f)
      ]
    ]
  ]
]

subtraction_of-Positive :
    (m a b : Option ℕ) (d end : ℕ) (t : Subtraction)
    → Positive a
    → subtraction_of (record { marker = m; sub_start = a; sub_end = b; depth = d }) end ≡ some t
    → 1 ≤ t.sub_start
unfolding subtraction_of
subtraction_of-Positive none a b d end t h e = cc
subtraction_of-Positive (some m) none b d end t h e = cc
subtraction_of-Positive (some m) (some a) none d end t h e = cc
subtraction_of-Positive (some m) (some a) (some b) d end t h e =
    let same : t.sub_start ≡ a = cc in omega (arith, same, h)

find_class_subtraction-Positive :
    (runes : Text) (t : Subtraction) → find_class_subtraction runes ≡ some t → 1 ≤ t.sub_start
unfolding find_class_subtraction
find_class_subtraction-Positive runes t h =
    let round = scan_round (positive_start runes) in
    elim (Option-cases (scan round 0 0 runes new_scan)) [
      | inl q ↦ let clash : none ≡ some t = rw (find_class_subtraction, q) at h in cc
      | inr ((s, end), q) ↦
          let start =
            scan_rule round Fine (λ z. Positive z.sub_start) Fine-suc
              (scan_round-Fine (positive_start runes)) 0 0 runes new_scan s end
              (record { marked = tt; starts = tt }) q in
          subtraction_of-Positive s.marker s.sub_start s.sub_end s.depth end t start
            (rw (find_class_subtraction, q) at h)
    ]

module _ (go : GoUnicode) where
  class_expr_empty : (fuel : ℕ) → class_expr go fuel [] ≡ none
  unfolding class_expr find_class_subtraction scan plain_class find_class_end
  class_expr_empty zero = refl
  class_expr_empty (suc fuel) = refl

  -- `parseClassExprRanges` takes no more calls than its argument has runes: with as much fuel, more of
  -- it changes nothing.
  pub class_expr_enough :
      (f g : ℕ) (runes : Text)
      → length runes ≤ f
      → length runes ≤ g
      → class_expr go f runes ≡ class_expr go g runes
  unfolding class_expr
  class_expr_enough f g [] hf hg = class_expr_empty f ∙ sym (class_expr_empty g)
  class_expr_enough zero g (c ∷ rest) hf hg = absurd (omega arith)
  class_expr_enough (suc f) zero (c ∷ rest) hf hg = absurd (omega arith)
  class_expr_enough (suc f) (suc g) (c ∷ rest) hf hg =
      let runes = c ∷ rest in
      elim (Option-cases (find_class_subtraction runes)) [
        | inl q ↦ rw (class_expr, q) refl
        | inr (s, q) ↦
            let positive = find_class_subtraction-Positive runes s q in
            let shorter = length-drop s.sub_start runes in
            let inner =
              class_expr_enough f g (drop s.sub_start runes) (omega arith) (omega arith) in
            elim (Option-cases
              (parse_class_content_ranges go (take (s.marker - 1) (drop 1 runes)))) [
                | inl b ↦ rw (class_expr, q, b) refl
                | inr (base, b) ↦ rw (class_expr, q, b, inner) refl
              ]
      ]
