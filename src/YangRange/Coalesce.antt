-- ===== src/YangRange/Coalesce.antt =====
-- go/cambium/number.go: `coalesceRanges`, the permitted numbers and the form of its ranges.
use cambium.Prelude.{
  ℕ, ◌+◌, ◌<◌, ◌≡◌, ◌↔◌, ◌⊎◌, ◌∙◌, sym, [], ◌∷◌, All, All-map, arith, Bool-cases, inl, inr,
}
use cambium.Number.{Number, less, add_quantum, two64}
use cambium.Number.Order.{less→lt, not_less→le, add_quantum-gt, add_quantum-le}
use cambium.YangRange.{YRange, YangRange, coalesce_from, coalesce_ranges}
use cambium.YangRange.Meaning.{Le, Lt, Within, Permits, IsValid}

-- Each range runs upwards, and the ranges begin in ascending order.
abbrev pub IsAscending : YangRange → Type 0
IsAscending [] = Unit
IsAscending (r ∷ rest) = Le r.min r.max × All (λ s. Le r.min s.min) rest × IsAscending rest

-- The upper end has `k` fraction digits and a successor of its width.
abbrev pub HasNext : ℕ → YRange → Type 0
HasNext k r = (r.max.fraction_digits ≡ k) × (r.max.value + 1 < two64)

-- Behind the end of each range at least one number is missing.
abbrev pub IsSpaced : YangRange → Type 0
IsSpaced [] = Unit
IsSpaced (r ∷ rest) = All (λ s. Lt (add_quantum r.max 1) s.min) rest × IsSpaced rest

abbrev widen : YRange → YRange → YRange
widen cur next = record cur { max = next.max }

Within-widen :
    (k : ℕ) (cur next : YRange) (x : Number)
    → x.fraction_digits ≡ k
    → HasNext k cur
    → Le (next.min) (add_quantum cur.max 1)
    → Within x (widen cur next)
    → Within x cur ⊎ Within x next
Within-widen k cur next x e h le w = elim (Bool-cases (less cur.max x)) [
  | inl above ↦
      let above' = less→lt cur.max x above in
      inr (omega (arith, add_quantum-le cur.max x h.1 (h.0 ∙ sym e) above'), w.1)
  | inr below ↦ inl (w.0, not_less→le cur.max x below)
]

-- One round of the loop, by what its two tests say.
coalesce_round :
    (P : YangRange → Type 0) (cur next : YRange) (rest : YangRange)
    → (Lt (add_quantum cur.max 1) next.min → P (cur ∷ coalesce_from next rest))
    → (Le next.min (add_quantum cur.max 1)
        → Lt cur.max next.max
        → P (coalesce_from (widen cur next) rest))
    → (Le next.min (add_quantum cur.max 1) → Le next.max cur.max → P (coalesce_from cur rest))
    → P (coalesce_from cur (next ∷ rest))
unfolding coalesce_from
coalesce_round P cur next rest apart wider inner =
    elim (Bool-cases (less (add_quantum cur.max 1) next.min)) [
      | inl far ↦ rw far (apart (less→lt _ _ far))
      | inr near ↦ elim (Bool-cases (less cur.max next.max)) [
        | inl up ↦ rw (near, up) (wider (not_less→le _ _ near) (less→lt _ _ up))
        | inr down ↦ rw (near, down) (inner (not_less→le _ _ near) (not_less→le _ _ down))
      ]
    ]

abbrev Same : YangRange → YangRange → Number → Type 0
Same r s x = Permits r x ↔ Permits s x

module _ (k : ℕ) (x : Number) (e : x.fraction_digits ≡ k) where
  Same-apart : (cur : YRange) (r s : YangRange) → Same r s x → Same (cur ∷ r) (cur ∷ s) x
  Same-apart cur r s i = (there i.0, there i.1)
    where
      there : {P Q : Type 0} → (P → Q) → Within x cur ⊎ P → Within x cur ⊎ Q
      there f (inl w) = inl w
      there f (inr q) = inr (f q)

  Same-widen :
      (cur next : YRange) (r rest : YangRange)
      → HasNext k cur
      → Le next.min (add_quantum cur.max 1)
      → Lt cur.max next.max
      → Le cur.min next.min
      → Same r (widen cur next ∷ rest) x
      → Same r (cur ∷ next ∷ rest) x
  Same-widen cur next r rest h le lt a i = (λ p. split (i.0 p), λ p. i.1 (join p))
    where
      split : Permits (widen cur next ∷ rest) x → Permits (cur ∷ next ∷ rest) x
      split (inl w) = elim (Within-widen k cur next x e h le w) [
        | inl c ↦ inl c
        | inr n ↦ inr (inl n)
      ]
      split (inr q) = inr (inr q)

      join : Permits (cur ∷ next ∷ rest) x → Permits (widen cur next ∷ rest) x
      join (inl w) = inl (w.0, omega arith)
      join (inr (inl w)) = inl (omega arith, w.1)
      join (inr (inr q)) = inr q

  Same-absorb :
      (cur next : YRange) (r rest : YangRange)
      → Le next.max cur.max
      → Le cur.min next.min
      → Same r (cur ∷ rest) x
      → Same r (cur ∷ next ∷ rest) x
  Same-absorb cur next r rest le a i = (λ p. split (i.0 p), λ p. i.1 (join p))
    where
      split : Permits (cur ∷ rest) x → Permits (cur ∷ next ∷ rest) x
      split (inl w) = inl w
      split (inr q) = inr (inr q)

      join : Permits (cur ∷ next ∷ rest) x → Permits (cur ∷ rest) x
      join (inl w) = inl w
      join (inr (inl w)) = inl (omega arith)
      join (inr (inr q)) = inr q

  coalesce_from-Permits :
      (cur : YRange) (rest : YangRange)
      → IsAscending (cur ∷ rest)
      → All (HasNext k) (cur ∷ rest)
      → Same (coalesce_from cur rest) (cur ∷ rest) x
  coalesce_from-Permits cur [] a h = unfold coalesce_from in (λ p. p, λ p. p)
  coalesce_from-Permits cur (next ∷ rest) a h =
      coalesce_round (λ r. Same r (cur ∷ next ∷ rest) x) cur next rest
        (λ far.
          Same-apart cur (coalesce_from next rest) (next ∷ rest)
            (coalesce_from-Permits next rest a.2 h.1))
        (λ near up.
          Same-widen cur next _ rest h.0 near up a.1.0 (
            coalesce_from-Permits (widen cur next) rest (omega arith, a.1.1, a.2.2) (h.1.0, h.1.1)))
        (λ near down.
          Same-absorb cur next _ rest down a.1.0
            (coalesce_from-Permits cur rest (a.0, a.1.1, a.2.2) (h.0, h.1.1)))

-- `coalesceRanges` keeps the permitted numbers.
pub coalesce_ranges-Permits :
    (k : ℕ) (x : Number) (r : YangRange)
    → x.fraction_digits ≡ k
    → IsAscending r
    → All (HasNext k) r
    → Permits (coalesce_ranges r) x ↔ Permits r x
unfolding coalesce_ranges
coalesce_ranges-Permits k x [] e a h = (λ p. p, λ p. p)
coalesce_ranges-Permits k x (cur ∷ rest) e a h = coalesce_from-Permits k x e cur rest a h

abbrev BeginAt : Number → YangRange → Type 0
BeginAt n r = All (λ s. Le n s.min) r

coalesce_from-BeginAt :
    (n : Number) (cur : YRange) (rest : YangRange)
    → Le n cur.min
    → BeginAt n rest
    → BeginAt n (coalesce_from cur rest)
coalesce_from-BeginAt n cur [] l b = unfold coalesce_from in (l, tt)
coalesce_from-BeginAt n cur (next ∷ rest) l b =
    coalesce_round (BeginAt n) cur next rest (λ far. (l, coalesce_from-BeginAt n next rest b.0 b.1))
      (λ near up. coalesce_from-BeginAt n (widen cur next) rest l b.1)
      (λ near down. coalesce_from-BeginAt n cur rest l b.1)

abbrev Clean : YangRange → Type 0
Clean r = IsValid r × IsSpaced r

Clean-apart :
    (cur : YRange) (m : Number) (r : YangRange)
    → Le cur.min cur.max
    → Lt cur.max (add_quantum cur.max 1)
    → Lt (add_quantum cur.max 1) m
    → BeginAt m r
    → Clean r
    → Clean (cur ∷ r)
Clean-apart cur m r v g far b c = (
  (v, All-map (λ s. Le m s.min) (λ s. Lt cur.max s.min) (λ s h. omega arith) r b, c.0),
  (All-map (λ s. Le m s.min) (λ s. Lt (add_quantum cur.max 1) s.min) (λ s h. omega arith) r b, c.1),
)

coalesce_from-Clean :
    (k : ℕ) (cur : YRange) (rest : YangRange)
    → IsAscending (cur ∷ rest)
    → All (HasNext k) (cur ∷ rest)
    → Clean (coalesce_from cur rest)
coalesce_from-Clean k cur [] a h = unfold coalesce_from in ((a.0, tt, tt), (tt, tt))
coalesce_from-Clean k cur (next ∷ rest) a h =
    coalesce_round Clean cur next rest
      (λ far.
        Clean-apart cur next.min (coalesce_from next rest) a.0 (add_quantum-gt cur.max h.0.1) far
          (coalesce_from-BeginAt next.min next rest (omega arith) a.2.1)
          (coalesce_from-Clean k next rest a.2 h.1))
      (λ near up.
        coalesce_from-Clean k (widen cur next) rest (omega arith, a.1.1, a.2.2) (h.1.0, h.1.1))
      (λ near down. coalesce_from-Clean k cur rest (a.0, a.1.1, a.2.2) (h.0, h.1.1))

-- `coalesceRanges` gives valid ranges, and behind the end of each at least one number is missing.
pub coalesce_ranges-Clean :
    (k : ℕ) (r : YangRange)
    → IsAscending r
    → All (HasNext k) r
    → IsValid (coalesce_ranges r) × IsSpaced (coalesce_ranges r)
unfolding coalesce_ranges
coalesce_ranges-Clean k [] a h = (tt, tt)
coalesce_ranges-Clean k (cur ∷ rest) a h = coalesce_from-Clean k cur rest a h
