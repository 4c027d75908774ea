-- ===== src/YangRange/Containment.antt =====
-- go/cambium/number.go: `Contains`, against ranges that lie within one range of the receiver.
use mathlib.Core.Bool.{false≢true}
use cambium.Prelude.{
  Bool, ◌≡◌, ◌↔◌, refl, true, [], ◌∷◌, All, Any, All-map, Any-map, arith, Bool-cases, inl, inr,
}
use cambium.Number.{Number, less}
use cambium.Number.Order.{less→lt, not_less→le, le→not_less}
use cambium.YangRange.{YRange, YangRange, advance, fits, contains_from, contains}
use cambium.YangRange.Meaning.{Le, Lt, Within, Permits, IsValid}

-- The range `s` lies within the range `r`.
abbrev pub Inside : YRange → YRange → Type 0
Inside s r = Le r.min s.min × Le s.max r.max

-- Some one range of `r` holds all of `s`.
abbrev pub Covered : YangRange → YRange → Type 0
Covered r s = Any (Inside s) r

behind :
    (s t a : YRange) (r : YangRange)
    → Lt a.max s.min
    → Le s.min t.min
    → Le t.min t.max
    → Covered (a ∷ r) t
    → Covered r t
behind s t a r k l v (inl i) = absurd (omega arith)
behind s t a r k l v (inr c) = c

-- What `advance` skips ends below `s`, so it holds no range that begins with `s` or later.
Covered-advance :
    (s t : YRange) (r : YangRange)
    → Le s.min t.min
    → Le t.min t.max
    → Covered r t
    → Covered (advance s r) t
unfolding advance
Covered-advance s t [] l v h = h
Covered-advance s t (a ∷ r) l v h = elim (Bool-cases (less a.max s.min)) [
  | inl skip ↦ rw skip (Covered-advance s t r l v (behind s t a r (less→lt a.max s.min skip) l v h))
  | inr stop ↦ rw stop h
]

advance-Covered : (s t : YRange) (r : YangRange) → Covered (advance s r) t → Covered r t
unfolding advance
advance-Covered s t [] h = h
advance-Covered s t (a ∷ r) h = elim (Bool-cases (less a.max s.min)) [
  | inl skip ↦ inr (advance-Covered s t r (rw skip at h))
  | inr stop ↦ rw stop at h
]

-- The first range that is left, if there is one, reaches up to the start of `s`.
abbrev Reaches : YRange → YangRange → Type 0
Reaches s [] = Unit
Reaches s (a ∷ r) = Le s.min a.max

advance-Reaches : (s : YRange) (r : YangRange) → Reaches s (advance s r)
unfolding advance
advance-Reaches s [] = tt
advance-Reaches s (a ∷ r) = elim (Bool-cases (less a.max s.min)) [
  | inl skip ↦ rw skip (advance-Reaches s r)
  | inr stop ↦ rw stop (not_less→le a.max s.min stop)
]

advance-IsValid : (s : YRange) (r : YangRange) → IsValid r → IsValid (advance s r)
unfolding advance
advance-IsValid s [] h = tt
advance-IsValid s (a ∷ r) h = elim (Bool-cases (less a.max s.min)) [
  | inl skip ↦ rw skip (advance-IsValid s r h.2)
  | inr stop ↦ rw stop h
]

fits-Covered :
    (s : YRange) (l : YangRange) (next : YangRange → Bool)
    → fits s l next ≡ true
    → Covered l s × (next l ≡ true)
unfolding fits
fits-Covered s [] next h = absurd (false≢true h)
fits-Covered s (a ∷ r) next h = (
  inl (ground (arith, not_less→le s.min a.min), ground (arith, not_less→le a.max s.max)),
  ground arith,
)

-- A range above the end of `a` is not inside a range that begins above that end.
not_later :
    (s a : YRange) (r : YangRange) → Le s.min a.max → All (λ b. Lt a.max b.min) r → ¬ Covered r s
not_later s a [] h l c = c
not_later s a (b ∷ r) h l (inl i) = omega arith
not_later s a (b ∷ r) h l (inr c) = not_later s a r h l.1 c

Covered-fits :
    (s : YRange) (l : YangRange) (next : YangRange → Bool)
    → IsValid l
    → Reaches s l
    → Covered l s
    → next l ≡ true
    → fits s l next ≡ true
unfolding fits
Covered-fits s [] next v r c n = absurd c
Covered-fits s (a ∷ l) next v r (inl i) n =
    ground (arith, le→not_less s.min a.min, le→not_less a.max s.max)
Covered-fits s (a ∷ l) next v r (inr c) n = absurd (not_later s a l r v.1 c)

contains_from_sound : (r s : YangRange) → contains_from r s ≡ true → All (Covered r) s
unfolding contains_from
contains_from_sound r [] h = tt
contains_from_sound r (t ∷ s) h =
    let (c, n) = fits-Covered t (advance t r) (λ r'. contains_from r' s) h in
    (
      advance-Covered t t r c,
      All-map (Covered (advance t r)) (Covered r) (λ u. advance-Covered t u r) s
          (contains_from_sound (advance t r) s n),
    )

Covered-advance-All :
    (t : YRange) (r s : YangRange)
    → Le t.min t.max
    → All (λ u. Lt t.max u.min) s
    → IsValid s
    → All (Covered r) s
    → All (Covered (advance t r)) s
Covered-advance-All t r [] v l w c = tt
Covered-advance-All t r (u ∷ s) v l w c =
    (Covered-advance t u r (omega arith) w.0 c.0, Covered-advance-All t r s v l.1 w.2 c.1)

contains_from_complete :
    (r s : YangRange) → IsValid r → IsValid s → All (Covered r) s → contains_from r s ≡ true
unfolding contains_from
contains_from_complete r [] v w c = refl
contains_from_complete r (t ∷ s) v w c =
    let a = advance-IsValid t r v in
    Covered-fits t (advance t r) (λ r'. contains_from r' s) a (advance-Reaches t r)
      (Covered-advance t t r (omega arith) w.0 c.0)
      (contains_from_complete (advance t r) s a w.2 (Covered-advance-All t r s w.0 w.1 w.2 c.1))

-- For valid sequences, neither of them empty, `Contains` answers true exactly when every range of the
-- argument lies within one range of the receiver.
pub contains_iff :
    (a : YRange) (r : YangRange) (b : YRange) (s : YangRange)
    → IsValid (a ∷ r)
    → IsValid (b ∷ s)
    → (contains (a ∷ r) (b ∷ s) ≡ true) ↔ All (Covered (a ∷ r)) (b ∷ s)
unfolding contains
contains_iff a r b s v w =
    (contains_from_sound (a ∷ r) (b ∷ s), contains_from_complete (a ∷ r) (b ∷ s) v w)

Inside-Within : (s r : YRange) (x : Number) → Inside s r → Within x s → Within x r
Inside-Within s r x i w = omega arith

Covered-Permits : (r s : YangRange) (x : Number) → All (Covered r) s → Permits s x → Permits r x
Covered-Permits r [] x c p = absurd p
Covered-Permits r (t ∷ s) x c (inl w) =
    Any-map (Inside t) (Within x) (λ a i. Inside-Within t a x i w) r c.0
Covered-Permits r (t ∷ s) x c (inr p) = Covered-Permits r s x c.1 p

-- What `Contains` accepts permits no number that the receiver, if it is not empty, does not permit.
pub contains-Permits :
    (a : YRange) (r s : YangRange) (x : Number)
    → contains (a ∷ r) s ≡ true
    → Permits s x
    → Permits (a ∷ r) x
unfolding contains
contains-Permits a r [] x h p = absurd p
contains-Permits a r (b ∷ s) x h p =
    Covered-Permits (a ∷ r) (b ∷ s) x (contains_from_sound (a ∷ r) (b ∷ s) h) p
