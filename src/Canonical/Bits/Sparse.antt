-- ===== src/Canonical/Bits/Sparse.antt =====
-- go/datatree/datatree_order.go: the form of the bitmap of a bits value.
use cambium.Canonical.Bitmaps.{IsSparse}
use cambium.Prelude.{
  sym, ◌+◌, All-map, subst, ◌*◌, ◌≡◌, ltb→lt, inr, inl, ◌^◌, ◌==◌, ◌%◌, ltb, ◌≤◌, ◌/◌, Bool-cases,
  ℕ, zero, suc, ◌<◌, ◌≢◌, List, [], ◌∷◌, arith, All,
}
use cambium.Canonical.Bits.{
  bits_bitmap, encoded, sorted_bytes, insert_byte, add_bits, add_bit, or_bit,
}

-- An index below the limit, with a byte that is not zero.
abbrev IsEntry : ℕ → ℕ × ℕ → Type 0
IsEntry n e = (e.0 < n) × (0 < e.1) × (e.1 < 256)

abbrev Distinct : List (ℕ × ℕ) → Type 0
Distinct [] = Unit
Distinct (e ∷ m) = All (λ f. f.0 ≢ e.0) m × Distinct m

below_eight :
    (P : ℕ → Type 0) → P 0 → P 1 → P 2 → P 3 → P 4 → P 5 → P 6 → P 7 → (i : ℕ) → i < 8 → P i
below_eight P a b c d e f g h zero l = a
below_eight P a b c d e f g h (suc zero) l = b
below_eight P a b c d e f g h (suc (suc zero)) l = c
below_eight P a b c d e f g h (suc (suc (suc zero))) l = d
below_eight P a b c d e f g h (suc (suc (suc (suc zero)))) l = e
below_eight P a b c d e f g h (suc (suc (suc (suc (suc zero))))) l = f
below_eight P a b c d e f g h (suc (suc (suc (suc (suc (suc zero)))))) l = g
below_eight P a b c d e f g h (suc (suc (suc (suc (suc (suc (suc zero))))))) l = h
below_eight P a b c d e f g h (suc (suc (suc (suc (suc (suc (suc (suc i)))))))) l =
    absurd (omega (arith, l))

or_bit-byte : (b i : ℕ) → b < 256 → i < 8 → (0 < or_bit b i) × (or_bit b i < 256)
unfolding or_bit
or_bit-byte b i h l =
    below_eight (λ k. (0 < or_bit b k) × (or_bit b k < 256)) (ground (arith, h)) (ground (arith, h))
      (ground (arith, h)) (ground (arith, h)) (ground (arith, h)) (ground (arith, h))
      (ground (arith, h)) (ground (arith, h)) i l

All-add_bit :
    (P : ℕ × ℕ → Type 0) (p : ℕ) (m : List (ℕ × ℕ))
    → P (p / 8, or_bit 0 (p % 8))
    → ((b : ℕ) → P (p / 8, b) → P (p / 8, or_bit b (p % 8)))
    → All P m
    → All P (add_bit p m)
unfolding add_bit
All-add_bit P p [] new more h = (new, tt)
All-add_bit P p ((k, b) ∷ m) new more h = elim (Bool-cases (k == p / 8)) [
  | inl e ↦
      let q : k ≡ p / 8 = ground arith in
      rw e
        (subst (λ j. P (j, or_bit b (p % 8))) (sym q) (more b (subst (λ j. P (j, b)) q h.0)), h.1)
  | inr e ↦ rw e (h.0, All-add_bit P p m new more h.1)
]

Distinct-add_bit : (p : ℕ) (m : List (ℕ × ℕ)) → Distinct m → Distinct (add_bit p m)
unfolding add_bit
Distinct-add_bit p [] h = (tt, tt)
Distinct-add_bit p ((k, b) ∷ m) h = elim (Bool-cases (k == p / 8)) [
  | inl e ↦ rw e (h.0, h.1)
  | inr e ↦ rw e (
    All-add_bit (λ f. f.0 ≢ k) p m (λ q. absurd (ground (arith, q, e))) (λ c d. d) h.0,
    Distinct-add_bit p m h.1,
  )
]

entries :
    (n : ℕ) (ps : List ℕ) (m : List (ℕ × ℕ))
    → All (λ p. p / 8 < n) ps
    → All (IsEntry n) m
    → Distinct m
    → All (IsEntry n) (add_bits ps m) × Distinct (add_bits ps m)
unfolding add_bits
entries n [] m h g d = (g, d)
entries n (p ∷ ps) m h g d =
    let byte = or_bit-byte 0 (p % 8) (omega arith) (omega arith) in
    entries n ps (add_bit p m) h.1
      (All-add_bit (IsEntry n) p m (h.0, byte.0, byte.1)
        (λ b e. let c = or_bit-byte b (p % 8) e.2 (omega arith) in (e.0, c.0, c.1)) g)
      (Distinct-add_bit p m d)

-- Each index is above those in front of it.
abbrev Climbs : List (ℕ × ℕ) → Type 0
Climbs [] = Unit
Climbs (e ∷ m) = All (λ f. e.0 < f.0) m × Climbs m

All-insert_byte :
    (P : ℕ × ℕ → Type 0) (x : ℕ × ℕ) (m : List (ℕ × ℕ)) → P x → All P m → All P (insert_byte x m)
unfolding insert_byte
All-insert_byte P x [] h g = (h, tt)
All-insert_byte P x (y ∷ m) h g = elim (Bool-cases (ltb (y.0) (x.0))) [
  | inl b ↦ rw b (g.0, All-insert_byte P x m h g.1)
  | inr b ↦ rw b (h, g)
]

Climbs-insert_byte :
    (x : ℕ × ℕ) (m : List (ℕ × ℕ)) → All (λ f. f.0 ≢ x.0) m → Climbs m → Climbs (insert_byte x m)
unfolding insert_byte
Climbs-insert_byte x [] d c = (tt, tt)
Climbs-insert_byte x (y ∷ m) d c = elim (Bool-cases (ltb (y.0) (x.0))) [
  | inl b ↦ rw b (
    All-insert_byte (λ f. y.0 < f.0) x m (ltb→lt (y.0) (x.0) b) c.0,
    Climbs-insert_byte x m d.1 c.1,
  )
  | inr b ↦
      let l : x.0 < y.0 = ground (arith, b, d.0) in
      rw b ((l, All-map (λ f. y.0 < f.0) (λ f. x.0 < f.0) (λ f h. omega (arith, h, l)) m c.0), c)
]

All-sorted_bytes : (P : ℕ × ℕ → Type 0) (m : List (ℕ × ℕ)) → All P m → All P (sorted_bytes m)
unfolding sorted_bytes
All-sorted_bytes P [] h = tt
All-sorted_bytes P (x ∷ m) h = All-insert_byte P x (sorted_bytes m) h.0 (All-sorted_bytes P m h.1)

Climbs-sorted_bytes : (m : List (ℕ × ℕ)) → Distinct m → Climbs (sorted_bytes m)
unfolding sorted_bytes
Climbs-sorted_bytes [] d = tt
Climbs-sorted_bytes (x ∷ m) d =
    Climbs-insert_byte x (sorted_bytes m) (All-sorted_bytes (λ f. f.0 ≢ x.0) m d.0)
      (Climbs-sorted_bytes m d.1)

encoded-IsSparse :
    (lo n : ℕ) (m : List (ℕ × ℕ))
    → n ≤ 2 ^ 56
    → All (λ e. lo ≤ e.0) m
    → All (IsEntry n) m
    → Climbs m
    → IsSparse lo n (encoded m)
unfolding encoded
encoded-IsSparse lo n [] w l h c = tt
encoded-IsSparse lo n ((k, b) ∷ m) w l h c =
    let x = k * 256 % 2 ^ 64 + b in
    let d : x / 256 ≡ k = omega (arith, h.0, w) in
    let r : x % 256 ≡ b = omega (arith, h.0, w) in
    (
      omega (arith, d, l.0),
      omega (arith, d, h.0),
      omega (arith, r, h.0),
      subst (λ j. IsSparse (j + 1) n (encoded m)) (sym d)
          (encoded-IsSparse (k + 1) n m w
            (All-map (λ f. k < f.0) (λ f. k + 1 ≤ f.0) (λ f q. omega (arith, q)) m c.0) h.1 c.1),
    )

-- If every position lies in one of the first `n` bytes, `n` at most 2^56, then the bitmap that
-- `bitsOrderBitmap` builds of the positions is ascending, with no zero byte and no index from `n` on.
pub bits_bitmap-IsSparse :
    (n : ℕ) (ps : List ℕ) → n ≤ 2 ^ 56 → All (λ p. p / 8 < n) ps → IsSparse 0 n (bits_bitmap ps)
unfolding bits_bitmap
bits_bitmap-IsSparse n ps w h =
    let (g, d) = entries n ps [] h tt tt in
    encoded-IsSparse 0 n (sorted_bytes (add_bits ps [])) w
      (all_zero (sorted_bytes (add_bits ps []))) (All-sorted_bytes (IsEntry n) (add_bits ps []) g)
      (Climbs-sorted_bytes (add_bits ps []) d)
  where
    all_zero : (m : List (ℕ × ℕ)) → All (λ e. 0 ≤ e.0) m
    all_zero [] = tt
    all_zero (x ∷ m) = (omega arith, all_zero m)
