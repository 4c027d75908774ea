-- ===== src/Canonical/Bitmaps.antt =====
-- go/datatree/datatree_order.go: `compareSparseBitmaps` and the dense forms.
use cambium.Prelude.Comparison.{order_of, below, above, compare_text, first_of}
use cambium.Canonical.{compare_sparse_bitmaps}
use cambium.Prelude.{
  sym, ◌∙◌, false, true, ltb, subst, ℕ, zero, suc, ◌+◌, ◌/◌, ◌%◌, ◌≤◌, ◌<◌, ◌≡◌, refl, inl, inr,
  List, [], ◌∷◌, arith, ◌==◌, if◌then◌else◌, Bool-cases,
}
use cambium.Strconv.{Text}

-- Ascending indexes from `lo` on and below `hi`, each with a byte that is not zero.
abbrev pub IsSparse : ℕ → ℕ → List ℕ → Type 0
IsSparse lo hi [] = Unit
IsSparse lo hi (x ∷ xs) =
    (lo ≤ x / 256) × (x / 256 < hi) × (0 < x % 256) × IsSparse (x / 256 + 1) hi xs

-- The bytes at the indexes from `lo` on, so many of them.
abbrev pub dense : ℕ → ℕ → List ℕ → Text
dense lo zero xs = []
dense lo (suc n) [] = 0 ∷ dense (lo + 1) n []
dense lo (suc n) (x ∷ xs) =
    if x / 256 == lo then x % 256 ∷ dense (lo + 1) n xs else 0 ∷ dense (lo + 1) n (x ∷ xs)

-- The head of a sparse bitmap is at `lo`, or the whole of it is behind.
data Head (lo hi : ℕ) : List ℕ → Type 0 where
  absent :
      (xs : List ℕ)
      → IsSparse (lo + 1) hi xs
      → ((n : ℕ) → dense lo (suc n) xs ≡ 0 ∷ dense (lo + 1) n xs)
      → Head lo hi xs
  present :
      (x : ℕ) (xs : List ℕ)
      → x / 256 ≡ lo
      → 0 < x % 256
      → IsSparse (lo + 1) hi xs
      → ((n : ℕ) → dense lo (suc n) (x ∷ xs) ≡ x % 256 ∷ dense (lo + 1) n xs)
      → Head lo hi (x ∷ xs)

Head-of : (lo hi : ℕ) (xs : List ℕ) → IsSparse lo hi xs → Head lo hi xs
Head-of lo hi [] h = absent [] tt (λ n. refl)
Head-of lo hi (x ∷ xs) h = elim (Bool-cases (x / 256 == lo)) [
  | inl b ↦
      let e : x / 256 ≡ lo = ground arith in
      present x xs e h.2 (subst (λ k. IsSparse (k + 1) hi xs) e h.3) (λ n. rw b refl)
  | inr b ↦ absent (x ∷ xs) (ground (arith, h.0, b), h.1, h.2, h.3) (λ n. rw b refl)
]

lower_index :
    (lo hi x : ℕ) (xs ys : List ℕ)
    → x / 256 ≡ lo
    → IsSparse (lo + 1) hi ys
    → compare_sparse_bitmaps (x ∷ xs) ys ≡ above
unfolding compare_sparse_bitmaps
lower_index lo hi x xs [] e h = refl
lower_index lo hi x xs (y ∷ ys) e h =
    let l : ltb (x / 256) (y / 256) ≡ true = ground (arith, h.0, e) in
    let d : (x / 256 == y / 256) ≡ false = ground (arith, h.0, e) in rw (d, l) refl

higher_index :
    (lo hi y : ℕ) (xs ys : List ℕ)
    → y / 256 ≡ lo
    → IsSparse (lo + 1) hi xs
    → compare_sparse_bitmaps xs (y ∷ ys) ≡ below
unfolding compare_sparse_bitmaps
higher_index lo hi y [] ys e h = refl
higher_index lo hi y (x ∷ xs) ys e h =
    let l : ltb (x / 256) (y / 256) ≡ false = ground (arith, h.0, e) in
    let d : (x / 256 == y / 256) ≡ false = ground (arith, h.0, e) in rw (d, l) refl

same_index :
    (x y : ℕ) (xs ys : List ℕ)
    → x / 256 ≡ y / 256
    → compare_sparse_bitmaps (x ∷ xs) (y ∷ ys)
      ≡ first_of (order_of (x % 256) (y % 256)) (compare_sparse_bitmaps xs ys)
unfolding compare_sparse_bitmaps
same_index x y xs ys e = let d : (x / 256 == y / 256) ≡ true = ground (arith, e) in rw d refl

IsSparse-nil : (lo hi : ℕ) (xs : List ℕ) → hi ≡ lo → IsSparse lo hi xs → xs ≡ []
IsSparse-nil lo hi [] e h = refl
IsSparse-nil lo hi (x ∷ xs) e h = absurd (omega (arith, e, h.0, h.1))

-- One byte more in front of bitmaps that are compared as their dense forms are.
by_heads :
    (n lo hi : ℕ) (xs ys : List ℕ)
    → ((s t : List ℕ)
        → IsSparse (lo + 1) hi s
        → IsSparse (lo + 1) hi t
        → compare_sparse_bitmaps s t ≡ compare_text (dense (lo + 1) n s) (dense (lo + 1) n t))
    → Head lo hi xs
    → Head lo hi ys
    → compare_sparse_bitmaps xs ys ≡ compare_text (dense lo (suc n) xs) (dense lo (suc n) ys)
unfolding compare_text
by_heads n lo hi _ _ later (absent xs s d) (absent ys t c) = rw (d n, c n) (later xs ys s t)
by_heads n lo hi _ _ later (present x xs i p s d) (absent ys t c) =
    rw (d n, c n, lower_index lo hi x xs ys i t) (ground (arith, p))
by_heads n lo hi _ _ later (absent xs s d) (present y ys j q t c) =
    rw (d n, c n, higher_index lo hi y xs ys j s) (ground (arith, q))
by_heads n lo hi _ _ later (present x xs i p s d) (present y ys j q t c) =
    rw (d n, c n, same_index x y xs ys (i ∙ sym j), later xs ys s t) refl

-- On sparse bitmaps, ascending and with no zero byte, whose indexes are below `hi`, the comparison is
-- that of the dense forms.
compare_sparse_from :
    (n lo hi : ℕ) (xs ys : List ℕ)
    → hi ≡ lo + n
    → IsSparse lo hi xs
    → IsSparse lo hi ys
    → compare_sparse_bitmaps xs ys ≡ compare_text (dense lo n xs) (dense lo n ys)
unfolding compare_text
compare_sparse_from zero lo hi xs ys e h k =
    rw (IsSparse-nil lo hi xs (omega (arith, e)) h, IsSparse-nil lo hi ys (omega (arith, e)) k)
      (unfold compare_sparse_bitmaps compare_text in refl)
compare_sparse_from (suc n) lo hi xs ys e h k =
    by_heads n lo hi xs ys (λ s t r u. compare_sparse_from n (lo + 1) hi s t (omega (arith, e)) r u)
      (Head-of lo hi xs h) (Head-of lo hi ys k)

-- `compareSparseBitmaps` of two sparse bitmaps, ascending and with no zero byte, whose bytes all have an
-- index below `n`, is the comparison of the two dense bitmaps of `n` bytes.
pub compare_sparse_bitmaps-dense :
    (n : ℕ) (xs ys : List ℕ)
    → IsSparse 0 n xs
    → IsSparse 0 n ys
    → compare_sparse_bitmaps xs ys ≡ compare_text (dense 0 n xs) (dense 0 n ys)
compare_sparse_bitmaps-dense n xs ys h k = compare_sparse_from n 0 n xs ys (omega arith) h k
