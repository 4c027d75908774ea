-- ===== src/XsdRanges/Normal.antt =====
-- go/internal/xsdregex/pattern.go: `normalizeRanges`, the set and the form of its ranges.
use cambium.XsdRanges.Meaning.{IsNormal, in_range, holds, IsAscending}
use cambium.Prelude.{
  refl, ltb→lt, ◌+◌, ◌||◌, not_ltb→le, ap, ◌<◌, ◌∙◌, ltb, ℕ, ◌≤◌, ◌≡◌, inl, inr, true, false, List,
  [], ◌∷◌, arith, Bool-cases, All, All-map,
}
use cambium.XsdRanges.{
  normalize_ranges, merge_ranges, merge_from, sort_ranges, rune_less, insert_sorted, RuneRange,
}

All-insert_sorted :
    (n : ℕ) (x : RuneRange) (rs : List RuneRange)
    → n ≤ x.lo
    → All (λ s. n ≤ s.lo) rs
    → All (λ s. n ≤ s.lo) (insert_sorted x rs)
unfolding insert_sorted
All-insert_sorted n x [] h hs = (h, tt)
All-insert_sorted n x (y ∷ rs) h hs = elim (Bool-cases (rune_less y x)) [
  | inl b ↦ rw b (hs.0, All-insert_sorted n x rs h hs.1)
  | inr b ↦ rw b (h, hs)
]

rune_less→le : (a b : RuneRange) → rune_less a b ≡ true → a.lo ≤ b.lo
unfolding rune_less
rune_less→le a b h = ground arith

not_rune_less→le : (a b : RuneRange) → rune_less a b ≡ false → b.lo ≤ a.lo
unfolding rune_less
not_rune_less→le a b h = ground arith

insert_sorted-IsAscending :
    (x : RuneRange) (rs : List RuneRange) → IsAscending rs → IsAscending (insert_sorted x rs)
unfolding insert_sorted
insert_sorted-IsAscending x [] h = (tt, tt)
insert_sorted-IsAscending x (y ∷ rs) h = elim (Bool-cases (rune_less y x)) [
  | inl b ↦
      rw b
        (All-insert_sorted y.lo x rs (rune_less→le y x b) h.0, insert_sorted-IsAscending x rs h.1)
  | inr b ↦
      let le = not_rune_less→le y x b in
      rw b ((le, All-map (λ s. y.lo ≤ s.lo) (λ s. x.lo ≤ s.lo) (λ s q. omega arith) rs h.0), h)
]

sort_ranges-IsAscending : (rs : List RuneRange) → IsAscending (sort_ranges rs)
unfolding sort_ranges
sort_ranges-IsAscending [] = tt
sort_ranges-IsAscending (x ∷ rs) =
    insert_sorted-IsAscending x (sort_ranges rs) (sort_ranges-IsAscending rs)

holds-insert_sorted :
    (x : ℕ) (r : RuneRange) (rs : List RuneRange)
    → holds x (insert_sorted r rs) ≡ (in_range x r || holds x rs)
unfolding insert_sorted
holds-insert_sorted x r [] = refl
holds-insert_sorted x r (y ∷ rs) = elim (Bool-cases (rune_less y r)) [
  | inl b ↦ rw b (ground (arith, holds-insert_sorted x r rs))
  | inr b ↦ rw b refl
]

holds-sort_ranges : (x : ℕ) (rs : List RuneRange) → holds x (sort_ranges rs) ≡ holds x rs
unfolding sort_ranges
holds-sort_ranges x [] = refl
holds-sort_ranges x (r ∷ rs) =
    holds-insert_sorted x r (sort_ranges rs) ∙ ap (λ b. in_range x r || b) (holds-sort_ranges x rs)

-- One round of the loop, by what its three tests say.
merge_round :
    (P : List RuneRange → Type 0) (last r : RuneRange) (rest : List RuneRange)
    → (r.hi < r.lo → P (merge_from last rest))
    → (r.lo ≤ r.hi → last.hi + 1 < r.lo → P (last ∷ merge_from r rest))
    → (r.lo ≤ r.hi
        → r.lo ≤ last.hi + 1
        → last.hi < r.hi
        → P (merge_from (record last { hi = r.hi }) rest))
    → (r.lo ≤ r.hi → r.hi ≤ last.hi → P (merge_from last rest))
    → P (merge_from last (r ∷ rest))
unfolding merge_from
merge_round P last r rest empty apart wider inner = elim (Bool-cases (ltb r.hi r.lo)) [
  | inl b ↦ rw b (empty (ltb→lt _ _ b))
  | inr b ↦ elim (Bool-cases (ltb (last.hi + 1) r.lo)) [
    | inl c ↦ rw (b, c) (apart (not_ltb→le r.hi r.lo b) (ltb→lt _ _ c))
    | inr c ↦ elim (Bool-cases (ltb last.hi r.hi)) [
      | inl d ↦ rw (b, c) (rw d (wider (not_ltb→le r.hi r.lo b) (not_ltb→le _ _ c) (ltb→lt _ _ d)))
      | inr d ↦ rw (b, c) (rw d (inner (not_ltb→le r.hi r.lo b) (not_ltb→le _ _ d)))
    ]
  ]
]

holds-merge_from :
    (x : ℕ) (last : RuneRange) (rest : List RuneRange)
    → last.lo ≤ last.hi
    → IsAscending (last ∷ rest)
    → holds x (merge_from last rest) ≡ (in_range x last || holds x rest)
holds-merge_from x last [] v a = unfold merge_from in refl
holds-merge_from x last (r ∷ rest) v a =
    merge_round (λ o. holds x o ≡ (in_range x last || (in_range x r || holds x rest))) last r rest
      (λ e. ground (arith, holds-merge_from x last rest v (a.0.1, a.1.1)))
      (λ w f. ground (arith, holds-merge_from x r rest w a.1))
      (λ w n g. ground (
        arith,
        a.0.0,
        holds-merge_from x (record last { hi = r.hi }) rest (omega arith) (a.0.1, a.1.1),
      ))
      (λ w i. ground (arith, a.0.0, holds-merge_from x last rest v (a.0.1, a.1.1)))

merge_from-low :
    (n : ℕ) (last : RuneRange) (rest : List RuneRange)
    → n ≤ last.lo
    → All (λ s. n ≤ s.lo) rest
    → All (λ s. n ≤ s.lo) (merge_from last rest)
merge_from-low n last [] h a = unfold merge_from in (h, tt)
merge_from-low n last (r ∷ rest) h a =
    merge_round (All (λ s. n ≤ s.lo)) last r rest (λ e. merge_from-low n last rest h a.1)
      (λ w f. (h, merge_from-low n r rest a.0 a.1))
      (λ w l g. merge_from-low n (record last { hi = r.hi }) rest h a.1)
      (λ w i. merge_from-low n last rest h a.1)

merge_from-IsNormal :
    (last : RuneRange) (rest : List RuneRange)
    → last.lo ≤ last.hi
    → IsAscending (last ∷ rest)
    → IsNormal (merge_from last rest)
merge_from-IsNormal last [] v a = unfold merge_from in (v, tt, tt)
merge_from-IsNormal last (r ∷ rest) v a =
    merge_round IsNormal last r rest (λ e. merge_from-IsNormal last rest v (a.0.1, a.1.1))
      (λ w f. (
        v,
        All-map (λ s. r.lo ≤ s.lo) (λ s. last.hi + 1 < s.lo) (λ s q. omega arith)
            (merge_from r rest) (merge_from-low r.lo r rest (omega arith) a.1.0),
        merge_from-IsNormal r rest w a.1,
      ))
      (λ w n g. merge_from-IsNormal (record last { hi = r.hi }) rest (omega arith) (a.0.1, a.1.1))
      (λ w i. merge_from-IsNormal last rest v (a.0.1, a.1.1))

holds-merge_ranges :
    (x : ℕ) (rs : List RuneRange) → IsAscending rs → holds x (merge_ranges rs) ≡ holds x rs
unfolding merge_ranges
holds-merge_ranges x [] a = refl
holds-merge_ranges x (r ∷ rs) a = elim (Bool-cases (ltb r.hi r.lo)) [
  | inl b ↦ rw b (ground (arith, holds-merge_ranges x rs a.1))
  | inr b ↦ rw b (holds-merge_from x r rs (not_ltb→le r.hi r.lo b) a)
]

merge_ranges-IsNormal : (rs : List RuneRange) → IsAscending rs → IsNormal (merge_ranges rs)
unfolding merge_ranges
merge_ranges-IsNormal [] a = tt
merge_ranges-IsNormal (r ∷ rs) a = elim (Bool-cases (ltb r.hi r.lo)) [
  | inl b ↦ rw b (merge_ranges-IsNormal rs a.1)
  | inr b ↦ rw b (merge_from-IsNormal r rs (not_ltb→le r.hi r.lo b) a)
]

-- `normalizeRanges` holds the code points that its argument holds.
pub holds-normalize_ranges :
    (x : ℕ) (rs : List RuneRange) → holds x (normalize_ranges rs) ≡ holds x rs
unfolding normalize_ranges
holds-normalize_ranges x rs =
    holds-merge_ranges x (sort_ranges rs) (sort_ranges-IsAscending rs) ∙ holds-sort_ranges x rs

-- The ranges that `normalizeRanges` returns run upwards, each beginning at least two behind the end of each earlier one.
pub normalize_ranges-IsNormal : (rs : List RuneRange) → IsNormal (normalize_ranges rs)
unfolding normalize_ranges
normalize_ranges-IsNormal rs = merge_ranges-IsNormal (sort_ranges rs) (sort_ranges-IsAscending rs)
