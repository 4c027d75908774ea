-- ===== src/YangRange/Validation.antt =====
-- go/cambium/number.go: `Validate`, against sequences of ranges that lie apart.
use cambium.Prelude.{◌≡◌, ◌↔◌, refl, true, [], ◌∷◌, All, All-map, arith}
use cambium.Number.Order.{less→lt, not_less→le, lt→less, le→not_less}
use cambium.YangRange.{
  YRange, YangRange, valid, range_less, is_sorted, validate, validate_from, fine,
}
use cambium.YangRange.Meaning.{Le, Lt, IsValid}

-- Each range is valid, and each begins behind the end of the one before it.
abbrev Chain : YRange → YangRange → Type 0
Chain prev [] = Unit
Chain prev (next ∷ rest) = Le next.min next.max × Lt prev.max next.min × Chain next rest

validate_from_iff :
    (prev : YRange) (rest : YangRange) → (validate_from prev rest ≡ fine) ↔ Chain prev rest
unfolding validate_from valid
validate_from_iff prev [] = (λ _. tt, λ _. refl)
validate_from_iff prev (next ∷ rest) = (
  λ h. ground (
    arith,
    h,
    validate_from_iff next rest,
    not_less→le next.max next.min,
    less→lt prev.max next.min,
  ),
  λ h. ground (
    arith,
    validate_from_iff next rest,
    le→not_less next.max next.min,
    lt→less prev.max next.min,
  ),
)

Chain-later :
    (a : YRange) (rest : YangRange) → Le a.min a.max → Chain a rest → All (λ s. Lt a.max s.min) rest
Chain-later a [] v c = tt
Chain-later a (b ∷ rest) v c = (
  c.1,
  All-map (λ s. Lt b.max s.min) (λ s. Lt a.max s.min) (λ s h. omega arith) rest
      (Chain-later b rest c.0 c.2),
)

Chain→IsValid : (a : YRange) (rest : YangRange) → Le a.min a.max → Chain a rest → IsValid (a ∷ rest)
Chain→IsValid a [] v c = (v, tt, tt)
Chain→IsValid a (b ∷ rest) v c = (v, Chain-later a (b ∷ rest) v c, Chain→IsValid b rest c.0 c.2)

IsValid→Chain : (a : YRange) (rest : YangRange) → IsValid (a ∷ rest) → Chain a rest
IsValid→Chain a [] h = tt
IsValid→Chain a (b ∷ rest) h = (h.2.0, h.1.0, IsValid→Chain b rest h.2)

Chain-IsSorted :
    (a : YRange) (rest : YangRange) → Le a.min a.max → Chain a rest → is_sorted (a ∷ rest) ≡ true
unfolding is_sorted range_less
Chain-IsSorted a [] v c = refl
Chain-IsSorted a (b ∷ rest) v c =
    ground (arith, Chain-IsSorted b rest c.0 c.2, lt→less a.min b.min, le→not_less b.min a.min)

-- `Validate` returns no error exactly when every range runs upwards and lies wholly below all later ones.
pub validate_iff : (r : YangRange) → (validate r ≡ fine) ↔ IsValid r
unfolding validate
validate_iff [] = (λ _. tt, λ _. refl)
validate_iff (a ∷ rest) = (
  λ h.
      Chain→IsValid a rest (ground (arith, not_less→le a.max a.min))
        ((validate_from_iff a rest).0 (ground arith)),
  λ h.
      let c = IsValid→Chain a rest h in
      ground (
        arith,
        Chain-IsSorted a rest h.0 c,
        le→not_less a.max a.min,
        (validate_from_iff a rest).1 c,
      ),
)
