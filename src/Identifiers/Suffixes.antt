-- ===== src/Identifiers/Suffixes.antt =====
-- go/codegen/names.go: the loop over the numeric suffixes in `allocate`, and its fuel.
use cambium.Prelude.{
  subst, ℕ, zero, suc, ◌+◌, ◌-◌, ◌≤◌, ◌<◌, ◌≡◌, refl, sym, inl, inr, true, false, none, some, List,
  [], ◌∷◌, ◌++◌, arith, ◌==◌, if◌then◌else◌, Bool-cases, Option-cases, length,
}
use cambium.Strconv.{Text, format_uint}
use cambium.IfFeature.Tokenizer.{same_word}
use cambium.Identifiers.{
  NameKey, IdentAllocator, is_used, is_free, name_of, free_name, reserved, allocated, allocate,
}
use cambium.Identifiers.Families.{same_word_refl, same_word-eq, free-unused}

-- The names that the loop tries.
abbrev pub candidate : Text → ℕ → Text
candidate base zero = base
candidate base (suc i) = base ++ format_uint (i + 2)

-- The families of two candidates have no identifier in common.
abbrev pub IsSeparate : (Text → List Text) → Text → Type 0
IsSeparate family base =
    (i j : ℕ) (m : Text)
    → i < j
    → is_used (family (candidate base i)) m ≡ true
    → is_used (family (candidate base j)) m ≡ false

remove : Text → List Text → List Text
remove m [] = []
remove m (u ∷ us) = let rest = remove m us in if same_word u m then rest else u ∷ rest

remove_le : (m : Text) (us : List Text) → length (remove m us) ≤ length us
unfolding remove
remove_le m [] = omega arith
remove_le m (u ∷ us) = ground (arith, remove_le m us)

length-remove : (m : Text) (us : List Text) → is_used us m ≡ true → length (remove m us) < length us
unfolding remove is_used
length-remove m [] h = absurd (cc)
length-remove m (u ∷ us) h = ground (arith, remove_le m us, length-remove m us)

is_used-remove :
    (m x : Text) (us : List Text)
    → is_used us x ≡ true
    → same_word x m ≡ false
    → is_used (remove m us) x ≡ true
unfolding remove is_used
is_used-remove m x [] h d = absurd (cc)
is_used-remove m x (u ∷ us) h d = elim (Bool-cases (same_word u x)) [
  | inl b ↦
      let e : same_word u m ≡ false =
        subst (λ k. same_word k m ≡ false) (sym (same_word-eq u x b)) d in
      rw (e, b) refl
  | inr b ↦ let r = is_used-remove m x us (ground arith) d in ground (arith, r)
]

-- A family that is not free has a member that is used.
hit :
    (used ms : List Text)
    → is_free used ms ≡ false
    → (m : Text) × (is_used ms m ≡ true) × (is_used used m ≡ true)
unfolding is_free is_used
hit used [] h = absurd (cc)
hit used (x ∷ ms) h = elim (Bool-cases (is_used used x)) [
  | inl b ↦ let r = same_word_refl x in (x, ground arith, b)
  | inr b ↦ let (m, k, l) = hit used ms (ground arith) in (m, ground arith, l)
]

blocked-remove :
    (m : Text) (used ms : List Text)
    → is_free used ms ≡ false
    → is_used ms m ≡ false
    → is_free (remove m used) ms ≡ false
blocked-remove m used ms h k =
    let (x, a, b) = hit used ms h in
    elim (Bool-cases (is_free (remove m used) ms)) [
      | inl f ↦ elim (Bool-cases (same_word x m)) [
        | inl e ↦ let z = subst (λ q. is_used ms q ≡ true) (same_word-eq x m e) a in absurd (cc)
        | inr e ↦
            let z = free-unused (remove m used) ms x f (is_used-remove m x used b e) in absurd (cc)
      ]
      | inr f ↦ f
    ]

-- So many candidates whose families are not free need as many used names.
blocked_le :
    (f : ℕ) (used : List Text) (family : Text → List Text) (base : Text) (i : ℕ)
    → IsSeparate family base
    → ((k : ℕ) → k < f → is_free used (family (candidate base (i + k))) ≡ false)
    → f ≤ length used
blocked_le zero used family base i sep h = omega arith
blocked_le (suc f) used family base i sep h =
    let first : is_free used (family (candidate base i)) ≡ false =
      subst (λ q. is_free used (family (candidate base q)) ≡ false) (omega arith)
        (h 0 (omega arith)) in
    let (m, a, b) = hit used (family (candidate base i)) first in
    let rest = blocked_le f (remove m used) family base (i + 1) sep (λ k l.
      blocked-remove m used (family (candidate base (i + 1 + k)))
        (subst (λ q. is_free used (family (candidate base q)) ≡ false) (omega arith)
          (h (k + 1) (omega (arith, l))))
        (sep i (i + 1 + k) m (omega arith) a)) in
    omega (arith, rest, length-remove m used b)

none-blocked :
    (f : ℕ) (used : List Text) (family : Text → List Text) (base : Text) (i : ℕ)
    → free_name f used family base (i + 2) (candidate base i) ≡ none
    → (k : ℕ) → k < f
    → is_free used (family (candidate base (i + k))) ≡ false
unfolding free_name
none-blocked zero used family base i h k l = absurd (omega (arith, l))
none-blocked (suc f) used family base i h k l =
    elim (Bool-cases (is_free used (family (candidate base i)))) [
      | inl b ↦ let z = rw b at h in absurd (cc)
      | inr b ↦
          let next : free_name f used family base (suc i + 2) (candidate base (suc i)) ≡ none =
            subst (λ q. free_name f used family base q (base ++ format_uint (i + 2)) ≡ none)
              (omega arith) (rw b at h) in
          elim (Bool-cases (k == 0)) [
            | inl z ↦
                subst (λ q. is_free used (family (candidate base q)) ≡ false) (ground (arith, z)) b
            | inr z ↦
                subst (λ q. is_free used (family (candidate base q)) ≡ false) (ground (arith, z))
                  (none-blocked f used family base (suc i) next (k - 1) (ground (arith, l, z)))
          ]
    ]

-- If the families of the names that the loop tries have no identifier in common, then it ends with a name,
-- and `allocate` returns one: the fuel, one more than the count of used identifiers, is enough.
pub allocate_total :
    (a : IdentAllocator) (key : NameKey) (base : Text) (family : Text → List Text)
    → IsSeparate family base
    → (name : Text) × (b : IdentAllocator) × (allocate a key base family ≡ some (name, b))
unfolding allocate allocated reserved
allocate_total a key base family sep = elim (Option-cases (name_of a.names key)) [
  | inr (name, q) ↦ (name, a, rw q refl)
  | inl q ↦ elim (Option-cases (free_name (length a.used + 1) a.used family base 2 base)) [
    | inr (name, r) ↦ (
      name,
      record { used = family name ++ a.used; names = (key, name) ∷ a.names },
      rw (q, r) refl,
    )
    | inl r ↦ absurd (
        omega (
          arith,
          blocked_le (length a.used + 1) a.used family base 0 sep (
              none-blocked (length a.used + 1) a.used family base 0 (
                subst (λ q. free_name (length a.used + 1) a.used family base q base ≡ none)
                  (omega arith) r)),
        ))
  ]
]
