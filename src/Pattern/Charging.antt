-- ===== src/Pattern/Charging.antt =====
-- go/yangpattern/runtime_limits.go: saturating arithmetic and the limits of the ledger.
use cambium.Prelude.{
  subst, ℕ, ◌+◌, ◌≤◌, ◌<◌, ◌≡◌, refl, ◌≢◌, ◌↔◌, ◌⊎◌, inl, inr, Bool, true, false, none, some, arith,
  ltb, if◌then◌else◌, Option-cases,
}
use cambium.Strconv.{max_uint64}
use cambium.Pattern.{
  ResourceError, Ledger, add_sat, limit_error, charge, charge_open, charge_sums, Place, Limit,
  of_bytes, of_work,
}

-- `addSat` is the sum, or the largest uint64 where the sum is larger.
pub add_sat_lem :
    (a b : ℕ)
    → a ≤ max_uint64
    → add_sat a b ≡ (if ltb max_uint64 (a + b) then max_uint64 else a + b)
unfolding add_sat
add_sat_lem a b h = ground arith

pub limit_error-none :
    (p : Place) (n : Limit) (l o : ℕ) → (limit_error p n l o ≡ none) ↔ ((o ≢ max_uint64) × (o ≤ l))
unfolding limit_error
limit_error-none p n l o = ground arith

-- The sums of what was charged are within the limits, and representable.
abbrev pub InLimits : Ledger → Type 0
InLimits b =
    (b.bytes ≤ b.byte_limit)
    × (b.bytes < max_uint64)
    × (b.work ≤ b.work_limit)
    × (b.work < max_uint64)

-- A charge fits into a ledger.
abbrev pub Fits : Ledger → ℕ → ℕ → Type 0
Fits b x y =
    (b.bytes + x ≤ b.byte_limit)
    × (b.bytes + x < max_uint64)
    × (b.work + y ≤ b.work_limit)
    × (b.work + y < max_uint64)

sum_fits :
    (p : Place) (n : Limit) (l a b : ℕ)
    → a ≤ max_uint64
    → limit_error p n l (add_sat a b) ≡ none
    → (add_sat a b ≡ a + b) × (a + b ≤ l) × (a + b < max_uint64)
unfolding limit_error add_sat
sum_fits p n l a b h e = ground arith

fits_sum :
    (p : Place) (n : Limit) (l a b : ℕ)
    → a + b ≤ l
    → a + b < max_uint64
    → limit_error p n l (add_sat a b) ≡ none
unfolding limit_error add_sat
fits_sum p n l a b h k = ground arith

-- The outcomes of an open ledger, by the two tests.
charge_round :
    (P : Bool × Ledger → Type 0) (b : Ledger) (x y : ℕ)
    → b.failure ≡ none
    → InLimits b
    → ((e : ResourceError) → ¬ (Fits b x y) → P (false, record b { failure = some e }))
    → (Fits b x y → P (true, record b { bytes = b.bytes + x; work = b.work + y }))
    → P (charge b x y)
unfolding charge charge_open charge_sums
charge_round P b x y unfailed h over fine =
    elim (Option-cases (limit_error b.place of_bytes b.byte_limit (add_sat b.bytes x))) [
      | inr (e, q) ↦
          rw (unfailed, q)
            (over e (λ f.
              let none_ = fits_sum b.place of_bytes b.byte_limit b.bytes x f.0 f.1 in absurd (cc)))
      | inl q ↦ elim (Option-cases (limit_error b.place of_work b.work_limit (add_sat b.work y))) [
        | inr (e, r) ↦
            rw (unfailed, q, r)
              (over e (λ f.
                let none_ = fits_sum b.place of_work b.work_limit b.work y f.2 f.3 in absurd (cc)))
        | inl r ↦
            let s = sum_fits b.place of_bytes b.byte_limit b.bytes x (omega (arith, h)) q in
            let t = sum_fits b.place of_work b.work_limit b.work y (omega (arith, h)) r in
            rw (unfailed, q, r, s.0, t.0)
              (subst
                (λ o. P (true, record b { bytes = b.bytes + x; work = b.work + y; failure = o }))
                unfailed (fine (s.1, s.2, t.1, t.2)))
      ]
    ]

-- On a ledger that has not failed and is within its limits, `charge` adds both amounts exactly if the
-- two sums are within the limits and below the largest uint64; otherwise it keeps both and fails.
pub charge_lem :
    (b : Ledger) (x y : ℕ)
    → b.failure ≡ none
    → InLimits b
    → (Fits b x y × (charge b x y ≡ (true, record b { bytes = b.bytes + x; work = b.work + y })))
      ⊎ (¬ (Fits b x y)
          × ((e : ResourceError) × (charge b x y ≡ (false, record b { failure = some e }))))
charge_lem b x y unfailed h =
    charge_round
      (λ r.
        (Fits b x y × (r ≡ (true, record b { bytes = b.bytes + x; work = b.work + y })))
        ⊎ (¬ (Fits b x y) × ((e : ResourceError) × (r ≡ (false, record b { failure = some e })))))
      b x y unfailed h (λ e f. inr (f, (e, refl))) (λ f. inl (f, refl))

-- A ledger that has failed refuses every charge, and keeps its first error.
pub charge-failed :
    (b : Ledger) (e : ResourceError) (x y : ℕ) → b.failure ≡ some e → charge b x y ≡ (false, b)
unfolding charge
charge-failed b e x y h = rw h refl
