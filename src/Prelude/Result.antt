-- ===== src/Prelude/Result.antt =====
-- A value or an error, for code that returns `(T, error)`.
use mathlib.Core.Path.{◌≡◌, refl}

pub data Result {ℓ} (E : Type 0) (A : Type ℓ) : Type ℓ where
  ok : A → Result E A
  err : E → Result E A

-- The next step, if this one gave a value.
infixl 5 ◌>>=◌
abbrev pub ◌>>=◌ {ℓ κ} :
    {E : Type 0} {A : Type ℓ} {B : Type κ} → Result E A → (A → Result E B) → Result E B
err e >>= next = err e
ok a >>= next = next a

-- A failure reported under another error.
abbrev pub map_err {ℓ} : {E F : Type 0} {A : Type ℓ} → (E → F) → Result E A → Result F A
map_err f (ok a) = ok a
map_err f (err e) = err (f e)

pub >>=-eq-ok {ℓ κ} :
    {E : Type 0} {A : Type ℓ} {B : Type κ} (m : Result E A) (next : A → Result E B) {b : B}
    → (m >>= next) ≡ ok b
    → (a : A) × (m ≡ ok a) × (next a ≡ ok b)
>>=-eq-ok (err e) next h = cc
>>=-eq-ok (ok a) next h = (a, refl, h)

pub ok-injective {ℓ} :
    {E : Type 0} {A : Type ℓ} {a b : A} → ◌≡◌ {A = Result E A} (ok a) (ok b) → a ≡ b
ok-injective h = cc

-- What a result gives: `Q` of its value, or `E` of its error.
pub data Gives {F A : Type 0} (E : F → Type 0) (Q : A → Type 0) : Result F A → Type 0 where
  gives : {a : A} → Q a → Gives E Q (ok a)
  fails : {e : F} → E e → Gives E Q (err e)

module _ {F A : Type 0} {E : F → Type 0} {Q : A → Type 0} where
  pub Gives->>= :
      {B : Type 0} {R : B → Type 0} {m : Result F A} (next : A → Result F B)
      → Gives E Q m
      → ((a : A) → Q a → Gives E R (next a))
      → Gives E R (m >>= next)
  Gives->>= next (gives h) k = k _ h
  Gives->>= next (fails h) k = fails h

  pub Gives-map :
      {E' : F → Type 0} {Q' : A → Type 0} {m : Result F A}
      → Gives E Q m
      → ((e : F) → E e → E' e)
      → ((a : A) → Q a → Q' a)
      → Gives E' Q' m
  Gives-map (gives h) k l = gives (l _ h)
  Gives-map (fails h) k l = fails (k _ h)

  -- What it gives, where its outcome is known.
  pub Gives-ok : {a : A} → Gives E Q (ok a) → Q a
  Gives-ok (gives h) = h

  pub Gives-err : {e : F} → Gives E Q (err e) → E e
  Gives-err (fails h) = h
