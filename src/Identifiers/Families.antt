-- ===== src/Identifiers/Families.antt =====
-- go/codegen/names.go: the families of several allocations, and the names that are kept.
use cambium.Prelude.{
  sym, Option-cases, false, subst, ℕ, zero, suc, ◌+◌, ◌≡◌, refl, inl, inr, true, Option, none, some,
  List, [], ◌∷◌, ◌++◌, arith, Bool-cases, length, All, All-map,
}
use cambium.Strconv.{Text, format_uint}
use cambium.IfFeature.Tokenizer.{same_word}
use cambium.Identifiers.{
  NameKey, same_key, allocate_all, IdentAllocator, is_used, is_free, name_of, free_name, reserved,
  allocated, allocate, Request,
}

pub same_word_refl : (s : Text) → same_word s s ≡ true
unfolding same_word
same_word_refl [] = refl
same_word_refl (c ∷ s) = ground (arith, same_word_refl s)

-- Every name of the first list is used in the second.
abbrev pub AllUsed : List Text → List Text → Type 0
AllUsed used ms = All (λ m. is_used used m ≡ true) ms

is_used-cons : (used : List Text) (m u : Text) → is_used used m ≡ true → is_used (u ∷ used) m ≡ true
unfolding is_used
is_used-cons used m u h = ground arith

is_used-append :
    (ms used : List Text) (m : Text) → is_used used m ≡ true → is_used (ms ++ used) m ≡ true
is_used-append [] used m h = h
is_used-append (x ∷ ms) used m h = is_used-cons (ms ++ used) m x (is_used-append ms used m h)

is_used-here : (used : List Text) (m : Text) → is_used (m ∷ used) m ≡ true
unfolding is_used
is_used-here used m = let r = same_word_refl m in ground arith

AllUsed-append : (ms used : List Text) → AllUsed (ms ++ used) ms
AllUsed-append [] used = tt
AllUsed-append (m ∷ ms) used = (
  is_used-here (ms ++ used) m,
  All-map (λ x. is_used (ms ++ used) x ≡ true) (λ x. is_used (m ∷ ms ++ used) x ≡ true)
      (λ x h. is_used-cons (ms ++ used) x m h) ms (AllUsed-append ms used),
)

free_name-is_free :
    (f : ℕ) (used : List Text) (family : Text → List Text) (base : Text) (suffix : ℕ)
    (name out : Text)
    → free_name f used family base suffix name ≡ some out
    → is_free used (family out) ≡ true
unfolding free_name
free_name-is_free zero used family base suffix name out h = absurd (cc)
free_name-is_free (suc f) used family base suffix name out h =
    elim (Bool-cases (is_free used (family name))) [
      | inl b ↦
          let e : name ≡ out = (let k = rw b at h in cc) in
          subst (λ n. is_free used (family n) ≡ true) e b
      | inr b ↦
          free_name-is_free f used family base (suffix + 1) (base ++ format_uint suffix) out
            (rw b at h)
    ]

-- What an allocation did.
data Allocation (a : IdentAllocator) (r : Request) : Text × IdentAllocator → Type 0 where
  again : (name : Text) → name_of a.names r.key ≡ some name → Allocation a r (name, a)
  first_time :
      (name : Text)
      → name_of a.names r.key ≡ none
      → is_free a.used (r.family name) ≡ true
      → Allocation a r
          (name, record { used = r.family name ++ a.used; names = (r.key, name) ∷ a.names })

reserved_lem :
    (a : IdentAllocator) (r : Request) (o : Option Text) (out : Text × IdentAllocator)
    → name_of a.names r.key ≡ none
    → ((name : Text) → o ≡ some name → is_free a.used (r.family name) ≡ true)
    → reserved a r.key r.family o ≡ some out
    → Allocation a r out
unfolding reserved
reserved_lem a r none out n f h = absurd (cc)
reserved_lem a r (some name) out n f h =
    subst (Allocation a r) (some_inj h) (first_time name n (f name refl))
  where
    some_inj : {A : Type 0} {x y : A} → ◌≡◌ {A = Option A} (some x) (some y) → x ≡ y
    some_inj e = cc

allocated_lem :
    (a : IdentAllocator) (r : Request) (o : Option Text) (out : Text × IdentAllocator)
    → name_of a.names r.key ≡ o
    → allocated a r.key r.base r.family o ≡ some out
    → Allocation a r out
unfolding allocated
allocated_lem a r (some name) out n h =
    let e : (name, a) ≡ out = cc in subst (Allocation a r) e (again name n)
allocated_lem a r none out n h =
    reserved_lem a r (free_name (length a.used + 1) a.used r.family r.base 2 r.base) out n
      (λ name e. free_name-is_free (length a.used + 1) a.used r.family r.base 2 r.base name e) h

allocate_lem :
    (a : IdentAllocator) (r : Request) (out : Text × IdentAllocator)
    → allocate a r.key r.base r.family ≡ some out
    → Allocation a r out
unfolding allocate
allocate_lem a r out h = allocated_lem a r (name_of a.names r.key) out refl h

pub same_word-eq : (s t : Text) → same_word s t ≡ true → s ≡ t
unfolding same_word
same_word-eq [] [] h = refl
same_word-eq [] (d ∷ t) h = absurd (cc)
same_word-eq (c ∷ s) [] h = absurd (cc)
same_word-eq (c ∷ s) (d ∷ t) h =
    let e : c ≡ d = ground arith in let r = same_word-eq s t (ground arith) in cc

-- Used names stay used.
abbrev Grows : IdentAllocator → IdentAllocator → Type 0
Grows a b = (m : Text) → is_used a.used m ≡ true → is_used b.used m ≡ true

Allocation-Grows :
    (a : IdentAllocator) (r : Request) (out : Text × IdentAllocator)
    → Allocation a r out
    → Grows a out.1
Allocation-Grows a r _ (again name n) m h = h
Allocation-Grows a r _ (first_time name n f) m h = is_used-append (r.family name) a.used m h

allocate_all-Grows :
    (rs : List Request) (a b : IdentAllocator) → allocate_all a rs ≡ some b → Grows a b
unfolding allocate_all
allocate_all-Grows [] a b e m h = let q : a ≡ b = cc in subst (λ x. is_used x.used m ≡ true) q h
allocate_all-Grows (r ∷ rs) a b e m h = elim (Option-cases (allocate a r.key r.base r.family)) [
  | inl q ↦ let z = rw (allocate_all, q) at e in absurd (cc)
  | inr ((name, c), q) ↦
      allocate_all-Grows rs c b (rw (allocate_all, q) at e) m
        (Allocation-Grows a r (name, c) (allocate_lem a r (name, c) q) m h)
]

pub free-unused :
    (used ms : List Text) (m : Text)
    → is_free used ms ≡ true
    → is_used used m ≡ true
    → is_used ms m ≡ false
unfolding is_free is_used
free-unused used [] m f h = refl
free-unused used (x ∷ ms) m f h = elim (Bool-cases (same_word x m)) [
  | inl b ↦
      let h' : is_used used x ≡ true =
        subst (λ k. is_used used k ≡ true) (sym (same_word-eq x m b)) h in
      absurd (ground arith)
  | inr b ↦ let r = free-unused used ms m (ground arith) h in rw (b, r) refl
]

-- No name of the first family is one of the second.
abbrev pub Disjoint : List Text → List Text → Type 0
Disjoint ms ns = All (λ m. is_used ns m ≡ false) ms

first_used :
    (a : IdentAllocator) (r : Request) (out : Text × IdentAllocator)
    → name_of a.names r.key ≡ none
    → Allocation a r out
    → AllUsed out.1.used (r.family out.0)
first_used a r _ n (again name q) = absurd (cc)
first_used a r _ n (first_time name q f) = AllUsed-append (r.family name) a.used

first_free :
    (a : IdentAllocator) (r : Request) (out : Text × IdentAllocator)
    → name_of a.names r.key ≡ none
    → Allocation a r out
    → is_free a.used (r.family out.0) ≡ true
first_free a r _ n (again name q) = absurd (cc)
first_free a r _ n (first_time name q f) = f

-- If two keys are each given a name for the first time, with any allocations in between, then no
-- identifier of the first family is one of the second.
pub allocate-Disjoint :
    (a b c d : IdentAllocator) (r s : Request) (between : List Request) (name other : Text)
    → name_of a.names r.key ≡ none
    → allocate a r.key r.base r.family ≡ some (name, b)
    → allocate_all b between ≡ some c
    → name_of c.names s.key ≡ none
    → allocate c s.key s.base s.family ≡ some (other, d)
    → Disjoint (r.family name) (s.family other)
allocate-Disjoint a b c d r s between name other n h g k l =
    let used = first_used a r (name, b) n (allocate_lem a r (name, b) h) in
    let free = first_free c s (other, d) k (allocate_lem c s (other, d) l) in
    All-map (λ m. is_used b.used m ≡ true) (λ m. is_used (s.family other) m ≡ false)
      (λ m u. free-unused c.used (s.family other) m free (allocate_all-Grows between b c g m u))
      (r.family name) used

same_key_refl : (k : NameKey) → same_key k k ≡ true
unfolding same_key
same_key_refl k = let r = same_word_refl k.role in ground arith

memo :
    (a : IdentAllocator) (r : Request) (out : Text × IdentAllocator)
    → Allocation a r out
    → name_of out.1.names r.key ≡ some out.0
unfolding name_of
memo a r _ (again name n) = n
memo a r _ (first_time name n f) = rw (same_key_refl r.key) refl

-- Behind an allocation the key keeps its name, whatever base and family it is asked for with, and the
-- allocator stays as it is.
pub allocate-again :
    (a b : IdentAllocator) (r : Request) (name base : Text) (family : Text → List Text)
    → allocate a r.key r.base r.family ≡ some (name, b)
    → allocate b r.key base family ≡ some (name, b)
allocate-again a b r name base family h =
    let m = memo a r (name, b) (allocate_lem a r (name, b) h) in
    unfold allocate allocated in rw m refl
