-- ===== src/YangRange/Parse/Laws.antt =====
-- go/cambium/number.go: the ranges that `parseChildRanges` returns.
use cambium.YangRange.Sorting.{sort-Permits, All-sort, sort-IsAscending}
use cambium.YangRange.Containment.{contains-Permits}
use cambium.YangRange.Validation.{validate_iff}
use cambium.YangRange.Coalesce.{coalesce_ranges-Permits, coalesce_ranges-Clean, IsSpaced, HasNext}
use cambium.Number.Order.{not_less→le}
use cambium.YangRange.Meaning.{Permits, IsValid, Le}
use cambium.YangRange.Parse.{
  not_within, parse_number, parse_child_ranges, validated, child_ranges, upper_bound, parse_parts,
  part_of_bounds, ordered_range, ParseError,
}
use cambium.Prelude.Result.{err, ok-injective, ◌>>=◌, >>=-eq-ok, ok, Result}
use cambium.Strconv.{split, split_twice, trim_space, Text}
use cambium.Prelude.{
  subst, ℕ, ◌≡◌, refl, sym, ◌↔◌, inl, inr, Bool, true, false, List, [], ◌∷◌, arith, if◌then◌else◌,
  Bool-cases, All,
}
use cambium.Number.{less, Number}
use cambium.YangRange.{
  Verdict, validate, contains, sort, coalesce_ranges, YangRange, YRange, fine, bad,
}

-- The lower end of a part is not above its upper end: `parseChildRanges` refuses the others.
ordered_range-Le : (lo hi : Number) (r : YRange) → ordered_range lo hi ≡ ok r → Le r.min r.max
unfolding ordered_range
ordered_range-Le lo hi r h = elim (Bool-cases (less hi lo)) [
  | inl b ↦ absurd (cc (h, b))
  | inr b ↦ ground (arith, not_less→le hi lo)
]

part_of_bounds-Le :
    (parse : Text → Result ParseError Number) (bounds : List Text) (r : YRange)
    → part_of_bounds parse bounds ≡ ok r
    → Le r.min r.max
unfolding part_of_bounds
part_of_bounds-Le parse [] r h = absurd (cc)
part_of_bounds-Le parse (b ∷ bounds) r h =
    let (lo, _, h') = >>=-eq-ok (parse (trim_space b)) _ h in
    let (hi, _, h'') = >>=-eq-ok (upper_bound parse lo bounds) (ordered_range lo) h' in
    ordered_range-Le lo hi r h''

pub parse_parts-Le :
    (parse : Text → Result ParseError Number) (parts : List Text) (rs : YangRange)
    → parse_parts parse parts ≡ ok rs
    → All (λ r. Le r.min r.max) rs
unfolding parse_parts
parse_parts-Le parse [] rs h = subst (All (λ r. Le r.min r.max)) {x = []} (ok-injective h) tt
parse_parts-Le parse (part ∷ parts) rs h =
    let (r, e, h') =
      >>=-eq-ok (part_of_bounds parse (split_twice b'.' part))
        (λ range. parse_parts parse parts >>= λ out. ok (range ∷ out)) h in
    let (out, e', h'') = >>=-eq-ok (parse_parts parse parts) (λ out. ok (r ∷ out)) h' in
    subst (All (λ r. Le r.min r.max)) {x = r ∷ out} (ok-injective h'')
      (part_of_bounds-Le parse (split_twice b'.' part) r e, parse_parts-Le parse parts out e')

checks-ok :
    (c : Bool) (v : Verdict) (out out' : YangRange)
    → (if c then validated out v else err not_within) ≡ ok out'
    → (out ≡ out') × (c ≡ true) × (v ≡ fine)
unfolding validated
checks-ok true fine out out' h = (ok-injective h, refl, refl)
checks-ok true (bad e) out out' h = absurd (cc)
checks-ok false v out out' h = absurd (cc)

-- The checks at the end of `parseChildRanges`, when they pass.
child_ranges-ok :
    (r parts out : YangRange)
    → child_ranges r parts ≡ ok out
    → (coalesce_ranges (sort parts) ≡ out)
      × (contains r (coalesce_ranges (sort parts)) ≡ true)
      × (validate (coalesce_ranges (sort parts)) ≡ fine)
child_ranges-ok r parts out h =
    checks-ok (contains r (coalesce_ranges (sort parts))) (validate (coalesce_ranges (sort parts)))
      (coalesce_ranges (sort parts)) out (unfold child_ranges in h)

-- An accepted text has parts that were read, and the checks behind them passed.
parse_child_ranges-ok :
    (r : YangRange) (s : Text) (decimal : Bool) (fd : ℕ) (out : YangRange)
    → parse_child_ranges r s decimal fd ≡ ok out
    → (parts : YangRange) × (parse_parts (parse_number r decimal fd) (split b'|' s) ≡ ok parts)
      × (child_ranges r parts ≡ ok out)
unfolding parse_child_ranges
parse_child_ranges-ok r s decimal fd out h =
    >>=-eq-ok (parse_parts (parse_number r decimal fd) (split b'|' s)) (child_ranges r) h

-- Whatever text `parseChildRanges` accepts, the ranges that it returns are valid.
pub parse_child_ranges-IsValid :
    (r : YangRange) (s : Text) (decimal : Bool) (fd : ℕ) (out : YangRange)
    → parse_child_ranges r s decimal fd ≡ ok out
    → IsValid out
parse_child_ranges-IsValid r s decimal fd out h =
    let (parts, _, h') = parse_child_ranges-ok r s decimal fd out h in
    let (e, _, v) = child_ranges-ok r parts out h' in
    subst IsValid {x = coalesce_ranges (sort parts)} e
      ((validate_iff (coalesce_ranges (sort parts))).0 v)

-- A restriction of a type with ranges permits only what the type permits.
pub parse_child_ranges-Permits :
    (a : YRange) (r : YangRange) (s : Text) (decimal : Bool) (fd : ℕ) (out : YangRange) (x : Number)
    → parse_child_ranges (a ∷ r) s decimal fd ≡ ok out
    → Permits out x
    → Permits (a ∷ r) x
parse_child_ranges-Permits a r s decimal fd out x h p =
    let (parts, _, h') = parse_child_ranges-ok (a ∷ r) s decimal fd out h in
    let (e, c, _) = child_ranges-ok (a ∷ r) parts out h' in
    contains-Permits a r (coalesce_ranges (sort parts)) x c
      (subst (λ o. Permits o x) {x = out} (sym e) p)

-- With parts whose upper ends have a successor of their width, a text with no parent is accepted as soon
-- as its parts are, and the result permits exactly what the parts permit.
pub child_ranges-top :
    (k : ℕ) (parts : YangRange)
    → All (λ r. Le r.min r.max) parts
    → All (HasNext k) parts
    → (out : YangRange) × (child_ranges [] parts ≡ ok out)
      × ((x : Number) → x.fraction_digits ≡ k → Permits out x ↔ Permits parts x)
child_ranges-top k parts v n = (coalesce_ranges (sort parts), accepted, same)
  where
    clean : IsValid (coalesce_ranges (sort parts)) × IsSpaced (coalesce_ranges (sort parts))
    clean =
        coalesce_ranges-Clean k (sort parts) (sort-IsAscending parts v)
          (All-sort (HasNext k) parts n)

    accepted : child_ranges [] parts ≡ ok (coalesce_ranges (sort parts))
    accepted =
        unfold child_ranges contains validated in
        rw ((validate_iff (coalesce_ranges (sort parts))).1 clean.0)

    same :
        (x : Number)
        → x.fraction_digits ≡ k
        → Permits (coalesce_ranges (sort parts)) x ↔ Permits parts x
    same x e =
        let c =
          coalesce_ranges-Permits k x (sort parts) e (sort-IsAscending parts v)
            (All-sort (HasNext k) parts n) in
        let t = sort-Permits x parts in (λ p. t.0 (c.0 p), λ p. c.1 (t.1 p))
