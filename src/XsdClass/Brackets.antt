-- ===== src/XsdClass/Brackets.antt =====
-- go/internal/xsdregex/pattern.go: what the two scans find in a printed class.
use cambium.XsdClass.Contents.{Headed, items-Headed, is_head}
use cambium.XsdClass.Syntax.{
  is_plain, print_items, IsItem, Item, print_group, without, group, IsClass, ClassExpr, print_body,
}
use cambium.XsdClass.Passing.{
  end_round-Ignores, Passes-append, scan_round-Ignores, group-Passes, scan-jumps, Passes,
}
use cambium.XsdClass.{GoUnicode}
use cambium.XsdClass.Scan.{
  end_round, find_class_end, find_class_subtraction, positive_start, subtraction_of, Subtraction,
  Round, ends_here, bracket_closed, scan, next_opens, new_scan, jumps, is_some, dashed,
  bracket_opened, scan_round, ClassScan,
}
use cambium.Prelude.{
  true, if◌then◌else◌, All, List, Bool, length-append, append_assoc, ap, ◌∙◌, length, ◌+◌, [], ◌++◌,
  false, refl, ◌==◌, ◌∷◌, none, ℕ, suc, ◌≡◌, Option, some, arith,
}
use cambium.Strconv.{Text}

-- The scan inside the class that is subtracted.
abbrev nested : (m a : ℕ) → Option ℕ → ℕ → ClassScan
nested m a b d = record { marker = some m; sub_start = some a; sub_end = b; depth = suc (suc d) }

module _ (go : GoUnicode) (p m a : ℕ) (b : Option ℕ) where
  opens_nested :
      (i d : ℕ) (rest : Text)
      → scan_round p i b'[' rest (nested m a b d) ≡ jumps 0 (nested m a b (suc d))
  unfolding scan_round bracket_opened is_some
  opens_nested i d rest = ground arith

  closes_nested :
      (i d : ℕ) (rest : Text)
      → scan_round p i b']' rest (nested m a b (suc d)) ≡ jumps 0 (nested m a b d)
  unfolding scan_round bracket_closed is_some
  closes_nested i d rest = ground arith

  dash_nested :
      (i d : ℕ) (rest : Text) → scan_round p i b'-' rest (nested m a b d) ≡ jumps 0 (nested m a b d)
  unfolding scan_round dashed is_some
  dash_nested i d rest = ground arith

  bracket-Passes :
      (d : ℕ) (text : Text)
      → Passes (scan_round p) (nested m a b (suc d)) text
      → Passes (scan_round p) (nested m a b d) (b'[' ∷ text ++ b']' ∷ [])
  bracket-Passes d text h i rest =
      let outer = nested m a b d in
      let inner = nested m a b (suc d) in
      scan-jumps (scan_round p) b'[' [] ((text ++ b']' ∷ []) ++ rest) i outer inner
        (opens_nested i d ((text ++ b']' ∷ []) ++ rest))
      ∙ ap (λ t. scan (scan_round p) 0 (i + 1) t inner) (append_assoc text (b']' ∷ []) rest)
      ∙ h (i + 1) (b']' ∷ rest)
      ∙ scan-jumps (scan_round p) b']' [] rest (i + 1 + length text) inner outer
          (closes_nested (i + 1 + length text) d rest)
      ∙ ap (λ k. scan (scan_round p) 0 k rest outer) (omega (arith, length-append text (b']' ∷ [])))

  body-Passes :
      (e : ClassExpr) (d : ℕ) → IsClass go e → Passes (scan_round p) (nested m a b d) (print_body e)
  unfolding print_body print_group
  body-Passes (group negated items) d h =
      group-Passes (scan_round p) (nested m a b d) (scan_round-Ignores p (nested m a b d)) go
        negated items h.1
  body-Passes (without negated items e) d h =
      let s = nested m a b d in
      Passes-append (scan_round p) s (print_group negated items)
        (b'-' ∷ b'[' ∷ print_body e ++ b']' ∷ [])
        (group-Passes (scan_round p) s (scan_round-Ignores p s) go negated items h.1)
        (Passes-append (scan_round p) s (b'-' ∷ []) (b'[' ∷ print_body e ++ b']' ∷ [])
          (λ i rest. scan-jumps (scan_round p) b'-' [] rest i s s (dash_nested i d rest))
          (bracket-Passes d (print_body e) (body-Passes e (suc d) h.2)))

-- The scan inside the outer brackets, before the dash.
abbrev inside : ClassScan
inside = record { marker = none; sub_start = none; sub_end = none; depth = 1 }

opens_first : (p : ℕ) (rest : Text) → scan_round p 0 b'[' rest new_scan ≡ jumps 0 inside
unfolding scan_round bracket_opened is_some
opens_first p rest = refl

marks :
    (p i : ℕ) (rest : Text)
    → (i == p) ≡ false
    → scan_round p i b'-' (b'[' ∷ rest) inside ≡ jumps 0 (record inside { marker = some i })
unfolding scan_round dashed is_some next_opens
marks p i rest h = ground (arith, h)

opens_second :
    (p m i : ℕ) (rest : Text)
    → scan_round p i b'[' rest (record inside { marker = some m }) ≡ jumps 0 (nested m i none 0)
unfolding scan_round bracket_opened is_some
opens_second p m i rest = refl

closes_second :
    (p m a i : ℕ) (rest : Text)
    → scan_round p i b']' rest (nested m a none 0)
      ≡ jumps 0 (record { marker = some m; sub_start = some a; sub_end = some i; depth = 1 })
unfolding scan_round bracket_closed is_some
closes_second p m a i rest = refl

closes_first :
    (p i : ℕ) (rest : Text) (s : ClassScan)
    → s.depth ≡ 1
    → scan_round p i b']' rest s ≡ ends_here (bracket_closed i s)
unfolding scan_round
closes_first p i rest s h = rw h refl

pub scan-ends :
    {S : Type 0} (round : ℕ → ℕ → Text → S → Round S) (c i : ℕ) (rest : Text) (s s' : S)
    → round i c rest s ≡ ends_here s'
    → scan round 0 i (c ∷ rest) s ≡ some (s', i)
unfolding scan
scan-ends round c i rest s s' h = rw (scan, h) refl

-- Behind the group of a class with subtraction: the dash, the other class, the last bracket.
abbrev pub less_tail : ClassExpr → Text → Text
less_tail e rest = b'-' ∷ b'[' ∷ (print_body e ++ (b']' ∷ b']' ∷ rest))

-- What the scan finds, for a group and a body of these lengths.
abbrev pub split_at : ℕ → ℕ → Subtraction
split_at g body = record {
  marker = 1 + g;
  sub_start = 1 + g + 1;
  sub_end = 1 + g + 1 + 1 + body;
  end = 1 + g + 1 + 1 + body + 1;
}

scan_less :
    (go : GoUnicode) (p : ℕ) (g : Text) (e : ClassExpr) (rest : Text)
    → Passes (scan_round p) inside g
    → IsClass go e
    → ((1 + length g) == p) ≡ false
    → (s : ClassScan) × (scan (scan_round p) 0 0 (b'[' ∷ (g ++ less_tail e rest)) new_scan
        ≡ some (s, (split_at (length g) (length (print_body e))).end))
      × (subtraction_of s (split_at (length g) (length (print_body e))).end
          ≡ some (split_at (length g) (length (print_body e))))
unfolding bracket_closed subtraction_of
scan_less go p g e rest passes h ne =
    let r = scan_round p in
    let body = print_body e in
    let m = 1 + length g in
    let s2 : ClassScan = record inside { marker = some m } in
    let s3 : ClassScan = nested m (m + 1) none 0 in
    let z = m + 1 + 1 + length body in
    let s4 : ClassScan = record {
      marker = some m;
      sub_start = some (m + 1);
      sub_end = some z;
      depth = 1;
    } in
    (
      bracket_closed (z + 1) s4,
      scan-jumps r b'[' [] (g ++ less_tail e rest) 0 new_scan inside (opens_first p _)
          ∙ passes 1 (less_tail e rest)
          ∙ scan-jumps r b'-' [] (b'[' ∷ (body ++ (b']' ∷ b']' ∷ rest))) m inside s2
              (marks p m _ ne)
          ∙ scan-jumps r b'[' [] (body ++ (b']' ∷ b']' ∷ rest)) (m + 1) s2 s3
              (opens_second p m (m + 1) _)
          ∙ body-Passes go p m (m + 1) none e 0 h (m + 1 + 1) (b']' ∷ b']' ∷ rest)
          ∙ scan-jumps r b']' [] (b']' ∷ rest) z s3 s4 (closes_second p m (m + 1) z _)
          ∙ scan-ends r b']' (z + 1) rest s4 (bracket_closed (z + 1) s4)
              (closes_first p (z + 1) rest s4 refl),
      refl,
    )

-- The dash of a class with subtraction does not stand where its group begins.
positive_start-items :
    (go : GoUnicode) (negated : Bool) (text rest : Text)
    → Headed text
    → ((1 + length (if negated then b'^' ∷ text else text))
        == positive_start (b'[' ∷ ((if negated then b'^' ∷ text else text) ++ rest)))
      ≡ false
unfolding positive_start is_head is_plain
positive_start-items go true [] rest (c, xs, e, _) = cc
positive_start-items go true (d ∷ text) rest h = ground arith
positive_start-items go false [] rest (c, xs, e, _) = cc
positive_start-items go false (d ∷ text) rest (c, xs, e, head) =
    let same : d ≡ c = cc in
    let other : (d == b'^') ≡ false = ground (arith, same, head) in rw other (ground arith)

positive_start-group :
    (go : GoUnicode) (negated : Bool) (items : List Item) (rest : Text)
    → ¬ (items ≡ [])
    → All (IsItem go) items
    → ((1 + length (print_group negated items))
        == positive_start (b'[' ∷ (print_group negated items ++ rest)))
      ≡ false
unfolding print_group
positive_start-group go negated items rest ne h =
    positive_start-items go negated (print_items items) rest (items-Headed go items ne h)

pub find_class_subtraction-less :
    (go : GoUnicode) (negated : Bool) (items : List Item) (e : ClassExpr) (rest : Text)
    → IsClass go (without negated items e)
    → find_class_subtraction (b'[' ∷ (print_group negated items ++ less_tail e rest))
      ≡ some (split_at (length (print_group negated items)) (length (print_body e)))
unfolding find_class_subtraction
find_class_subtraction-less go negated items e rest h =
    let g = print_group negated items in
    let p = positive_start (b'[' ∷ (g ++ less_tail e rest)) in
    let passes =
      group-Passes (scan_round p) inside (scan_round-Ignores p inside) go negated items h.1 in
    let (s, found, parts) =
      scan_less go p g e rest passes h.2
        (positive_start-group go negated items (less_tail e rest) h.0 h.1) in
    rw (found, find_class_subtraction) parts

-- A class without subtraction has none, and ends at its bracket.
pub find_class_subtraction-group :
    (go : GoUnicode) (negated : Bool) (items : List Item) (rest : Text)
    → All (IsItem go) items
    → find_class_subtraction (b'[' ∷ (print_group negated items ++ (b']' ∷ rest))) ≡ none
unfolding find_class_subtraction subtraction_of bracket_closed
find_class_subtraction-group go negated items rest h =
    let g = print_group negated items in
    let p = positive_start (b'[' ∷ (g ++ (b']' ∷ rest))) in
    let r = scan_round p in
    let found : scan r 0 0 (b'[' ∷ (g ++ (b']' ∷ rest))) new_scan
        ≡ some (bracket_closed (1 + length g) inside, 1 + length g) =
      scan-jumps r b'[' [] (g ++ (b']' ∷ rest)) 0 new_scan inside
        (opens_first p (g ++ (b']' ∷ rest)))
      ∙ group-Passes r inside (scan_round-Ignores p inside) go negated items h 1 (b']' ∷ rest)
      ∙ scan-ends r b']' (1 + length g) rest inside (bracket_closed (1 + length g) inside)
          (closes_first p (1 + length g) rest inside refl) in
    rw (found, find_class_subtraction) refl

pub find_class_end-group :
    (go : GoUnicode) (negated : Bool) (items : List Item) (rest : Text)
    → All (IsItem go) items
    → find_class_end (b'[' ∷ (print_group negated items ++ (b']' ∷ rest)))
      ≡ some (1 + length (print_group negated items))
unfolding find_class_end end_round
find_class_end-group go negated items rest h =
    let g = print_group negated items in
    let found : scan end_round 0 0 (b'[' ∷ (g ++ (b']' ∷ rest))) 0 ≡ some (0, 1 + length g) =
      scan-jumps end_round b'[' [] (g ++ (b']' ∷ rest)) 0 0 1 refl
      ∙ group-Passes end_round 1 (end_round-Ignores 1) go negated items h 1 (b']' ∷ rest)
      ∙ scan-ends end_round b']' (1 + length g) rest 1 0 refl in
    rw (found, find_class_end) refl
