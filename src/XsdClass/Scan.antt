-- ===== src/XsdClass/Scan.antt =====
-- go/internal/xsdregex/pattern.go: the scans that find where a class ends and where its subtraction
-- stands. The loops read the runes from the class's `[` on, an index counts from there, and `skip`
-- tells how many runes the loop has yet to jump over.
use cambium.XsdClass.Atom.{skip_escape, starts_posix}
use cambium.Prelude.{
  ℕ, zero, suc, ◌+◌, ◌-◌, Bool, true, false, not, ◌&&◌, Option, none, some, [], ◌∷◌, ◌==◌,
  if◌then◌else◌,
}
use mathlib.Core.Option
use cambium.Strconv.{Text}

-- `marker`, `subStart` and `subEnd`, which are -1 at first, and `depth`.
pub record ClassScan : Type 0 where
  pub marker : Option ℕ
  pub sub_start : Option ℕ
  pub sub_end : Option ℕ
  pub depth : ℕ

unfoldable pub is_some : Option ℕ → Bool
is_some none = false
is_some (some i) = true

-- The case `[`.
unfoldable pub bracket_opened : ℕ → ClassScan → ClassScan
unfolding is_some
bracket_opened i s = record s {
  depth = s.depth + 1;
  sub_start =
      if (s.depth + 1 == 2) && (is_some s.marker && not (is_some s.sub_start))
      then some i
      else s.sub_start;
}

-- The case `]`, up to the test of the depth.
unfoldable pub bracket_closed : ℕ → ClassScan → ClassScan
unfolding is_some
bracket_closed i s = record s {
  depth = s.depth - 1;
  sub_end =
      if (s.depth == 2) && (is_some s.marker && not (is_some s.sub_end)) then some i else s.sub_end;
}

unfoldable pub next_opens : Text → Bool
next_opens [] = false
next_opens (c ∷ rest) = c == b'['

-- The case `-`; `rest` are the runes behind it.
unfoldable pub dashed : ℕ → ℕ → Text → ClassScan → ClassScan
unfolding starts_posix is_some next_opens
dashed positive_start i rest s =
    if (i == positive_start) && starts_posix rest
    then s
    else if (s.depth == 1) && (next_opens rest && not (is_some s.marker))
    then record s { marker = some i }
    else s

-- One round of a loop: it ends at this rune, or goes on and jumps over some.
pub data Round (S : Type 0) : Type 0 where
  ends_here : S → Round S
  jumps : ℕ → S → Round S

unfoldable pub scan_round : ℕ → ℕ → ℕ → Text → ClassScan → Round ClassScan
unfolding skip_escape bracket_opened bracket_closed dashed
scan_round positive_start i c rest s =
    if c == b'\\'
    then jumps (skip_escape rest) s
    else if c == b'['
    then jumps 0 (bracket_opened i s)
    else if c == b']'
    then (if s.depth == 1 then ends_here (bracket_closed i s) else jumps 0 (bracket_closed i s))
    else if c == b'-'
    then jumps 0 (dashed positive_start i rest s)
    else jumps 0 s

-- Either loop, by what it does with the rune at an index and those behind: the state at the `]` that
-- closes the class, and its index.
unfoldable pub scan :
    {S : Type 0} → (ℕ → ℕ → Text → S → Round S) → (skip i : ℕ) → Text → S → Option (S × ℕ)
scan round skip i [] s = none
scan round (suc skip) i (c ∷ rest) s = scan round skip (suc i) rest s
scan round zero i (c ∷ rest) s = elim (round i c rest s) [
  | ends_here s' ↦ some (s', i)
  | jumps skip s' ↦ scan round skip (suc i) rest s'
]

abbrev pub new_scan : ClassScan
new_scan = record { marker = none; sub_start = none; sub_end = none; depth = 0 }

unfoldable pub positive_start : Text → ℕ
positive_start (a ∷ c ∷ rest) = if c == b'^' then 2 else 1
positive_start _ = 1

-- What `findClassSubtraction` returns where its last result is true.
pub record Subtraction : Type 0 where
  pub marker : ℕ
  pub sub_start : ℕ
  pub sub_end : ℕ
  pub end : ℕ

unfoldable pub subtraction_of : ClassScan → ℕ → Option Subtraction
subtraction_of s end = elim s.marker [
  | none ↦ none
  | some m ↦ elim s.sub_start [
    | none ↦ none
    | some a ↦ elim s.sub_end [
      | none ↦ none
      | some b ↦ some (record { marker = m; sub_start = a; sub_end = b; end = end })
    ]
  ]
]

-- `findClassSubtraction` on the runes from a `[` on.
unfoldable pub find_class_subtraction : Text → Option Subtraction
unfolding scan scan_round positive_start subtraction_of
find_class_subtraction runes = elim (scan (scan_round (positive_start runes)) 0 0 runes new_scan) [
  | none ↦ none
  | some (s, end) ↦ subtraction_of s end
]

unfoldable pub end_round : ℕ → ℕ → Text → ℕ → Round ℕ
unfolding skip_escape
end_round i c rest depth =
    if c == b'\\'
    then jumps (skip_escape rest) depth
    else if c == b'['
    then jumps 0 (depth + 1)
    else if c == b']'
    then (if depth == 1 then ends_here 0 else jumps 0 (depth - 1))
    else jumps 0 depth

-- `findClassEnd` on the runes from a `[` on.
unfoldable pub find_class_end : Text → Option ℕ
unfolding scan end_round
find_class_end runes = Option.map (λ r. r.1) (scan end_round 0 0 runes 0)
