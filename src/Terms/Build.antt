-- ===== src/Terms/Build.antt =====
-- The Boolean constructors of src/smt/term.rs, which simplify before they make a node.
use satrap.Prelude.{
  ℕ, Bool, true, false, not, ◌||◌, Option, none, some, List, [], ◌∷◌, ◌++◌, ◌==◌, leb, beq,
  if◌then◌else◌,
}
use satrap.Terms.{
  boolean, TermKind, bool_, not_of, and_of, or_of, xor_of, iff_of, Action, ◌>>=◌, pure,
  bool_constant, intern, node_at, require_bool,
}

-- What a match looks for in a kind.
abbrev pub as_bool : TermKind → Option Bool
as_bool (bool_ b) = some b
as_bool _ = none

abbrev pub as_not : TermKind → Option ℕ
as_not (not_of inner) = some inner
as_not _ = none

unfoldable pub not_ : ℕ → Action ℕ
unfolding require_bool intern
not_ t = do
  _ ← require_bool t
  n ← node_at t
  elim (as_bool n.kind) [
    | some value ↦ pure (bool_constant (not value))
    | none ↦ elim (as_not n.kind) [ some inner ↦ pure inner | none ↦ intern boolean (not_of t) ]
  ]

-- An item of a junction: a constant that decides it, or the terms that it stands for.
pub data Item : Type 0 where
  decides : Bool → Item
  stands_for : List ℕ → Item

unfoldable pub item : Bool → Bool → ℕ → TermKind → Item
item identity conjunction t (bool_ value) =
    if beq value identity then stands_for [] else decides value
item identity true t (and_of nested) = stands_for nested
item identity false t (or_of nested) = stands_for nested
item identity conjunction t _ = stands_for (t ∷ [])

unfoldable pub flatten : Bool → Bool → List ℕ → List ℕ → Action Item
unfolding require_bool item
flatten identity conjunction [] flattened = pure (stands_for flattened)
flatten identity conjunction (t ∷ ts) flattened = do
  _ ← require_bool t
  n ← node_at t
  elim (item identity conjunction t n.kind) [
    | decides value ↦ pure (decides value)
    | stands_for nested ↦ flatten identity conjunction ts (flattened ++ nested)
  ]

abbrev pub place : ℕ → List ℕ → List ℕ
place t [] = t ∷ []
place t (x ∷ xs) = let rest = place t xs in if leb t x then t ∷ x ∷ xs else x ∷ rest

-- `sort_unstable`: equal terms are the same, so there is one result.
abbrev pub sort : List ℕ → List ℕ
sort [] = []
sort (x ∷ xs) = place x (sort xs)

abbrev pub put : ℕ → List ℕ → List ℕ
put t [] = t ∷ []
put t (x ∷ xs) = if t == x then x ∷ xs else t ∷ x ∷ xs

abbrev pub dedup : List ℕ → List ℕ
dedup [] = []
dedup (x ∷ xs) = put x (dedup xs)

abbrev pub contains : ℕ → List ℕ → Bool
contains t [] = false
contains t (x ∷ xs) = (t == x) || contains t xs

abbrev pub negation_in : List ℕ → TermKind → Bool
negation_in members (not_of inner) = contains inner members
negation_in members _ = false

-- Is one of the terms the negation of a member?
unfoldable pub has_complement : List ℕ → List ℕ → Action Bool
has_complement members [] = pure false
has_complement members (t ∷ ts) = do
  n ← node_at t
  if negation_in members n.kind then pure true else has_complement members ts

unfoldable pub junction_of : Bool → Bool → List ℕ → Action ℕ
unfolding has_complement intern
junction_of identity conjunction flattened = do
  complement ← has_complement flattened flattened
  if complement then pure (bool_constant (not identity)) else elim flattened [
    | [] ↦ pure (bool_constant identity)
    | t ∷ [] ↦ pure t
    | t ∷ u ∷ ts ↦ intern boolean (if conjunction then and_of (t ∷ u ∷ ts) else or_of (t ∷ u ∷ ts))
  ]

unfoldable pub junction : List ℕ → Bool → Bool → Action ℕ
unfolding flatten junction_of
junction terms identity conjunction = do
  gathered ← flatten identity conjunction terms []
  elim gathered [
    | decides value ↦ pure (bool_constant value)
    | stands_for flattened ↦ junction_of identity conjunction (dedup (sort flattened))
  ]

unfoldable pub and_ : List ℕ → Action ℕ
unfolding junction
and_ terms = junction terms true true

unfoldable pub or_ : List ℕ → Action ℕ
unfolding junction
or_ terms = junction terms false false

abbrev pub is_negation_of : TermKind → ℕ → Bool
is_negation_of (not_of inner) t = inner == t
is_negation_of _ t = false

unfoldable pub are_complements : ℕ → ℕ → Action Bool
are_complements left right = do
  l ← node_at left
  r ← node_at right
  pure (is_negation_of l.kind right || is_negation_of r.kind left)

abbrev pub ordered_pair : ℕ → ℕ → ℕ × ℕ
ordered_pair left right = if leb left right then (left, right) else (right, left)

-- The match of `xor` (`unit` is false) and of `iff` (`unit` is true) on constants.
unfoldable pub parity_of : Bool → (ℕ → ℕ → TermKind) → ℕ → ℕ → Option Bool → Option Bool → Action ℕ
unfolding not_ intern
parity_of unit make left right (some l) r =
    if beq l unit
    then pure right
    else elim r [ some b ↦ if beq b unit then pure left else not_ right | none ↦ not_ right ]
parity_of unit make left right none (some r) = if beq r unit then pure left else not_ left
parity_of unit make left right none none =
    let pair = ordered_pair left right in intern boolean (make pair.0 pair.1)

-- `xor` and `iff`, which differ in the constant that they give back the other operand for.
unfoldable pub parity : Bool → (ℕ → ℕ → TermKind) → ℕ → ℕ → Action ℕ
unfolding require_bool are_complements parity_of
parity unit make left right = do
  _ ← require_bool left
  _ ← require_bool right
  if left == right then pure (bool_constant unit) else do
    complements ← are_complements left right
    if complements then pure (bool_constant (not unit)) else do
      l ← node_at left
      r ← node_at right
      parity_of unit make left right (as_bool l.kind) (as_bool r.kind)

unfoldable pub xor : ℕ → ℕ → Action ℕ
unfolding parity
xor = parity false xor_of

unfoldable pub iff : ℕ → ℕ → Action ℕ
unfolding parity
iff = parity true iff_of
