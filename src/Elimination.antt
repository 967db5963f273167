-- ===== src/Elimination.antt =====
-- Bounded variable elimination of src/solver.rs: `elimination_resolvent`, the pair loop of
-- `eliminate_variables`, and `extend_model`, which gives an eliminated variable its value.
-- A clause reference is the clause's literals here, `clause_literals(reference)`.
pub mod Values
pub mod Resolvent
pub mod PairLoop
pub mod Requirement
pub mod Extension
pub mod Correct
pub mod Examples
use satrap.Prelude.{
  ℕ, zero, suc, ◌+◌, ◌*◌, ◌^◌, ◌-◌, Bool, true, false, not, ◌&&◌, ◌||◌, List, [], ◌∷◌, ◌++◌, Option,
  none, some, ◌==◌, ltb, if◌then◌else◌, beq, any, get_or, set, length, min, ◌>>=◌,
}
use satrap.Lit.{Var, Lit, var, is_positive}
use satrap.Clause.{normalize}

-- An entry of `assignments`: the constants UNASSIGNED, TRUE and FALSE.
pub data Value : Type 0 where
  unassigned truth falsity : Value

-- `-value`
abbrev flip : Value → Value
flip unassigned = unassigned
flip truth = falsity
flip falsity = truth

-- `value_of`
unfoldable pub value_of : List Value → Lit → Value
value_of assignments l =
    let value = get_or assignments (var l) unassigned in if is_positive l then value else flip value

-- The literals that one clause adds to the resolvent; `none` at a literal that is true.
gather : List Value → Var → List Lit → List Lit → Option (List Lit)
gather assignments v [] resolvent = some resolvent
gather assignments v (l ∷ ls) resolvent =
    let skip = gather assignments v ls resolvent in
    let push = gather assignments v ls (resolvent ++ l ∷ []) in
    if var l == v
    then skip
    else elim (value_of assignments l) [ truth ↦ none | falsity ↦ skip | unassigned ↦ push ]

unfoldable pub elimination_resolvent : List Value → List Lit → List Lit → Var → Option (List Lit)
unfolding gather
elimination_resolvent assignments positive negative v = do
  first ← gather assignments v positive []
  both ← gather assignments v negative first
  normalize both

abbrev pub u64_max : ℕ
u64_max = 2 ^ 64 - 1

-- u64 `saturating_add`; the lengths are below 2^64.
abbrev pub saturating_add : ℕ → ℕ → ℕ
saturating_add a b = min (a + b) u64_max

abbrev pub occurrence_limit : ℕ
occurrence_limit = 100

abbrev pub resolvent_length_limit : ℕ
resolvent_length_limit = 100

-- The pair loop ends by `exhausted = true`, by `rejected = true`, or with
-- `stats.elimination_literal_touches` and the resolvents.
pub data Pairs : Type 0 where
  exhausted : ℕ → Pairs
  rejected : ℕ → Pairs
  resolved : ℕ → List (List Lit) → Pairs

-- Both `break 'pairs` leave both loops.
abbrev and_then : Pairs → (ℕ → List (List Lit) → Pairs) → Pairs
and_then (exhausted touches) go = exhausted touches
and_then (rejected touches) go = rejected touches
and_then (resolved touches resolvents) go = go touches resolvents

abbrev keep_resolvent : ℕ → Option (List Lit) → ℕ → List (List Lit) → Pairs
keep_resolvent removed_count none touches resolvents = resolved touches resolvents
keep_resolvent removed_count (some resolvent) touches resolvents =
    let more = resolvents ++ resolvent ∷ [] in
    if ltb resolvent_length_limit (length resolvent)
    then rejected touches
    else if ltb removed_count (length more)
    then rejected touches
    else resolved touches more

module _ (assignments : List Value) (v : Var) (budget removed_count : ℕ) where
  -- One round of the inner loop.
  try_pair : List Lit → List Lit → ℕ → List (List Lit) → Pairs
  try_pair positive negative touches resolvents =
      let total = saturating_add touches (saturating_add (length positive) (length negative)) in
      if ltb budget total
      then exhausted touches
      else keep_resolvent removed_count (elimination_resolvent assignments positive negative v)
          total resolvents

  try_clause : List Lit → List (List Lit) → ℕ → List (List Lit) → Pairs
  try_clause positive [] touches resolvents = resolved touches resolvents
  try_clause positive (n ∷ negatives) touches resolvents =
      and_then (try_pair positive n touches resolvents) (try_clause positive negatives)

  unfoldable pub resolve_pairs : List (List Lit) → List (List Lit) → ℕ → List (List Lit) → Pairs
  unfolding try_clause try_pair
  resolve_pairs [] negatives touches resolvents = resolved touches resolvents
  resolve_pairs (p ∷ positives) negatives touches resolvents =
      and_then (try_clause p negatives touches resolvents) (resolve_pairs positives negatives)

-- EliminationRecord
pub record EliminationRecord : Type 0 where
  pub variable : Var
  pub clauses : List (List Lit)

-- What one round of the schedule does: `continue` with no occurrence, `continue` or `break` after
-- `elimination_rejections += 1`, or the elimination with its resolvents and its record.
pub data Attempt : Type 0 where
  absent : Attempt
  refused : ℕ → Attempt
  out_of_budget : ℕ → Attempt
  eliminated : ℕ → List (List Lit) → EliminationRecord → Attempt

abbrev is_empty {ℓ} : {A : Type ℓ} → List A → Bool
is_empty [] = true
is_empty (x ∷ xs) = false

abbrev conclude : Var → List (List Lit) → Pairs → Attempt
conclude v removed (exhausted touches) = out_of_budget touches
conclude v removed (rejected touches) = refused touches
conclude v removed (resolved touches resolvents) =
    eliminated touches resolvents (record { variable = v; clauses = removed })

unfoldable pub attempt_elimination :
    List Value → Var → ℕ → List (List Lit) → List (List Lit) → ℕ → Attempt
attempt_elimination assignments v budget positive negative touches =
    let removed_count = length positive + length negative in
    if removed_count == 0
    then absent
    else if not (is_empty positive) && not (is_empty negative) && ltb occurrence_limit removed_count
    then refused touches
    else conclude v (positive ++ negative)
        (resolve_pairs assignments v budget removed_count positive negative touches [])

-- The loop over one recorded clause: the last literal of the variable, and whether another
-- literal is true.
scan : List Bool → Var → List Lit → Option Lit → Bool → Option Lit × Bool
scan values v [] pivot satisfied = (pivot, satisfied)
scan values v (l ∷ ls) pivot satisfied =
    let here = var l == v in
    scan values v ls (if here then some l else pivot)
      (if here then satisfied else beq (get_or values (var l) false) (is_positive l) || satisfied)

-- `none` is a panic: of `expect` at a clause with no pivot, or of `assert_eq!`.
abbrev require_value : Bool → Option Bool → Option (Option Bool)
require_value value none = some (some value)
require_value value (some previous) = if beq previous value then some (some value) else none

abbrev require : Option Lit × Bool → Option Bool → Option (Option Bool)
require (pivot, true) required = some required
require (none, false) required = none
require (some pivot, false) required = require_value (is_positive pivot) required

pub requirement : List Bool → Var → List (List Lit) → Option Bool → Option (Option Bool)
unfolding scan
requirement values v [] required = some required
requirement values v (c ∷ cs) required =
    require (scan values v c none false) required >>= requirement values v cs

abbrev write_value : List Bool → Var → Option Bool → List Bool
write_value values v none = values
write_value values v (some value) = set values v value

-- One record of `extend_model`.
unfoldable pub extend_record : List Bool → EliminationRecord → Option (List Bool)
unfolding requirement
extend_record values r = do
  required ← requirement values r.variable r.clauses none
  some (write_value values r.variable required)

-- `for record in self.elimination_records.iter().rev()`
unfoldable pub extend_model : List Bool → List EliminationRecord → Option (List Bool)
unfolding extend_record
extend_model values [] = some values
extend_model values (r ∷ records) = do later ← extend_model values records; extend_record later r
