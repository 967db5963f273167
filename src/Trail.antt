-- ===== src/Trail.antt =====
-- The trail of src/solver.rs: decision levels, assignments and backtracking. The decision heuristics
-- are not modelled: what `enqueue_internal` and `cancel_until_internal` tell them is left out.
pub mod Undo
pub mod Examples
use satrap.Prelude.{
  take, ℕ, zero, suc, ◌+◌, ◌-◌, min, Bool, true, false, not, ◌&&◌, ◌||◌, Option, none, some, List,
  [], ◌∷◌, ◌++◌, leb, length, get_or, set, if◌then◌else◌,
}
use satrap.Lit.{Lit, var, is_positive}
use satrap.Elimination.{Value, unassigned, truth, falsity, value_of}
use satrap.Reference.{ClauseRef}

-- What backtracking restores. The trail is held backwards: the newest literal is the head.
pub record Assignment : Type 0 where
  pub assignments : List Value
  pub levels : List ℕ
  pub reasons : List (Option ClauseRef)
  pub trail : List Lit

-- The limits stand in the order of the levels.
pub record Search : Type 0 where
  pub assignment : Assignment
  pub trail_limits : List ℕ
  pub phase : List Bool
  pub best_phase : List Bool
  pub best_assigned : ℕ
  pub propagation_head : ℕ
  pub systematic_rephasing : Bool

abbrev pub decision_level : Search → ℕ
decision_level s = length s.trail_limits

-- `self.trail_limits.push(self.trail.len())`
unfoldable pub new_level : Search → Search
new_level s = record s { trail_limits = s.trail_limits ++ length s.assignment.trail ∷ [] }

-- The assignment of a literal that has no value.
unfoldable pub assign : Lit → Option ClauseRef → ℕ → Assignment → Assignment
assign l reason level a = record {
  assignments = set a.assignments (var l) (if is_positive l then truth else falsity);
  levels = set a.levels (var l) level;
  reasons = set a.reasons (var l) reason;
  trail = l ∷ a.trail;
}

-- What `enqueue_internal` does at a value of the literal.
unfoldable pub enqueue_on : Value → Bool → Lit → Option ClauseRef → Search → Bool × Search
unfolding assign
enqueue_on truth save_phase l reason s = (true, s)
enqueue_on falsity save_phase l reason s = (false, s)
enqueue_on unassigned save_phase l reason s = (
  true,
  record s {
    assignment = assign l reason (decision_level s) s.assignment;
    phase = if save_phase then set s.phase (var l) (is_positive l) else s.phase;
  },
)

-- `enqueue_internal`
unfoldable pub enqueue : Bool → Lit → Option ClauseRef → Search → Bool × Search
unfolding enqueue_on
enqueue save_phase l reason s =
    enqueue_on (value_of s.assignment.assignments l) save_phase l reason s

unfoldable pub record_best_phase : Search → Search
record_best_phase s =
    if not s.systematic_rephasing || leb (length s.assignment.trail) s.best_assigned
    then s
    else record s { best_assigned = length s.assignment.trail; best_phase = s.phase }

-- One round of the loop of `cancel_until_internal`.
unfoldable pub pop : Assignment → List Lit → Lit → Assignment
pop a rest l = record {
  assignments = set a.assignments (var l) unassigned;
  levels = set a.levels (var l) 0;
  reasons = set a.reasons (var l) none;
  trail = rest;
}

abbrev pub popped : Assignment → List Lit → Assignment
popped a [] = a
popped a (l ∷ rest) = pop a rest l

-- The loop, over so many literals.
unfoldable pub unwind : ℕ → Assignment → Assignment
unfolding pop
unwind zero a = a
unwind (suc n) a = unwind n (popped a a.trail)

-- The limit of a level that is above the target, then the loop and the three truncations.
abbrev pub back_to : ℕ → ℕ → Search → Search
back_to level target s = record s {
  assignment = unwind (length s.assignment.trail - target) s.assignment;
  trail_limits = take level s.trail_limits;
  propagation_head = min s.propagation_head target;
}

-- `cancel_until_internal`
unfoldable pub cancel_until : Bool → ℕ → Search → Search
unfolding record_best_phase unwind
cancel_until best level s =
    if leb (decision_level s) level
    then s
    else back_to level (get_or s.trail_limits level 0) (if best then record_best_phase s else s)
