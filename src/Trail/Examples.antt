-- ===== src/Trail/Examples.antt =====
-- Backtracking in src/solver.rs on a concrete search.
use satrap.Prelude.{zero, suc, true, false, none, some, List, [], ◌∷◌, ◌≡◌, refl, arith}
use satrap.Lit.{var, is_positive}
use satrap.Elimination.{unassigned, truth, falsity, value_of}
use satrap.Trail.{Search, new_level, assign, enqueue, enqueue_on, cancel_until}
use satrap.Trail.Undo.{
  Step, decide, put, propagated, step, run, IsClean, Restores, cancel_until-run,
}

-- The first of three variables is false at the root.
abbrev root : Search
root = record {
  assignment = record {
    assignments = falsity ∷ unassigned ∷ unassigned ∷ [];
    levels = 0 ∷ 0 ∷ 0 ∷ [];
    reasons = none ∷ none ∷ none ∷ [];
    trail = 1 ∷ [];
  };
  trail_limits = [];
  phase = false ∷ true ∷ true ∷ [];
  best_phase = false ∷ false ∷ false ∷ [];
  best_assigned = 0;
  propagation_head = 1;
  systematic_rephasing = true;
}

abbrev steps : List Step
steps =
    put true 2 none
    ∷ propagated 2
    ∷ decide
    ∷ put true 5 (some 7)
    ∷ put true 4 none
    ∷ propagated 3
    ∷ []

searched : (run steps (new_level root)).assignment ≡ record {
  assignments = falsity ∷ truth ∷ falsity ∷ [];
  levels = 0 ∷ 1 ∷ 2 ∷ [];
  reasons = none ∷ none ∷ some 7 ∷ [];
  trail = 5 ∷ 2 ∷ 1 ∷ [];
}
unfolding run step new_level enqueue enqueue_on assign value_of var is_positive
searched = refl

root-IsClean : IsClean root.assignment
root-IsClean zero h = (refl, refl)
root-IsClean (suc zero) h = (refl, refl)
root-IsClean (suc (suc zero)) h = (refl, refl)
root-IsClean (suc (suc (suc v))) h = (refl, refl)

cancel_until-run_example : Restores root (cancel_until true 0 (run steps (new_level root)))
unfolding var
cancel_until-run_example =
    cancel_until-run root steps true root-IsClean
      (omega arith, (tt, (tt, (omega arith, (omega arith, (tt, tt))))))
