-- ===== src/Elimination/Examples.antt =====
-- The theorems on variable elimination (src/solver.rs) on a formula of two clauses,
-- `x0 ∨ x1` and `¬x0 ∨ x2 ∨ ¬x3`, from which variable 0 is eliminated; x3 is true at the root.
use satrap.Prelude.{
  zero, suc, List, [], ◌∷◌, none, some, Bool, true, false, ◌||◌, ◌≡◌, refl, arith, length,
}
use satrap.Lit.{Lit, var, is_positive}
use satrap.Clause.{valuation, literal_value, satisfies, satisfies_all, normalize}
use satrap.Elimination.{
  Value, unassigned, truth, scan, EliminationRecord, resolved, eliminated, value_of, gather,
  elimination_resolvent, try_pair, try_clause, resolve_pairs, attempt_elimination, requirement,
  extend_record, extend_model,
}
use satrap.Elimination.Values.{Agrees, side}
use satrap.Elimination.Resolvent.{resolvent_value}
use satrap.Elimination.PairLoop.{Within, Covers, resolve_pairs_complete}
use satrap.Elimination.Requirement.{Pivots}
use satrap.Elimination.Correct.{Run, finish, eliminate, extend_model_correct}

abbrev root : List Value
root = unassigned ∷ unassigned ∷ unassigned ∷ truth ∷ []

abbrev with_pos : List Lit
with_pos = 0 ∷ 2 ∷ []

abbrev with_neg : List Lit
with_neg = 1 ∷ 4 ∷ 7 ∷ []

abbrev resolvent : List Lit
resolvent = 2 ∷ 4 ∷ []

abbrev removed : EliminationRecord
removed = record { variable = 0; clauses = with_pos ∷ with_neg ∷ [] }

-- x1 is false and x2 is true; x0 must become true.
abbrev model : List Bool
model = false ∷ false ∷ true ∷ true ∷ []

model-Agrees : Agrees (valuation model) root
model-Agrees zero = tt
model-Agrees (suc zero) = tt
model-Agrees (suc (suc zero)) = tt
model-Agrees (suc (suc (suc zero))) = refl
model-Agrees (suc (suc (suc (suc v)))) = tt

resolved_once : elimination_resolvent root with_pos with_neg 0 ≡ some resolvent
unfolding elimination_resolvent gather normalize var value_of is_positive
resolved_once = refl

pairs_once :
    resolve_pairs root 0 100 2 (with_pos ∷ []) (with_neg ∷ []) 0 [] ≡ resolved 5 (resolvent ∷ [])
unfolding resolve_pairs try_clause try_pair elimination_resolvent gather normalize var value_of
    is_positive
pairs_once = refl

attempted :
    attempt_elimination root 0 100 (with_pos ∷ []) (with_neg ∷ []) 0
    ≡ eliminated 5 (resolvent ∷ []) removed
unfolding attempt_elimination resolve_pairs try_clause try_pair elimination_resolvent gather
    normalize var value_of is_positive
attempted = refl

extended : extend_model model (removed ∷ []) ≡ some (true ∷ false ∷ true ∷ true ∷ [])
unfolding extend_model extend_record requirement scan var is_positive
extended = refl

Pivots-with_pos : Pivots true 0 with_pos
unfolding var is_positive
Pivots-with_pos = (refl, (λ e. refl, (λ e. refl, tt)))

Pivots-with_neg : Pivots false 0 with_neg
unfolding var is_positive
Pivots-with_neg = (refl, (λ e. refl, (λ e. cc, (λ e. cc, tt))))

model_holds : satisfies (valuation model) resolvent ≡ true
unfolding literal_value var is_positive
model_holds = refl

resolvent_value_example :
    ((r : List Lit)
      → elimination_resolvent root with_pos with_neg 0 ≡ some r
      → satisfies (valuation model) r
        ≡ (side (valuation model) 0 with_pos || side (valuation model) 0 with_neg))
    × (elimination_resolvent root with_pos with_neg 0 ≡ none
        → (side (valuation model) 0 with_pos || side (valuation model) 0 with_neg) ≡ true)
resolvent_value_example = resolvent_value (valuation model) root with_pos with_neg 0 model-Agrees

resolve_pairs_complete_example :
    Within 100 2 5 (resolvent ∷ [])
    × (satisfies_all (valuation model) (resolvent ∷ []) ≡ true
        → Covers (valuation model) 0 (with_pos ∷ []) (with_neg ∷ []))
resolve_pairs_complete_example =
    resolve_pairs_complete (valuation model) root 0 100 2 (with_pos ∷ []) (with_neg ∷ []) 0 5
      (resolvent ∷ []) model-Agrees (omega arith) pairs_once

run : Run root (with_pos ∷ with_neg ∷ []) (removed ∷ []) root (resolvent ∷ [])
run =
    eliminate root 0 100 0 5 [] (with_pos ∷ []) (with_neg ∷ []) (resolvent ∷ []) removed attempted
      (omega arith) refl (Pivots-with_pos, tt) (Pivots-with_neg, tt) tt (λ w h. refl)
      (finish root (resolvent ∷ []))

extend_model_correct_example :
    (values' : List Bool) × (extend_model model (removed ∷ []) ≡ some values')
    × (satisfies_all (valuation values') (with_pos ∷ with_neg ∷ []) ≡ true)
    × Agrees (valuation values') root
    × (length values' ≡ length model)
extend_model_correct_example =
    extend_model_correct run model (omega arith, tt) model-Agrees (rw model_holds)
