-- ===== src/Clause/Examples.antt =====
-- The theorems on normalized clauses (src/solver.rs) at concrete clauses.
use satrap.Prelude.{List, [], ◌∷◌, none, some, true, ◌≡◌, ◌↔◌, refl}
use satrap.Lit.{Lit}
use satrap.Clause.{Valuation, satisfies, normalize}
use satrap.Clause.Meaning.{normalize-satisfies}
use satrap.Clause.Sorted.{IsAscending, normalize-IsAscending}
use satrap.Clause.Normal.{normalize-none_iff}

abbrev repeated : List Lit
repeated = 5 ∷ 2 ∷ 5 ∷ 0 ∷ []

abbrev all_true : Valuation
all_true v = true

normalized : normalize repeated ≡ some (0 ∷ 2 ∷ 5 ∷ [])
unfolding normalize
normalized = refl

dropped : normalize (3 ∷ 6 ∷ 2 ∷ []) ≡ none
unfolding normalize
dropped = refl

normalize-satisfies_example : satisfies all_true (0 ∷ 2 ∷ 5 ∷ []) ≡ satisfies all_true repeated
normalize-satisfies_example = normalize-satisfies all_true repeated (0 ∷ 2 ∷ 5 ∷ []) normalized

normalize-IsAscending_example : IsAscending (0 ∷ 2 ∷ 5 ∷ [])
normalize-IsAscending_example = normalize-IsAscending repeated (0 ∷ 2 ∷ 5 ∷ []) normalized

normalize-none_iff_example :
    (normalize (3 ∷ 6 ∷ 2 ∷ []) ≡ none) ↔ ((m : Valuation) → satisfies m (3 ∷ 6 ∷ 2 ∷ []) ≡ true)
normalize-none_iff_example = normalize-none_iff (3 ∷ 6 ∷ 2 ∷ [])
