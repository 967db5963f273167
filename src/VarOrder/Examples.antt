-- ===== src/VarOrder/Examples.antt =====
-- The heap of src/solver.rs on a few variables.
use satrap.Prelude.{
  get_or, ℕ, zero, suc, ◌<◌, false, some, List, [], ◌∷◌, ◌≡◌, ◌≢◌, ◌↔◌, refl, arith,
}
use satrap.VarOrder.{
  VarOrder, no_position, at, position_of, higher_priority, insert, update, pop_max, peek_max,
  sift_up, sift_down, swap, child_of,
}
use satrap.VarOrder.Index.{IsIndexed}
use satrap.VarOrder.Operations.{insert-IsIndexed}
use satrap.VarOrder.Pop.{pop_max-IsIndexed}
use satrap.VarOrder.Priority.{IsHeap}
use satrap.VarOrder.Peek.{peek_max_first}
use satrap.VarOrder.Change.{DiffersAt, update-IsHeap}
use satrap.Lit.{Var}
use satrap.Elimination.{unassigned, truth}
use satrap.VarOrder.Order.{pop_max-IsHeap}

abbrev activity : List ℕ
activity = 5 ∷ 9 ∷ 7 ∷ 9 ∷ []

-- Variable 3 is not in the heap.
abbrev three : VarOrder
three = record { heap = 1 ∷ 0 ∷ 2 ∷ []; positions = 1 ∷ 0 ∷ 2 ∷ no_position ∷ [] }

inserted :
    insert activity 3 three ≡ record { heap = 1 ∷ 3 ∷ 2 ∷ 0 ∷ []; positions = 3 ∷ 0 ∷ 2 ∷ 1 ∷ [] }
unfolding insert sift_up swap higher_priority
inserted = refl

taken :
    pop_max activity three
    ≡ (some 1, record { heap = 2 ∷ 0 ∷ []; positions = 1 ∷ no_position ∷ 0 ∷ no_position ∷ [] })
unfolding pop_max sift_down swap child_of higher_priority
taken = refl

three-IsIndexed : IsIndexed three
three-IsIndexed = record { bound = omega arith; entries = entries; positions = positions }
  where
    entries : (p : ℕ) → p < 3 → (at three p < 4) × (position_of three (at three p) ≡ p)
    entries zero h = (omega arith, refl)
    entries (suc zero) h = (omega arith, refl)
    entries (suc (suc zero)) h = (omega arith, refl)
    entries (suc (suc (suc p))) h = absurd (omega arith)

    positions :
        (v : ℕ)
        → position_of three v ≢ no_position
        → (position_of three v < 3) × (at three (position_of three v) ≡ v)
    positions zero h = (omega arith, refl)
    positions (suc zero) h = (omega arith, refl)
    positions (suc (suc zero)) h = (omega arith, refl)
    positions (suc (suc (suc zero))) h = absurd (h refl)
    positions (suc (suc (suc (suc v)))) h = absurd (h refl)

three-IsHeap : IsHeap activity three
unfolding higher_priority
three-IsHeap zero pos h = absurd (omega arith)
three-IsHeap (suc zero) pos h = refl
three-IsHeap (suc (suc zero)) pos h = refl
three-IsHeap (suc (suc (suc p))) pos h = absurd (omega arith)

insert-IsIndexed_example :
    IsIndexed (insert activity 3 three)
    × (position_of (insert activity 3 three) 3 ≢ no_position)
    × ((position_of (insert activity 3 three) 2 ≡ no_position)
        ↔ (position_of three 2 ≡ no_position))
insert-IsIndexed_example =
    insert-IsIndexed activity 3 2 three three-IsIndexed (omega arith) (omega arith) (omega arith)

pop_max-IsIndexed_example :
    ((pop_max activity three).0 ≡ some 1)
    × IsIndexed (pop_max activity three).1
    × (position_of (pop_max activity three).1 1 ≡ no_position)
    × ((position_of (pop_max activity three).1 2 ≡ no_position)
        ↔ (position_of three 2 ≡ no_position))
pop_max-IsIndexed_example =
    pop_max-IsIndexed activity three 2 three-IsIndexed (omega arith) (omega arith)

pop_max-IsHeap_example :
    ((pop_max activity three).0 ≡ some 1)
    × (higher_priority activity 2 1 ≡ false)
    × IsHeap activity (pop_max activity three).1
pop_max-IsHeap_example = pop_max-IsHeap activity three 2 three-IsIndexed three-IsHeap (omega arith)

peek_max_first_example :
    (v : Var) × ((peek_max 3 (unassigned ∷ truth ∷ unassigned ∷ []) activity three).0 ≡ some v)
    × (get_or (unassigned ∷ truth ∷ unassigned ∷ []) v unassigned ≡ unassigned)
    × (higher_priority activity 0 v ≡ false)
peek_max_first_example =
    peek_max_first 3 (unassigned ∷ truth ∷ unassigned ∷ []) activity three 0 three-IsIndexed
      three-IsHeap (omega arith) (omega arith) refl

abbrev bumped : List ℕ
bumped = 5 ∷ 9 ∷ 10 ∷ 9 ∷ []

differ : DiffersAt 2 activity bumped
differ zero ne = refl
differ (suc zero) ne = refl
differ (suc (suc zero)) ne = absurd (ne refl)
differ (suc (suc (suc zero))) ne = refl
differ (suc (suc (suc (suc w)))) ne = refl

update-IsHeap_example : IsHeap bumped (update bumped 2 7 three)
update-IsHeap_example = update-IsHeap activity bumped 2 three differ three-IsIndexed three-IsHeap
