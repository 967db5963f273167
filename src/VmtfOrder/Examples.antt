-- ===== src/VmtfOrder/Examples.antt =====
-- A queue of two variables (src/solver.rs, `VmtfOrder`), of which the second has a value.
use satrap.Prelude.{ℕ, zero, suc, ◌<◌, ◌≤◌, true, some, [], ◌∷◌, set, ◌≡◌, refl, arith, inl, inr}
use satrap.Elimination.{unassigned, truth}
use satrap.VmtfOrder.{
  VmtfOrder, default, disconnected, grow, add_variable, advance_stamp, is_assigned, pick, seek,
  move_to_front, bump_analyzed, move_all, unassign,
}
use satrap.VmtfOrder.Linked.{Earlier, Later}
use satrap.VmtfOrder.Queue.{previous_of, next_of, stamp_of, Chain}
use satrap.VmtfOrder.Search.{IsQueue, IsLatest, pick-IsLatest}
use satrap.VmtfOrder.Bump.{move_to_front-IsQueue, unassign-IsQueue}

abbrev two_variables : VmtfOrder
two_variables = record {
  links =
      record { previous = disconnected; next = 1; stamp = 1 }
      ∷ record { previous = 0; next = disconnected; stamp = 2 }
      ∷ [];
  first = 0;
  last = 1;
  search = 1;
  stamp = 2;
}

grow-default : grow 2 default ≡ two_variables
unfolding grow add_variable advance_stamp
grow-default = refl

two_variables-Chain : Chain two_variables.links 1 2
two_variables-Chain = record {
  fits = omega arith;
  inside = omega arith;
  earlier = before;
  later = after;
  differ = apart;
  bounded = low;
  latest = low;
}
  where
    least : (j : ℕ) → j < 2 → 1 ≤ stamp_of two_variables.links j
    least zero h = omega arith
    least (suc zero) h = omega arith
    least (suc (suc j)) h = absurd (omega arith)

    near : (j : ℕ) → j < 2 → stamp_of two_variables.links j < 2 → stamp_of two_variables.links j ≤ 1
    near j h k = omega arith

    before :
        (i : ℕ)
        → i < 2
        → Earlier 2
            (previous_of two_variables.links)
            (next_of two_variables.links)
            (stamp_of two_variables.links)
            i
    before zero h = inl (refl, least)
    before (suc zero) h = inr (omega arith, refl, omega arith, near)
    before (suc (suc i)) h = absurd (omega arith)

    after :
        (i : ℕ)
        → i < 2
        → Later 2 (previous_of two_variables.links) (next_of two_variables.links) 1 i
    after zero h = inr ((λ e. omega (arith, e)), omega arith, refl)
    after (suc zero) h = inl (refl, refl)
    after (suc (suc i)) h = absurd (omega arith)

    apart :
        (i j : ℕ)
        → i < 2
        → j < 2
        → stamp_of two_variables.links i ≡ stamp_of two_variables.links j
        → i ≡ j
    apart zero zero h k e = refl
    apart zero (suc zero) h k e = absurd (omega (arith, e))
    apart (suc zero) zero h k e = absurd (omega (arith, e))
    apart (suc zero) (suc zero) h k e = refl
    apart (suc (suc i)) j h k e = absurd (omega arith)
    apart i (suc (suc j)) h k e = absurd (omega arith)

    low : (i : ℕ) → i < 2 → stamp_of two_variables.links i ≤ 2
    low zero h = omega arith
    low (suc zero) h = omega arith
    low (suc (suc i)) h = absurd (omega arith)

two_variables-IsQueue : IsQueue (unassigned ∷ truth ∷ []) two_variables
two_variables-IsQueue = record {
  chain = two_variables-Chain;
  behind = inr (omega arith, none_after);
}
  where
    none_after :
        (j : ℕ)
        → j < 2
        → 2 < stamp_of two_variables.links j
        → is_assigned (unassigned ∷ truth ∷ []) j ≡ true
    none_after zero h k = absurd (omega arith)
    none_after (suc zero) h k = absurd (omega arith)
    none_after (suc (suc j)) h k = absurd (omega arith)

pick-two_variables : (pick (unassigned ∷ truth ∷ []) two_variables).0 ≡ some 0
unfolding pick seek
pick-two_variables = refl

pick-IsLatest_example :
    IsLatest
      (unassigned ∷ truth ∷ [])
      two_variables.links
      (pick (unassigned ∷ truth ∷ []) two_variables).0
    × IsQueue (unassigned ∷ truth ∷ []) (pick (unassigned ∷ truth ∷ []) two_variables).1
pick-IsLatest_example = pick-IsLatest (unassigned ∷ truth ∷ []) two_variables two_variables-IsQueue

move_to_front-IsQueue_example :
    IsQueue (unassigned ∷ truth ∷ []) (move_to_front 0 (unassigned ∷ truth ∷ []) two_variables)
    × ((move_to_front 0 (unassigned ∷ truth ∷ []) two_variables).last ≡ 0)
move_to_front-IsQueue_example =
    move_to_front-IsQueue (unassigned ∷ truth ∷ []) two_variables 0 (omega arith) (omega arith)
      two_variables-IsQueue

unassign-IsQueue_example :
    IsQueue (set (unassigned ∷ truth ∷ []) 1 unassigned) (unassign 1 two_variables)
unassign-IsQueue_example =
    unassign-IsQueue (unassigned ∷ truth ∷ []) two_variables 1 (omega arith) (omega arith)
      two_variables-IsQueue

-- The test of the source.
abbrev four : VmtfOrder
four = grow 4 default

picks_recent :
    (pick
      (unassigned ∷ unassigned ∷ unassigned ∷ truth ∷ [])
      (bump_analyzed (0 ∷ 1 ∷ []) (unassigned ∷ unassigned ∷ unassigned ∷ truth ∷ []) four)).0
    ≡ some 1
unfolding pick seek bump_analyzed move_all move_to_front grow add_variable advance_stamp
picks_recent = refl
