-- ===== src/VarOrder/Peek.antt =====
-- `VarOrder::peek_max` (src/solver.rs) finds the unassigned variable that comes first.
use satrap.Prelude.{
  ℕ, zero, suc, ◌<◌, ◌≤◌, true, false, some, List, [], ◌∷◌, length, get_or, ◌==◌, ◌≡◌, ◌≢◌, refl,
  sym, ap, ◌∙◌, subst, arith, Bool-cases, inl, inr,
}
use satrap.Lit.{Var}
use satrap.Elimination.{Value, unassigned, truth, falsity}
use satrap.VarOrder.{
  VarOrder, no_position, at, position_of, higher_priority, pop_max, peek_max, assigned,
}
use satrap.VarOrder.Index.{IsIndexed, sift_down-IsSifted}
use satrap.VarOrder.Pop.{pop_max-IsIndexed, moved, length-moved, moved-IsPopped}
use satrap.VarOrder.Priority.{IsHeap}
use satrap.VarOrder.Order.{pop_max-IsHeap}

pop-count :
    (activity : List ℕ) (maximum : Var) (rest : List Var) (positions : List ℕ)
    → IsIndexed (record { heap = maximum ∷ rest; positions = positions })
    → length (pop_max activity (record { heap = maximum ∷ rest; positions = positions })).1.heap
      ≡ length rest
unfolding pop_max
pop-count activity maximum [] positions k = refl
pop-count activity maximum (y ∷ ys) positions k =
    let o' : VarOrder = moved maximum y ys positions k in
    let count = length-moved maximum y ys positions k in
    (sift_down-IsSifted (length o'.heap) activity 0 o' (moved-IsPopped maximum y ys positions k).0
      (omega (arith, count))).count
    ∙ count

pop_max-count :
    (activity : List ℕ) (o : VarOrder)
    → IsIndexed o
    → 0 < length o.heap
    → suc (length (pop_max activity o).1.heap) ≡ length o.heap
pop_max-count activity o k h = go o.heap o.positions k h
  where
    go :
        (heap : List Var) (positions : List ℕ)
        → IsIndexed (record { heap = heap; positions = positions })
        → 0 < length heap
        → suc (length (pop_max activity (record { heap = heap; positions = positions })).1.heap)
          ≡ length heap
    go [] positions k h = elim h [ ]
    go (m ∷ rest) positions k h = ap suc (pop-count activity m rest positions k)

free-unassigned : (x : Value) → assigned x ≡ false → x ≡ unassigned
free-unassigned unassigned h = refl
free-unassigned truth h = absurd (ground arith)
free-unassigned falsity h = absurd (ground arith)

-- While an unassigned variable is in the heap, `peek_max` finds an unassigned variable, and the given
-- one does not come before it; rounds as many as the heap has variables are enough.
pub peek_max_first :
    (fuel : ℕ) (assignments : List Value) (activity : List ℕ) (o : VarOrder) (w : Var)
    → IsIndexed o
    → IsHeap activity o
    → length o.heap ≤ fuel
    → position_of o w ≢ no_position
    → get_or assignments w unassigned ≡ unassigned
    → (v : Var) × ((peek_max fuel assignments activity o).0 ≡ some v)
      × (get_or assignments v unassigned ≡ unassigned)
      × (higher_priority activity w v ≡ false)
unfolding peek_max
peek_max_first zero assignments activity o w k heap enough there free =
    let (inside, entry) = k.positions w there in absurd (omega arith)
peek_max_first (suc fuel) assignments activity o w k heap enough there free =
    let (inside, entry) = k.positions w there in
    let some_left : (length o.heap == 0) ≡ false = ground arith in
    let (top, before, rest) = pop_max-IsHeap activity o (position_of o w) k heap inside in
    elim (Bool-cases (assigned (get_or assignments (at o 0) unassigned))) [
      | inr stop ↦
          rw (some_left, stop)
            (
              at o 0,
              refl,
              free-unassigned (get_or assignments (at o 0) unassigned) stop,
              subst (λ x. higher_priority activity x (at o 0) ≡ false) entry before,
            )
      | inl go ↦
          let ne : w ≢ at o 0 = λ e.
            absurd
              (clash (subst (λ x. assigned (get_or assignments x unassigned) ≡ true) (sym e) go)) in
          let (first, indexed, out, others) = pop_max-IsIndexed activity o w k (omega arith) ne in
          rw (some_left, go)
            (peek_max_first fuel assignments activity (pop_max activity o).1 w indexed rest
              (omega (arith, pop_max-count activity o k (omega arith))) (λ e. there (others.0 e))
              free)
    ]
  where
    clash : assigned (get_or assignments w unassigned) ≡ true → ⊥
    clash h = let e = sym (ap assigned free) ∙ h in ground arith
