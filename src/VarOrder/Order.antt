-- ===== src/VarOrder/Order.antt =====
-- The operations of `VarOrder` (src/solver.rs) keep the order of the heap, so `pop_max` gives the
-- variable that comes first.
use satrap.Prelude.{
  ℕ, zero, suc, ◌<◌, false, some, List, [], ◌∷◌, length, get_or, ◌==◌, ◌≡◌, ◌≢◌, refl, sym, subst,
  arith, Bool-cases, inl, inr, length-append,
}
use satrap.Lit.{Var}
use satrap.VarOrder.{
  VarOrder, no_position, at, position_of, higher_priority, append, insert, pop_max,
}
use satrap.VarOrder.Index.{IsIndexed}
use satrap.VarOrder.Operations.{append-IsIndexed, at-append}
use satrap.VarOrder.Pop.{whole, moved, at-moved, length-moved, moved-IsPopped, first}
use satrap.VarOrder.Priority.{parent_of, IsHeap, IsHeap-first}
use satrap.VarOrder.Up.{sift_up-IsHeap}
use satrap.VarOrder.Down.{sift_down-IsHeap}

-- Inserting a variable, where the heap has room, keeps the order of the heap.
pub insert-IsHeap :
    (activity : List ℕ) (v : Var) (o : VarOrder)
    → IsIndexed o
    → v < length o.positions
    → length o.heap < no_position
    → IsHeap activity o
    → IsHeap activity (insert activity v o)
unfolding insert
insert-IsHeap activity v o k known room heap = elim (Bool-cases (position_of o v == no_position)) [
  | inr present ↦ rw present heap
  | inl absent ↦
      let free : position_of o v ≡ no_position = ground arith in
      let count = length-append o.heap (v ∷ []) in
      rw absent (
        sift_up-IsHeap activity (length o.heap) (length o.heap) (append v o)
          (append-IsIndexed o v k free known room) (omega (arith, count)) (omega arith)
          (record {
            rest = λ r pos h ne.
                let inside : r < length o.heap = omega (arith, count) in
                rw
                  (
                    at-append o v k free known room r inside,
                    at-append o v k free known room (parent_of r) (omega arith),
                  )
                  (heap r pos inside);
            below = λ r pos h e above. absurd (omega (arith, count, e));
          }))
]

pop-IsHeap :
    (activity : List ℕ) (maximum : Var) (rest : List Var) (positions : List ℕ)
    → IsIndexed (record { heap = maximum ∷ rest; positions = positions })
    → IsHeap activity (record { heap = maximum ∷ rest; positions = positions })
    → IsHeap activity (pop_max activity (record { heap = maximum ∷ rest; positions = positions })).1
unfolding pop_max
pop-IsHeap activity maximum [] positions k heap = λ r pos h. elim h [ ]
pop-IsHeap activity maximum (y ∷ ys) positions k heap =
    let o' : VarOrder = moved maximum y ys positions k in
    let count = length-moved maximum y ys positions k in
    sift_down-IsHeap activity (length o'.heap) 0 o' (moved-IsPopped maximum y ys positions k).0
      (omega (arith, count)) (omega arith)
      (record {
        rest = λ r pos h far. apart r (parent_of r) refl pos (subst (λ n. r < n) count h) far;
        below = λ r pos h e above. elim above [ ];
      })
  where
    apart :
        (r q : ℕ)
        → q ≡ parent_of r
        → 0 < r
        → r < suc (length ys)
        → q ≢ 0
        → higher_priority activity
            (at (moved maximum y ys positions k) r)
            (at (moved maximum y ys positions k) q)
          ≡ false
    apart zero q e pos h far = elim pos [ ]
    apart (suc r) zero e pos h far = absurd (far refl)
    apart (suc r) (suc q) e pos h far =
        rw
          (
            at-moved maximum y ys positions k r (omega arith),
            at-moved maximum y ys positions k q (omega arith),
          )
          (subst
            (λ x.
              higher_priority activity (get_or (y ∷ ys) r 0) (at (whole maximum y ys positions k) x)
              ≡ false)
            (sym e) (heap (suc r) pos (omega arith)))

-- Popping a heap that is not empty gives a variable before which no variable of the heap comes, by
-- activity and then by number; what is left is a heap.
pub pop_max-IsHeap :
    (activity : List ℕ) (o : VarOrder) (p : ℕ)
    → IsIndexed o
    → IsHeap activity o
    → p < length o.heap
    → ((pop_max activity o).0 ≡ some (at o 0))
      × (higher_priority activity (at o p) (at o 0) ≡ false)
      × IsHeap activity (pop_max activity o).1
pop_max-IsHeap activity o p k heap h = (
  (popped o.heap o.positions k heap h).0,
  IsHeap-first activity o heap p p (omega arith) h,
  (popped o.heap o.positions k heap h).1,
)
  where
    popped :
        (entries : List Var) (positions : List ℕ)
        → IsIndexed (record { heap = entries; positions = positions })
        → IsHeap activity (record { heap = entries; positions = positions })
        → p < length entries
        → ((pop_max activity (record { heap = entries; positions = positions })).0
            ≡ some (get_or entries 0 0))
          × IsHeap activity (pop_max activity (record { heap = entries; positions = positions })).1
    popped [] positions k heap h = elim h [ ]
    popped (m ∷ rest) positions k heap h =
        (first activity m rest positions, pop-IsHeap activity m rest positions k heap)
