-- ===== src/VarOrder.antt =====
-- `VarOrder` of src/solver.rs: a binary heap of variables with the position of each. An activity is
-- an f64 that is only compared by `total_cmp`, so it is its rank in that order here.
pub mod Index
pub mod Operations
pub mod Pop
pub mod Priority
pub mod Up
pub mod Down
pub mod Order
pub mod Peek
pub mod Change
pub mod Examples
use satrap.Prelude.{
  take, ℕ, zero, suc, ◌+◌, ◌-◌, ◌*◌, ◌/◌, ◌^◌, Bool, true, false, not, ◌&&◌, ◌||◌, Option, none,
  some, List, [], ◌∷◌, ◌++◌, ltb, leb, ◌==◌, length, get_or, set, if◌then◌else◌,
}
use satrap.Lit.{Var}
use satrap.Elimination.{Value, unassigned, truth, falsity}

abbrev pub no_position : ℕ
no_position = 2 ^ 64 - 1

pub record VarOrder : Type 0 where
  pub heap : List Var
  pub positions : List ℕ

-- The default stands for a read out of bounds.
abbrev pub at : VarOrder → ℕ → Var
at o p = get_or o.heap p 0

abbrev pub position_of : VarOrder → Var → ℕ
position_of o v = get_or o.positions v no_position

unfoldable pub higher_priority : List ℕ → Var → Var → Bool
higher_priority activity left right =
    let l = get_or activity left 0 in
    let r = get_or activity right 0 in
    if ltb r l then true else if ltb l r then false else ltb left right

-- `self.heap.swap(p, q)` and the two positions
unfoldable pub swap : ℕ → ℕ → VarOrder → VarOrder
swap p q o = record {
  heap = set (set o.heap p (at o q)) q (at o p);
  positions = set (set o.positions (at o q) p) (at o p) q;
}

-- The loop halves the position, which is enough fuel.
unfoldable pub sift_up : ℕ → List ℕ → ℕ → VarOrder → VarOrder
unfolding swap
sift_up zero activity p o = o
sift_up (suc fuel) activity p o =
    let parent = (p - 1) / 2 in
    let more = sift_up fuel activity parent (swap p parent o) in
    if p == 0 || not (higher_priority activity (at o p) (at o parent)) then o else more

-- The child that comes first.
unfoldable pub child_of : List ℕ → ℕ → VarOrder → ℕ
child_of activity p o =
    let left = p * 2 + 1 in
    let right = p * 2 + 1 + 1 in
    if ltb right (length o.heap) && higher_priority activity (at o right) (at o left)
    then right
    else left

-- The loop doubles the position, so the length of the heap is enough fuel.
unfoldable pub sift_down : ℕ → List ℕ → ℕ → VarOrder → VarOrder
unfolding swap child_of
sift_down zero activity p o = o
sift_down (suc fuel) activity p o =
    let child = child_of activity p o in
    let more = sift_down fuel activity child (swap p child o) in
    if leb (length o.heap) (p * 2 + 1) || not (higher_priority activity (at o child) (at o p))
    then o
    else more

abbrev pub append : Var → VarOrder → VarOrder
append v o = record { heap = o.heap ++ v ∷ []; positions = set o.positions v (length o.heap) }

unfoldable pub insert : List ℕ → Var → VarOrder → VarOrder
unfolding sift_up
insert activity v o =
    if not (position_of o v == no_position)
    then o
    else sift_up (length o.heap) activity (length o.heap) (append v o)

unfoldable pub increase : List ℕ → Var → VarOrder → VarOrder
unfolding sift_up
increase activity v o =
    let p = position_of o v in if p == no_position then o else sift_up p activity p o

-- `update`, for the rank of the old activity
unfoldable pub update : List ℕ → Var → ℕ → VarOrder → VarOrder
unfolding sift_up sift_down
update activity v old o =
    let p = position_of o v in
    let new = get_or activity v 0 in
    if p == no_position
    then o
    else if ltb old new
    then sift_up p activity p o
    else if ltb new old
    then sift_down (length o.heap) activity p o
    else o

-- `pop_max` once the greatest entry and the last one are known.
abbrev pub put_last : List ℕ → Var → Var → List Var → List ℕ → VarOrder
put_last activity maximum last [] positions = record {
  heap = [];
  positions = set positions maximum no_position;
}
put_last activity maximum last (x ∷ rest) positions =
    sift_down (length (x ∷ rest)) activity 0
      (record { heap = last ∷ rest; positions = set (set positions maximum no_position) last 0 })

abbrev pub pop_from : List ℕ → List Var → List ℕ → Option Var × VarOrder
pop_from activity [] positions = (none, record { heap = []; positions = positions })
pop_from activity (maximum ∷ rest) positions = (
  some maximum,
  put_last activity maximum (get_or (maximum ∷ rest) (length rest) 0)
      (take (length rest) (maximum ∷ rest)) positions,
)

unfoldable pub pop_max : List ℕ → VarOrder → Option Var × VarOrder
unfolding sift_down
pop_max activity o = pop_from activity o.heap o.positions

abbrev pub assigned : Value → Bool
assigned unassigned = false
assigned truth = true
assigned falsity = true

-- The loop takes an entry in each round, so the length of the heap is enough fuel.
unfoldable pub peek_max : ℕ → List Value → List ℕ → VarOrder → Option Var × VarOrder
unfolding pop_max
peek_max zero assignments activity o = (none, o)
peek_max (suc fuel) assignments activity o =
    let more = peek_max fuel assignments activity (pop_max activity o).1 in
    if length o.heap == 0
    then (none, o)
    else if assigned (get_or assignments (at o 0) unassigned)
    then more
    else (some (at o 0), o)
