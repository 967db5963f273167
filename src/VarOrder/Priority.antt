-- ===== src/VarOrder/Priority.antt =====
-- The order of `higher_priority` (src/solver.rs): by activity, then by variable.
use satrap.Prelude.{ℕ, zero, suc, ◌-◌, ◌/◌, ◌<◌, ◌≤◌, true, false, List, length, ◌≡◌, arith}
use satrap.Lit.{Var}
use satrap.VarOrder.{VarOrder, at, higher_priority}

pub not_higher_trans :
    (activity : List ℕ) (a b c : Var)
    → higher_priority activity a b ≡ false
    → higher_priority activity b c ≡ false
    → higher_priority activity a c ≡ false
unfolding higher_priority
not_higher_trans activity a b c h k = ground arith

pub higher-not_higher :
    (activity : List ℕ) (a b : Var)
    → higher_priority activity a b ≡ true
    → higher_priority activity b a ≡ false
unfolding higher_priority
higher-not_higher activity a b h = ground arith

pub not_higher_self : (activity : List ℕ) (a : Var) → higher_priority activity a a ≡ false
unfolding higher_priority
not_higher_self activity a = ground arith

abbrev pub parent_of : ℕ → ℕ
parent_of p = (p - 1) / 2

-- No entry comes before its parent.
abbrev pub IsHeap : List ℕ → VarOrder → Type 0
IsHeap activity o =
    (p : ℕ)
    → 0 < p
    → p < length o.heap
    → higher_priority activity (at o p) (at o (parent_of p)) ≡ false

-- The first entry of a heap comes before all others.
pub IsHeap-first :
    (activity : List ℕ) (o : VarOrder)
    → IsHeap activity o
    → (fuel p : ℕ) → p ≤ fuel
    → p < length o.heap
    → higher_priority activity (at o p) (at o 0) ≡ false
IsHeap-first activity o k fuel zero h inside = not_higher_self activity (at o 0)
IsHeap-first activity o k zero (suc p) h inside = elim h [ ]
IsHeap-first activity o k (suc fuel) (suc p) h inside =
    not_higher_trans activity (at o (suc p)) (at o (parent_of (suc p))) (at o 0)
      (k (suc p) (omega arith) inside)
      (IsHeap-first activity o k fuel (parent_of (suc p)) (omega arith) (omega arith))
