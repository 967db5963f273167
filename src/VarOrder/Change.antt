-- ===== src/VarOrder/Change.antt =====
-- `VarOrder::update` (src/solver.rs) restores the order of the heap when one activity changes.
use satrap.Prelude.{
  ℕ, ◌<◌, ◌≤◌, false, List, length, get_or, ltb, ◌==◌, ◌≡◌, ◌≢◌, sym, ap, ◌∙◌, subst, arith,
  Bool-cases, inl, inr, ==_ne,
}
use satrap.Lit.{Var}
use satrap.VarOrder.{VarOrder, no_position, at, position_of, higher_priority, update}
use satrap.VarOrder.Index.{IsIndexed, eq_or_ne}
use satrap.VarOrder.Priority.{parent_of, IsHeap, not_higher_trans}
use satrap.VarOrder.Up.{IsUp, sift_up-IsHeap}
use satrap.VarOrder.Down.{IsDown, sift_down-IsHeap}

-- The activities differ at one variable at most.
abbrev pub DiffersAt : Var → List ℕ → List ℕ → Type 0
DiffersAt v old new = (w : Var) → w ≢ v → get_or new w 0 ≡ get_or old w 0

module _ (v : Var) (old new : List ℕ) (differs : DiffersAt v old new) where
  elsewhere :
      (a b : Var)
      → a ≢ v
      → b ≢ v
      → higher_priority old a b ≡ false
      → higher_priority new a b ≡ false
  unfolding higher_priority
  elsewhere a b na nb h = rw (differs a na, differs b nb) h

  raised :
      (a : Var)
      → a ≢ v
      → get_or old v 0 ≤ get_or new v 0
      → higher_priority old a v ≡ false
      → higher_priority new a v ≡ false
  unfolding higher_priority
  raised a na up h = rw (differs a na) (ground arith)

  lowered :
      (b : Var)
      → b ≢ v
      → get_or new v 0 ≤ get_or old v 0
      → higher_priority old v b ≡ false
      → higher_priority new v b ≡ false
  unfolding higher_priority
  lowered b nb down h = rw (differs b nb) (ground arith)

  module _ (o : VarOrder) (k : IsIndexed o) (heap : IsHeap old o) where
    entry-ne :
        (p : ℕ) → at o p ≡ v → (r : ℕ) → p < length o.heap → r < length o.heap → r ≢ p → at o r ≢ v
    entry-ne p e r hp hr ne same =
        ne (sym (k.entries r hr).1 ∙ ap (position_of o) (same ∙ sym e) ∙ (k.entries p hp).1)

    absent-IsHeap : position_of o v ≡ no_position → IsHeap new o
    absent-IsHeap out p pos h =
        elsewhere (at o p) (at o (parent_of p)) (missing p h) (missing (parent_of p) (omega arith))
          (heap p pos h)
      where
        missing : (r : ℕ) → r < length o.heap → at o r ≢ v
        missing r h e =
            let b = k.bound in
            let same = sym (k.entries r h).1 ∙ ap (position_of o) e ∙ out in
            absurd (omega (arith, same))

    module _ (p : ℕ) (h : p < length o.heap) (e : at o p ≡ v) where
      -- Past the changed entry, from its children to its parent.
      around :
          (r : ℕ)
          → 0 < r
          → r < length o.heap
          → parent_of r ≡ p
          → 0 < p
          → higher_priority new (at o r) (at o (parent_of p)) ≡ false
      around r pos inside family above =
          elsewhere (at o r) (at o (parent_of p)) (entry-ne p e r h inside (omega arith))
            (entry-ne p e (parent_of p) h (omega arith) (omega arith))
            (not_higher_trans old (at o r) (at o p) (at o (parent_of p))
              (subst (λ x. higher_priority old (at o r) (at o x) ≡ false) family
                (heap r pos inside))
              (heap p above h))

      raised-IsUp : get_or old v 0 ≤ get_or new v 0 → IsUp new p o
      raised-IsUp up = record {
        rest = λ r pos inside ne. elim (eq_or_ne (parent_of r) p) [
          | inl family ↦
              rw (family, e)
                (raised (at o r) (entry-ne p e r h inside ne) up (
                  subst (λ x. higher_priority old (at o r) x ≡ false) (ap (at o) family ∙ e)
                    (heap r pos inside)))
          | inr far ↦
              elsewhere (at o r) (at o (parent_of r)) (entry-ne p e r h inside ne)
                (entry-ne p e (parent_of r) h (omega arith) far) (heap r pos inside)
        ];
        below = around;
      }

      lowered-IsDown : get_or new v 0 ≤ get_or old v 0 → IsDown new p o
      lowered-IsDown down = record {
        rest = λ r pos inside far. elim (eq_or_ne r p) [
          | inl here ↦
              let entry : at o r ≡ v = ap (at o) here ∙ e in
              rw entry (
                lowered (at o (parent_of r)) (entry-ne p e (parent_of r) h (omega arith) far) down (
                  subst (λ x. higher_priority old x (at o (parent_of r)) ≡ false) entry
                    (heap r pos inside)))
          | inr ne ↦
              elsewhere (at o r) (at o (parent_of r)) (entry-ne p e r h inside ne)
                (entry-ne p e (parent_of r) h (omega arith) far) (heap r pos inside)
        ];
        below = around;
      }

same-IsHeap :
    (v : Var) (old new : List ℕ)
    → DiffersAt v old new
    → (o : VarOrder) → get_or new v 0 ≡ get_or old v 0
    → IsHeap old o
    → IsHeap new o
unfolding higher_priority
same-IsHeap v old new differs o same heap p pos h =
    rw (equal (at o p), equal (at o (parent_of p))) (heap p pos h)
  where
    equal : (w : Var) → get_or new w 0 ≡ get_or old w 0
    equal w = elim (eq_or_ne w v) [ inl e ↦ rw e same | inr ne ↦ differs w ne ]

-- When the activity of one variable changes, an update of the heap with its old value gives a heap in
-- the new order.
pub update-IsHeap :
    (old new : List ℕ) (v : Var) (o : VarOrder)
    → DiffersAt v old new
    → IsIndexed o
    → IsHeap old o
    → IsHeap new (update new v (get_or old v 0) o)
unfolding update
update-IsHeap old new v o differs k heap = elim (Bool-cases (position_of o v == no_position)) [
  | inl out ↦ rw out (absent-IsHeap v old new differs o k heap (ground arith))
  | inr present ↦
      let (inside, entry) = k.positions v (==_ne (position_of o v) no_position present) in
      elim (Bool-cases (ltb (get_or old v 0) (get_or new v 0))) [
        | inl up ↦
            rw (present, up)
              (sift_up-IsHeap new (position_of o v) (position_of o v) o k inside (omega arith) (
                raised-IsUp v old new differs o k heap (position_of o v) inside entry
                  (ground arith)))
        | inr not_up ↦ elim (Bool-cases (ltb (get_or new v 0) (get_or old v 0))) [
          | inl down ↦
              rw (present, not_up, down)
                (sift_down-IsHeap new (length o.heap) (position_of o v) o k inside (omega arith) (
                  lowered-IsDown v old new differs o k heap (position_of o v) inside entry
                    (ground arith)))
          | inr equal ↦
              rw (present, not_up, equal) (same-IsHeap v old new differs o (ground arith) heap)
        ]
      ]
]
