-- ===== src/VarOrder/Up.antt =====
-- Sifting up restores the order of a heap (src/solver.rs).
use satrap.Prelude.{
  ℕ, zero, suc, ◌<◌, ◌≤◌, true, false, not, ◌||◌, List, length, ◌==◌, ◌≡◌, ◌≢◌, inl, inr, sym,
  subst, arith, Bool-cases,
}
use satrap.Lit.{Var}
use satrap.VarOrder.{VarOrder, at, higher_priority, swap, sift_up}
use satrap.VarOrder.Index.{
  IsIndexed, eq_or_ne, swap-first, swap-second, swap-other, length-swap, swap-IsSifted,
}
use satrap.VarOrder.Priority.{parent_of, IsHeap, not_higher_trans, higher-not_higher}

module _ (activity : List ℕ) where
  abbrev After : Var → Var → Type 0
  After a b = higher_priority activity a b ≡ false

  -- A heap but for the entry at `p`, which may come before its parent.
  pub record IsUp (p : ℕ) (o : VarOrder) : Type 0 where
    pub rest : (r : ℕ) → 0 < r → r < length o.heap → r ≢ p → After (at o r) (at o (parent_of r))
    pub below :
        (r : ℕ)
        → 0 < r
        → r < length o.heap
        → parent_of r ≡ p
        → 0 < p
        → After (at o r) (at o (parent_of p))

  module _ (p : ℕ) (o : VarOrder) (k : IsIndexed o) (inside : p < length o.heap) (above : 0 < p)
      (u : IsUp p o) (higher : higher_priority activity (at o p) (at o (parent_of p)) ≡ true) where
    abbrev q : ℕ
    q = parent_of p

    abbrev o' : VarOrder
    o' = swap p (parent_of p) o

    q_in : q < length o.heap
    q_in = omega arith

    ne : p ≢ q
    ne = omega arith

    at-p : at o' p ≡ at o q
    at-p = swap-first o p q k inside q_in ne

    at-q : at o' q ≡ at o p
    at-q = swap-second o p q k inside q_in ne

    at_else : (r : ℕ) → r ≢ p → r ≢ q → at o' r ≡ at o r
    at_else = swap-other o p q k inside q_in ne

    up-rest : (r : ℕ) → 0 < r → r < length o.heap → r ≢ q → After (at o' r) (at o' (parent_of r))
    up-rest r pos h nq = elim (eq_or_ne r p) [
      | inl e ↦ rw (e, at-p, at-q) (higher-not_higher activity (at o p) (at o q) higher)
      | inr np ↦ elim (eq_or_ne (parent_of r) p) [
        | inl child ↦ rw (at_else r np nq, child, at-p) (u.below r pos h child above)
        | inr elsewhere ↦ elim (eq_or_ne (parent_of r) q) [
          | inl sibling ↦
              rw (at_else r np nq, sibling, at-q)
                (not_higher_trans activity (at o r) (at o q) (at o p)
                  (subst (λ x. After (at o r) (at o x)) sibling (u.rest r pos h np))
                  (higher-not_higher activity (at o p) (at o q) higher))
          | inr far ↦ rw (at_else r np nq, at_else (parent_of r) elsewhere far) (u.rest r pos h np)
        ]
      ]
    ]

    up-below :
        (r : ℕ)
        → 0 < r
        → r < length o.heap
        → parent_of r ≡ q
        → 0 < q
        → After (at o' r) (at o' (parent_of q))
    up-below r pos h e q_pos =
        let top = at_else (parent_of q) (omega arith) (omega arith) in
        elim (eq_or_ne r p) [
          | inl same ↦ rw (same, at-p, top) (u.rest q q_pos q_in (λ x. ne (sym x)))
          | inr np ↦
              rw (at_else r np (omega arith), top)
                (not_higher_trans activity (at o r) (at o q) (at o (parent_of q))
                  (subst (λ x. After (at o r) (at o x)) e (u.rest r pos h np))
                  (u.rest q q_pos q_in (λ x. ne (sym x))))
        ]

    swap-IsUp : IsUp q o'
    swap-IsUp =
        let same = length-swap o p q k inside q_in ne in
        record {
          rest = λ r pos h. up-rest r pos (subst (λ n. r < n) same h);
          below = λ r pos h. up-below r pos (subst (λ n. r < n) same h);
        }

  pub sift_up-IsHeap :
      (fuel p : ℕ) (o : VarOrder)
      → IsIndexed o
      → p < length o.heap
      → p ≤ fuel
      → IsUp p o
      → IsHeap activity (sift_up fuel activity p o)
  unfolding sift_up
  sift_up-IsHeap zero p o k inside enough u = λ r pos h. u.rest r pos h (omega arith)
  sift_up-IsHeap (suc fuel) p o k inside enough u =
      elim (Bool-cases (p == 0 || not (higher_priority activity (at o p) (at o (parent_of p))))) [
        | inl stop ↦ rw stop (λ r pos h. elim (eq_or_ne r p) [
          | inl e ↦ rw e (ground arith)
          | inr ne ↦ u.rest r pos h ne
        ])
        | inr go ↦
            let above : 0 < p = ground arith in
            let once = swap-IsSifted o p (parent_of p) k inside (omega arith) (omega arith) in
            rw go (
              sift_up-IsHeap fuel (parent_of p) (swap p (parent_of p) o) once.indexed
                (rw once.count (omega arith)) (omega arith)
                (swap-IsUp p o k inside above u (ground arith)))
      ]
