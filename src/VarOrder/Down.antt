-- ===== src/VarOrder/Down.antt =====
-- Sifting down restores the order of a heap (src/solver.rs).
use satrap.Prelude.{
  ℕ, zero, suc, ◌+◌, ◌*◌, ◌<◌, ◌≤◌, true, false, ◌&&◌, List, length, ltb, leb, ◌≡◌, ◌≢◌, inl, inr,
  sym, ap, ◌∙◌, subst, arith, Bool-cases, &&_right,
}
use satrap.Lit.{Var}
use satrap.VarOrder.{VarOrder, at, higher_priority, swap, child_of, sift_down}
use satrap.VarOrder.Index.{
  IsIndexed, eq_or_ne, swap-first, swap-second, swap-other, length-swap, swap-IsSifted,
  child_of-inside,
}
use satrap.VarOrder.Priority.{
  parent_of, IsHeap, not_higher_trans, higher-not_higher, not_higher_self,
}

module _ (activity : List ℕ) where
  abbrev After : Var → Var → Type 0
  After a b = higher_priority activity a b ≡ false

  -- A heap but for the entry at `p`, which may come after its children.
  pub record IsDown (p : ℕ) (o : VarOrder) : Type 0 where
    pub rest :
        (r : ℕ) → 0 < r → r < length o.heap → parent_of r ≢ p → After (at o r) (at o (parent_of r))
    pub below :
        (r : ℕ)
        → 0 < r
        → r < length o.heap
        → parent_of r ≡ p
        → 0 < p
        → After (at o r) (at o (parent_of p))

  -- The child that is taken is one of the two, and no child comes before it.
  child_of-best :
      (p : ℕ) (o : VarOrder)
      → p * 2 + 1 < length o.heap
      → (parent_of (child_of activity p o) ≡ p)
        × ((r : ℕ)
            → 0 < r
            → r < length o.heap
            → parent_of r ≡ p
            → After (at o r) (at o (child_of activity p o)))
  unfolding child_of
  child_of-best p o h =
      elim (Bool-cases (
        ltb (p * 2 + 1 + 1) (length o.heap)
        && higher_priority activity (at o (p * 2 + 1 + 1)) (at o (p * 2 + 1)))) [
          | inl right ↦ rw right (
            omega arith,
            λ r pos inside e. elim (eq_or_ne r (p * 2 + 1)) [
              | inl left ↦ rw left (higher-not_higher activity _ _ (&&_right _ _ right))
              | inr other ↦
                  let last : r ≡ p * 2 + 1 + 1 = omega arith in rw last (not_higher_self activity _)
            ],
          )
          | inr stays ↦ rw stays (
            omega arith,
            λ r pos inside e. elim (eq_or_ne r (p * 2 + 1)) [
              | inl left ↦ rw left (not_higher_self activity _)
              | inr other ↦
                  let last : r ≡ p * 2 + 1 + 1 = omega arith in
                  let fits : ltb (p * 2 + 1 + 1) (length o.heap) ≡ true = ground arith in
                  rw last (rw fits at stays)
            ],
          )
        ]

  module _ (p c : ℕ) (o : VarOrder) (k : IsIndexed o) (p_in : p < length o.heap)
      (c_in : c < length o.heap) (c_pos : 0 < c) (child : parent_of c ≡ p)
      (best : (r : ℕ) → 0 < r → r < length o.heap → parent_of r ≡ p → After (at o r) (at o c))
      (d : IsDown p o) (higher : higher_priority activity (at o c) (at o p) ≡ true) where
    abbrev o' : VarOrder
    o' = swap p c o

    ne : p ≢ c
    ne = omega arith

    at-p : at o' p ≡ at o c
    at-p = swap-first o p c k p_in c_in ne

    at_c : at o' c ≡ at o p
    at_c = swap-second o p c k p_in c_in ne

    at_else : (r : ℕ) → r ≢ p → r ≢ c → at o' r ≡ at o r
    at_else = swap-other o p c k p_in c_in ne

    down-rest :
        (r : ℕ)
        → 0 < r
        → r < length o.heap
        → parent_of r ≢ c
        → After (at o' r) (at o' (parent_of r))
    down-rest r pos h far = elim (eq_or_ne (parent_of r) p) [
      | inl here ↦ elim (eq_or_ne r c) [
        | inl e ↦ rw (here, e, at_c, at-p) (higher-not_higher activity (at o c) (at o p) higher)
        | inr nc ↦ rw (here, at_else r (omega arith) nc, at-p) (best r pos h here)
      ]
      | inr elsewhere ↦ elim (eq_or_ne r p) [
        | inl e ↦
            rw (e, at-p, at_else (parent_of p) (omega arith) (omega arith))
              (d.below c c_pos c_in child (omega arith))
        | inr np ↦
            rw
              (
                at_else r np (λ x. elsewhere (ap parent_of x ∙ child)),
                at_else (parent_of r) elsewhere far,
              )
              (d.rest r pos h elsewhere)
      ]
    ]

    down-below :
        (r : ℕ)
        → 0 < r
        → r < length o.heap
        → parent_of r ≡ c
        → 0 < c
        → After (at o' r) (at o' (parent_of c))
    down-below r pos h e c_above =
        rw (at_else r (omega arith) (omega arith), child, at-p)
          (subst (λ x. After (at o r) (at o x)) e (d.rest r pos h (λ x. ne (sym x ∙ e))))

    swap-IsDown : IsDown c o'
    swap-IsDown =
        let same = length-swap o p c k p_in c_in ne in
        record {
          rest = λ r pos h. down-rest r pos (subst (λ n. r < n) same h);
          below = λ r pos h. down-below r pos (subst (λ n. r < n) same h);
        }

  pub sift_down-IsHeap :
      (fuel p : ℕ) (o : VarOrder)
      → IsIndexed o
      → p < length o.heap
      → length o.heap ≤ fuel + p
      → IsDown p o
      → IsHeap activity (sift_down fuel activity p o)
  unfolding sift_down
  sift_down-IsHeap zero p o k inside enough d = absurd (omega arith)
  sift_down-IsHeap (suc fuel) p o k inside enough d =
      elim (Bool-cases (leb (length o.heap) (p * 2 + 1))) [
        | inl leaf ↦ rw leaf (λ r pos h. d.rest r pos h (ground arith))
        | inr inner ↦
            let child = child_of activity p o in
            let fits : p * 2 + 1 < length o.heap = ground arith in
            let (c_in, c_below) = child_of-inside activity p o fits in
            let (family, best) = child_of-best p o fits in
            elim (Bool-cases (higher_priority activity (at o child) (at o p))) [
              | inr stop ↦
                  rw (inner, stop)
                    (λ r pos h. elim (eq_or_ne (parent_of r) p) [
                      | inl e ↦ rw e (
                          not_higher_trans activity (at o r) (at o child) (at o p) (best r pos h e)
                            stop)
                      | inr ne ↦ d.rest r pos h ne
                    ])
              | inl go ↦
                  let once = swap-IsSifted o p child k inside c_in (omega arith) in
                  rw (inner, go)
                    (sift_down-IsHeap fuel child (swap p child o) once.indexed (rw once.count c_in)
                      (rw once.count (omega arith))
                      (swap-IsDown p child o k inside c_in (omega arith) family best d go))
            ]
      ]
