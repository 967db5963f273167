-- ===== src/VmtfOrder/Bump.antt =====
-- Bumping and unassigning a variable keep the invariant of `VmtfOrder` (src/solver.rs).
use satrap.Prelude.{
  ℕ, suc, ◌<◌, Bool, true, false, List, ◌==◌, length, ltb, set, get_or-set_ne, if◌then◌else◌, ◌≡◌,
  ◌≢◌, refl, sym, ap, ◌∙◌, subst, arith, Bool-cases, inl, inr,
}
use satrap.Lit.{Var}
use satrap.Elimination.{Value, unassigned}
use satrap.VarOrder.{assigned}
use satrap.VmtfOrder.{
  VmtfLink, VmtfOrder, disconnected, max_stamp, is_assigned, left_search, move_to_front, unassign,
}
use satrap.VmtfOrder.Linked.{Moved, same_or_not, beyond}
use satrap.VmtfOrder.Queue.{previous_of, next_of, stamp_of}
use satrap.VmtfOrder.Moves.{
  relinked, relinked-Moved, relinked_size, relinked-Chain, following, move_to_front_links,
}
use satrap.VmtfOrder.Search.{Behind, IsQueue, step_back}

module _ (assignments : List Value) (o : VmtfOrder) (v : ℕ) (lt : v < length o.links)
    (ne : v ≢ o.last) (q : IsQueue assignments o) where
  abbrev after : List VmtfLink
  after = relinked o.links v o.last (suc o.stamp)

  moved :
      Moved
        (length o.links)
        (previous_of o.links)
        (next_of o.links)
        (stamp_of o.links)
        (previous_of after)
        (next_of after)
        (stamp_of after)
        o.last
        o.stamp
        v
  moved = relinked-Moved o.links v o.last o.stamp lt ne q.chain

  size : length after ≡ length o.links
  size = relinked_size o.links v o.last o.stamp lt ne q.chain

  -- A place of the search other than `v` is a place afterwards, where `v` is assigned.
  still-Behind :
      (s : ℕ)
      → s ≢ v
      → is_assigned assignments v ≡ true
      → Behind assignments o.links s
      → Behind assignments after s
  still-Behind s d here (inl (e, all_)) = inl (e, λ j hj. all_ j (omega (arith, size)))
  still-Behind s d here (inr (inside, above)) = inr (
    omega (arith, size),
    λ j hj k. elim (same_or_not j v) [
      | inl e ↦ ap (is_assigned assignments) e ∙ here
      | inr e ↦ above j (omega (arith, size)) (
          omega
            (arith, k, moved.stamp_other s inside d, moved.stamp_other j (omega (arith, size)) e))
    ],
  )

  -- The search at `v` went back a place, or on where `v` was the first.
  beside-Behind :
      is_assigned assignments v ≡ true
      → Behind assignments o.links v
      → Behind assignments after (
          if previous_of o.links v == disconnected
          then next_of o.links v
          else previous_of o.links v)
  beside-Behind here (inl (e, all_)) = absurd (let f = q.chain.fits in omega arith)
  beside-Behind here (inr (inside, above)) = elim (q.chain.earlier v lt) [
    | inl (none_, least) ↦
        let test : (previous_of o.links v == disconnected) ≡ true = ground arith in
        let (next_in, d) = following o.links v o.last o.stamp lt ne q.chain in
        let (gap, between) =
          beyond (length o.links) (previous_of o.links) (next_of o.links) (stamp_of o.links)
            (previous_of after) (next_of after) (stamp_of after) o.last o.stamp v lt ne q.chain
            moved in
        subst
          (λ b. Behind assignments after (if b then next_of o.links v else previous_of o.links v))
          (sym test)
          (still-Behind (next_of o.links v) d here
            (inr (next_in, λ j hj k. above j hj (omega (arith, k, gap)))))
    | inr (before, back, below, nearest) ↦
        let test : (previous_of o.links v == disconnected) ≡ false =
          let f = q.chain.fits in ground arith in
        subst
          (λ b. Behind assignments after (if b then next_of o.links v else previous_of o.links v))
          (sym test)
          (still-Behind (previous_of o.links v) (λ e. omega (arith, below, ap (stamp_of o.links) e))
            here (step_back assignments o.links o.last o.stamp q.chain v lt above here).0)
  ]

  left-Behind :
      is_assigned assignments v ≡ true → Behind assignments after (left_search v assignments o)
  left-Behind here = elim (same_or_not o.search v) [
    | inr d ↦
        let test : (o.search == v) ≡ false = ground arith in
        rw test (still-Behind o.search d here q.behind)
    | inl e ↦
        let test : (o.search == v) ≡ true = ground arith in
        rw (test, here) (beside-Behind here (subst (Behind assignments o.links) e q.behind))
  ]

  new-Behind : is_assigned assignments v ≡ false → Behind assignments after v
  new-Behind free = inr (
    omega (arith, size),
    λ j hj k. elim (same_or_not j v) [
      | inl e ↦ absurd (omega (arith, k, ap (stamp_of after) e))
      | inr e ↦ absurd (
          let b = q.chain.bounded j (omega (arith, size)) in
          omega (arith, k, b, moved.stamp_v, moved.stamp_other j (omega (arith, size)) e))
    ],
  )

  search-Behind :
      (b : Bool)
      → is_assigned assignments v ≡ b
      → Behind assignments after (if b then left_search v assignments o else v)
  search-Behind true e = left-Behind e
  search-Behind false e = new-Behind e

  moved-IsQueue : o.stamp < max_stamp → IsQueue assignments (move_to_front v assignments o)
  moved-IsQueue room = rw (move_to_front_links v assignments o lt ne room q.chain) (record {
    chain = relinked-Chain o.links v o.last o.stamp lt ne q.chain;
    behind = search-Behind (is_assigned assignments v) refl;
  })

  moved_last : o.stamp < max_stamp → (move_to_front v assignments o).last ≡ v
  moved_last room = ap (λ r. r.last) (move_to_front_links v assignments o lt ne room q.chain)

-- While stamps are left, bumping a variable keeps the links in the order of the stamps and every
-- variable after the place of the search assigned; the variable is then the last.
pub move_to_front-IsQueue :
    (assignments : List Value) (o : VmtfOrder) (v : Var)
    → v < length o.links
    → o.stamp < max_stamp
    → IsQueue assignments o
    → IsQueue assignments (move_to_front v assignments o)
      × ((move_to_front v assignments o).last ≡ v)
unfolding move_to_front
move_to_front-IsQueue assignments o v lt room q = elim (same_or_not v o.last) [
  | inr d ↦ (moved-IsQueue assignments o v lt d q room, moved_last assignments o v lt d q room)
  | inl e ↦
      let test : (v == o.last) ≡ true = ground arith in
      elim (Bool-cases (is_assigned assignments v)) [
        | inl a ↦ rw (test, a) (q, sym e)
        | inr a ↦
            rw (test, a)
              (
                record {
                  chain = q.chain;
                  behind = inr (
                    lt,
                    λ j hj k.
                        let l = q.chain.latest j hj in
                        absurd (omega (arith, k, l, ap (stamp_of o.links) e)),
                  );
                },
                sym e,
              )
      ]
]

-- Taking the value of a variable back, and telling the queue, keeps every variable after the place of
-- the search assigned.
pub unassign-IsQueue :
    (assignments : List Value) (o : VmtfOrder) (v : Var)
    → v < length o.links
    → v < length assignments
    → IsQueue assignments o
    → IsQueue (set assignments v unassigned) (unassign v o)
unfolding unassign
unassign-IsQueue assignments o v lt in_range q = elim q.behind [
  | inl (e, all_) ↦
      let test : (o.search == disconnected) ≡ true = ground arith in
      rw test
        (record { chain = q.chain; behind = inr (lt, λ j hj k. other j (apart j v k) (all_ j hj)) })
  | inr (inside, above) ↦
      let test : (o.search == disconnected) ≡ false = let f = q.chain.fits in ground arith in
      elim (Bool-cases (ltb (stamp_of o.links o.search) (stamp_of o.links v))) [
        | inl e ↦
            rw (test, e)
              (record {
                chain = q.chain;
                behind = inr (
                  lt,
                  λ j hj k.
                      let later : stamp_of o.links o.search < stamp_of o.links j = ground arith in
                      other j (apart j v k) (above j hj later),
                );
              })
        | inr e ↦
            rw (test, e)
              (record {
                chain = q.chain;
                behind = inr (
                  inside,
                  λ j hj k.
                      let beyond_v : stamp_of o.links v < stamp_of o.links j = ground arith in
                      other j (apart j v beyond_v) (above j hj k),
                );
              })
      ]
]
  where
    apart : (j i : ℕ) → stamp_of o.links i < stamp_of o.links j → i ≢ j
    apart j i k e = omega (arith, k, ap (stamp_of o.links) e)

    other :
        (j : ℕ)
        → v ≢ j
        → is_assigned assignments j ≡ true
        → is_assigned (set assignments v unassigned) j ≡ true
    other j d h = ap assigned (get_or-set_ne assignments v j unassigned unassigned d) ∙ h
