-- ===== src/VarOrder/Operations.antt =====
-- The operations of `VarOrder` (src/solver.rs) keep the index, and change the variables in the heap
-- as they should.
use satrap.Prelude.{
  ℕ, ◌<◌, List, [], ◌∷◌, ltb, ◌==◌, length, get_or, ◌≡◌, ◌≢◌, ◌↔◌, inl, inr, refl, sym, ap, ◌∙◌,
  arith, length-set, length-append, get_or-set_self, get_or-set_ne, get_or-append_end,
  get_or-append_left, Bool-cases, ==_ne,
}
use satrap.Lit.{Var}
use satrap.VarOrder.{VarOrder, no_position, at, position_of, append, insert, update}
use satrap.VarOrder.Index.{
  IsIndexed, IsSifted, eq_or_ne, IsSifted-refl, sift_up-IsSifted, sift_down-IsSifted,
}

module _ (o : VarOrder) (v : Var) (k : IsIndexed o) (absent : position_of o v ≡ no_position)
    (known : v < length o.positions) (room : length o.heap < no_position) where
  pub at-append : (p : ℕ) → p < length o.heap → at (append v o) p ≡ at o p
  at-append p h = get_or-append_left o.heap (v ∷ []) p 0 h

  position-append : (w : Var) → w ≢ v → position_of (append v o) w ≡ position_of o w
  position-append w ne = get_or-set_ne o.positions v w (length o.heap) no_position (λ e. ne (sym e))

  position-new : position_of (append v o) v ≡ length o.heap
  position-new = get_or-set_self o.positions v (length o.heap) no_position known

  entry-ne : (p : ℕ) → p < length o.heap → at o p ≢ v
  entry-ne p h e =
      let b = k.bound in
      let same = sym (k.entries p h).1 ∙ ap (position_of o) e ∙ absent in
      absurd (omega (arith, same))

  pub append-IsIndexed : IsIndexed (append v o)
  append-IsIndexed = record {
    bound = omega (arith, length-append o.heap (v ∷ []));
    entries = λ p h. elim (eq_or_ne p (length o.heap)) [
      | inl e ↦
          rw
            (
              e,
              get_or-append_end o.heap v [] 0,
              length-set o.positions v (length o.heap),
              position-new,
            )
            (known, refl)
      | inr ne ↦
          let inside : p < length o.heap = omega (arith, length-append o.heap (v ∷ [])) in
          rw
            (
              at-append p inside,
              length-set o.positions v (length o.heap),
              position-append (at o p) (entry-ne p inside),
            )
            (k.entries p inside)
    ];
    positions = λ w h. elim (eq_or_ne w v) [
      | inl e ↦
          rw (e, position-new, get_or-append_end o.heap v [] 0)
            (omega (arith, length-append o.heap (v ∷ [])), refl)
      | inr ne ↦
          let (inside, entry) = k.positions w (λ e. h (position-append w ne ∙ e)) in
          rw (position-append w ne, at-append (position_of o w) inside)
            (omega (arith, length-append o.heap (v ∷ [])), entry)
    ];
  }

-- Inserting a variable, where the heap has room, keeps the index; the variable is then in the heap,
-- and each other variable is in it exactly if it was before.
pub insert-IsIndexed :
    (activity : List ℕ) (v w : Var) (o : VarOrder)
    → IsIndexed o
    → v < length o.positions
    → length o.heap < no_position
    → w ≢ v
    → IsIndexed (insert activity v o)
      × (position_of (insert activity v o) v ≢ no_position)
      × ((position_of (insert activity v o) w ≡ no_position) ↔ (position_of o w ≡ no_position))
unfolding insert
insert-IsIndexed activity v w o k known room ne =
    elim (Bool-cases (position_of o v == no_position)) [
      | inr present ↦ rw present (k, ==_ne (position_of o v) no_position present, (λ h. h, λ h. h))
      | inl absent ↦
          let free : position_of o v ≡ no_position = ground arith in
          let grown = append-IsIndexed o v k free known room in
          let stays = position-append o v k free known room w ne in
          let s =
            sift_up-IsSifted (length o.heap) activity (length o.heap) (append v o) grown
              (omega (arith, length-append o.heap (v ∷ []))) in
          rw absent (
            s.indexed,
            (λ h.
                let e = sym (position-new o v k free known room) ∙ (s.members v).0 h in
                absurd (omega (arith, e))),
            (λ h. sym stays ∙ (s.members w).0 h, λ h. (s.members w).1 (stays ∙ h)),
          )
    ]

-- A change of an activity keeps the index and the variables in the heap.
pub update-IsSifted :
    (activity : List ℕ) (v : Var) (old : ℕ) (o : VarOrder)
    → IsIndexed o
    → IsSifted o (update activity v old o)
unfolding update
update-IsSifted activity v old o k = elim (Bool-cases (position_of o v == no_position)) [
  | inl absent ↦ rw absent (IsSifted-refl o k)
  | inr present ↦
      let (inside, entry) = k.positions v (==_ne (position_of o v) no_position present) in
      elim (Bool-cases (ltb old (get_or activity v 0))) [
        | inl up ↦ rw (present, up) (sift_up-IsSifted _ activity (position_of o v) o k inside)
        | inr not_up ↦ elim (Bool-cases (ltb (get_or activity v 0) old)) [
          | inl down ↦
              rw (present, not_up, down)
                (sift_down-IsSifted _ activity (position_of o v) o k inside)
          | inr equal ↦ rw (present, not_up, equal) (IsSifted-refl o k)
        ]
      ]
]
