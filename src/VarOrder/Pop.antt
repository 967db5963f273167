-- ===== src/VarOrder/Pop.antt =====
-- `VarOrder::pop_max` (src/solver.rs) takes one variable out.
use satrap.Prelude.{
  ℕ, zero, suc, ◌<◌, some, List, [], ◌∷◌, length, get_or, set, take, ◌≡◌, ◌≢◌, ◌↔◌, inl, inr, refl,
  sym, ap, ◌∙◌, arith, length-set, length-take, get_or-set_self, get_or-set_ne, get_or-take,
}
use satrap.Lit.{Var}
use satrap.VarOrder.{VarOrder, no_position, at, position_of, pop_max}
use satrap.VarOrder.Index.{IsIndexed, IsSifted, HoldsAt, eq_or_ne, sift_down-IsSifted}

-- The variable is out, the others are as they were, and the index holds.
abbrev pub IsPopped : VarOrder → Var → VarOrder → Type 0
IsPopped o maximum o' =
    IsIndexed o'
    × (position_of o' maximum ≡ no_position)
    × ((w : Var) → w ≢ maximum → (position_of o' w ≡ no_position) ↔ (position_of o w ≡ no_position))

-- A heap of one variable.
module _ (maximum : Var) (positions : List ℕ)
    (k : IsIndexed (record { heap = maximum ∷ []; positions = positions })) where
  only-IsPopped :
      IsPopped
        (record { heap = maximum ∷ []; positions = positions })
        maximum
        (record { heap = []; positions = set positions maximum no_position })
  only-IsPopped =
      let out =
        get_or-set_self positions maximum no_position no_position (k.entries 0 (omega arith)).0 in
      (
        record {
          bound = omega arith;
          entries = λ p h. elim h [ ];
          positions = λ w h. elim (eq_or_ne w maximum) [
            | inl e ↦ absurd (h (rw e out))
            | inr ne ↦
                let stays =
                  get_or-set_ne positions maximum w no_position no_position (λ e. ne (sym e)) in
                let (inside, entry) = k.positions w (λ e. h (stays ∙ e)) in
                let first : get_or positions w no_position ≡ 0 = omega arith in
                absurd (ne (sym entry ∙ ap (λ x. get_or (maximum ∷ []) x 0) first))
          ];
        },
        out,
        λ w ne.
            let stays =
              get_or-set_ne positions maximum w no_position no_position (λ e. ne (sym e)) in
            (λ h. sym stays ∙ h, λ h. stays ∙ h),
      )

-- A heap of more: the last variable moves to the front.
module _ (maximum y : Var) (ys : List Var) (positions : List ℕ)
    (k : IsIndexed (record { heap = maximum ∷ y ∷ ys; positions = positions })) where
  abbrev pub whole : VarOrder
  whole = record { heap = maximum ∷ y ∷ ys; positions = positions }

  abbrev pub last : Var
  last = get_or (y ∷ ys) (length ys) 0

  abbrev pub moved : VarOrder
  moved = record {
    heap = last ∷ take (length ys) (y ∷ ys);
    positions = set (set positions maximum no_position) last 0;
  }

  entry-ne :
      (p q : ℕ) → p < length whole.heap → q < length whole.heap → p ≢ q → at whole p ≢ at whole q
  entry-ne p q hp hq ne same =
      ne (sym (k.entries p hp).1 ∙ ap (position_of whole) same ∙ (k.entries q hq).1)

  last-ne : last ≢ maximum
  last-ne = entry-ne (suc (length ys)) 0 (omega arith) (omega arith) (omega arith)

  pub length-moved : length moved.heap ≡ suc (length ys)
  length-moved = ap suc (length-take (length ys) (y ∷ ys) (omega arith))

  pub at-moved : (p : ℕ) → p < length ys → at moved (suc p) ≡ at whole (suc p)
  at-moved p h = get_or-take (length ys) (y ∷ ys) p 0 h

  position-out : position_of moved maximum ≡ no_position
  position-out =
      get_or-set_ne (set positions maximum no_position) last maximum 0 no_position last-ne
      ∙ get_or-set_self positions maximum no_position no_position (k.entries 0 (omega arith)).0

  position-last : position_of moved last ≡ 0
  position-last =
      get_or-set_self (set positions maximum no_position) last 0 no_position (
        rw (length-set positions maximum no_position) (k.entries (suc (length ys)) (omega arith)).0)

  position-stays : (w : Var) → w ≢ maximum → w ≢ last → position_of moved w ≡ position_of whole w
  position-stays w nm nl =
      get_or-set_ne (set positions maximum no_position) last w 0 no_position (λ e. nl (sym e))
      ∙ get_or-set_ne positions maximum w no_position no_position (λ e. nm (sym e))

  size-moved : length moved.positions ≡ length positions
  size-moved =
      length-set (set positions maximum no_position) last 0
      ∙ length-set positions maximum no_position

  moved-entries : (p : ℕ) → p < length moved.heap → HoldsAt moved p
  moved-entries zero h =
      rw (size-moved, position-last) ((k.entries (suc (length ys)) (omega arith)).0, refl)
  moved-entries (suc p) h =
      let inside : p < length ys = omega (arith, length-moved) in
      let stays =
        position-stays (at whole (suc p))
          (entry-ne (suc p) 0 (omega arith) (omega arith) (omega arith))
          (entry-ne (suc p) (suc (length ys)) (omega arith) (omega arith) (omega arith)) in
      rw (at-moved p inside, size-moved, stays) (k.entries (suc p) (omega arith))

  moved-positions :
      (w : Var)
      → position_of moved w ≢ no_position
      → (position_of moved w < length moved.heap) × (at moved (position_of moved w) ≡ w)
  moved-positions w h = elim (eq_or_ne w maximum) [
    | inl e ↦ absurd (h (rw e position-out))
    | inr nm ↦ elim (eq_or_ne w last) [
      | inl e ↦ rw (e, position-last) (omega arith, refl)
      | inr nl ↦
          let same = position-stays w nm nl in
          let (inside, entry) = k.positions w (λ e. h (same ∙ e)) in
          rw same (stays w nm nl (position_of whole w) inside entry)
    ]
  ]
    where
      stays :
          (w : Var)
          → w ≢ maximum
          → w ≢ last
          → (p : ℕ) → p < length whole.heap
          → at whole p ≡ w
          → (p < length moved.heap) × (at moved p ≡ w)
      stays w nm nl zero h e = absurd (nm (sym e))
      stays w nm nl (suc p) h e = elim (eq_or_ne p (length ys)) [
        | inl end ↦ absurd (nl (sym e ∙ ap (λ x. get_or (y ∷ ys) x 0) end))
        | inr ne ↦
            let inside : p < length ys = omega arith in
            (omega (arith, length-moved), at-moved p inside ∙ e)
      ]

  pub moved-IsPopped : IsPopped whole maximum moved
  moved-IsPopped = (
    record {
      bound = let b = k.bound in omega (arith, length-moved);
      entries = moved-entries;
      positions = moved-positions;
    },
    position-out,
    λ w nm. elim (eq_or_ne w last) [
      | inl e ↦
          let b = k.bound in
          let here = (k.entries (suc (length ys)) (omega arith)).1 in
          (
            λ h. absurd (omega (arith, sym position-last ∙ ap (position_of moved) (sym e) ∙ h)),
            λ h. absurd (omega (arith, sym here ∙ ap (position_of whole) (sym e) ∙ h)),
          )
      | inr nl ↦ (λ h. sym (position-stays w nm nl) ∙ h, λ h. position-stays w nm nl ∙ h)
    ],
  )

IsPopped-sifted :
    (o o' o'' : VarOrder) (maximum : Var)
    → IsPopped o maximum o'
    → IsSifted o' o''
    → IsPopped o maximum o''
IsPopped-sifted o o' o'' maximum (k, out, others) s = (
  s.indexed,
  (s.members maximum).1 out,
  λ w ne. (λ h. (others w ne).0 ((s.members w).0 h), λ h. (s.members w).1 ((others w ne).1 h)),
)

pub first :
    (activity : List ℕ) (maximum : Var) (rest : List Var) (positions : List ℕ)
    → (pop_max activity (record { heap = maximum ∷ rest; positions = positions })).0 ≡ some maximum
unfolding pop_max
first activity maximum rest positions = refl

pub pop-IsPopped :
    (activity : List ℕ) (maximum : Var) (rest : List Var) (positions : List ℕ)
    → IsIndexed (record { heap = maximum ∷ rest; positions = positions })
    → IsPopped
        (record { heap = maximum ∷ rest; positions = positions })
        maximum
        (pop_max activity (record { heap = maximum ∷ rest; positions = positions })).1
unfolding pop_max
pop-IsPopped activity maximum [] positions k = only-IsPopped maximum positions k
pop-IsPopped activity maximum (y ∷ ys) positions k =
    let first = moved-IsPopped maximum y ys positions k in
    let o' : VarOrder = moved maximum y ys positions k in
    IsPopped-sifted (whole maximum y ys positions k) o' _ maximum first (
      sift_down-IsSifted (length o'.heap) activity 0 o' first.0
        (omega (arith, length-moved maximum y ys positions k)))

-- Popping a heap that is not empty gives its first variable, which is then out of the heap; each
-- other variable is in the heap exactly if it was before, and the index is kept.
pub pop_max-IsIndexed :
    (activity : List ℕ) (o : VarOrder) (w : Var)
    → IsIndexed o
    → 0 < length o.heap
    → w ≢ at o 0
    → ((pop_max activity o).0 ≡ some (at o 0))
      × IsIndexed (pop_max activity o).1
      × (position_of (pop_max activity o).1 (at o 0) ≡ no_position)
      × ((position_of (pop_max activity o).1 w ≡ no_position) ↔ (position_of o w ≡ no_position))
pop_max-IsIndexed activity o w k h ne = go o.heap o.positions k h ne
  where
    go :
        (heap : List Var) (positions : List ℕ)
        → IsIndexed (record { heap = heap; positions = positions })
        → 0 < length heap
        → w ≢ get_or heap 0 0
        → ((pop_max activity (record { heap = heap; positions = positions })).0
            ≡ some (get_or heap 0 0))
          × IsIndexed (pop_max activity (record { heap = heap; positions = positions })).1
          × (position_of
                (pop_max activity (record { heap = heap; positions = positions })).1
                (get_or heap 0 0)
              ≡ no_position)
          × ((position_of (pop_max activity (record { heap = heap; positions = positions })).1 w
                ≡ no_position)
              ↔ (get_or positions w no_position ≡ no_position))
    go [] positions k h ne = elim h [ ]
    go (maximum ∷ rest) positions k h ne =
        let (indexed, out, others) = pop-IsPopped activity maximum rest positions k in
        (first activity maximum rest positions, indexed, out, others w ne)
