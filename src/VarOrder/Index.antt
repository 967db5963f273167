-- ===== src/VarOrder/Index.antt =====
-- The positions of `VarOrder` (src/solver.rs) are those of its heap.
use satrap.Prelude.{
  ℕ, zero, suc, ◌+◌, ◌-◌, ◌*◌, ◌/◌, ◌<◌, ◌≤◌, not, ◌&&◌, ◌||◌, List, ltb, leb, ◌==◌, length, set,
  ◌≡◌, ◌≢◌, ◌⊎◌, ◌↔◌, &&_left, inl, inr, refl, sym, ap, ◌∙◌, subst, arith, length-set,
  get_or-set_self, get_or-set_ne, Bool-cases, ==_ne, ltb→lt,
}
use satrap.Lit.{Var}
use satrap.VarOrder.{
  VarOrder, no_position, at, position_of, higher_priority, swap, sift_up, child_of, sift_down,
}

-- Each entry of the heap is a variable whose position is the entry's.
abbrev pub HoldsAt : VarOrder → ℕ → Type 0
HoldsAt o p = (at o p < length o.positions) × (position_of o (at o p) ≡ p)

pub record IsIndexed (o : VarOrder) : Type 0 where
  pub bound : length o.heap ≤ no_position
  pub entries : (p : ℕ) → p < length o.heap → HoldsAt o p
  pub positions :
      (v : Var)
      → position_of o v ≢ no_position
      → (position_of o v < length o.heap) × (at o (position_of o v) ≡ v)

-- What a sift leaves of a heap: the index, the sizes and the variables in it.
pub record IsSifted (o o' : VarOrder) : Type 0 where
  pub indexed : IsIndexed o'
  pub count : length o'.heap ≡ length o.heap
  pub size : length o'.positions ≡ length o.positions
  pub members : (v : Var) → (position_of o' v ≡ no_position) ↔ (position_of o v ≡ no_position)

pub eq_or_ne : (a b : ℕ) → (a ≡ b) ⊎ (a ≢ b)
eq_or_ne a b = elim (Bool-cases (a == b)) [
  | inl same ↦ inl (ground arith)
  | inr other ↦ inr (==_ne a b other)
]

module _ (o : VarOrder) (p q : ℕ) (k : IsIndexed o) (hp : p < length o.heap)
    (hq : q < length o.heap) (ne : p ≢ q) where
  pub at-ne : (r s : ℕ) → r < length o.heap → s < length o.heap → r ≢ s → at o r ≢ at o s
  at-ne r s hr hs other same =
      other (sym (k.entries r hr).1 ∙ ap (position_of o) same ∙ (k.entries s hs).1)

  pub swap-first : at (swap p q o) p ≡ at o q
  unfolding swap
  swap-first =
      get_or-set_ne (set o.heap p (at o q)) q p (at o p) 0 (λ e. ne (sym e))
      ∙ get_or-set_self o.heap p (at o q) 0 hp

  pub swap-second : at (swap p q o) q ≡ at o p
  unfolding swap
  swap-second =
      get_or-set_self (set o.heap p (at o q)) q (at o p) 0 (rw (length-set o.heap p (at o q)) hq)

  pub swap-other : (r : ℕ) → r ≢ p → r ≢ q → at (swap p q o) r ≡ at o r
  unfolding swap
  swap-other r np nq =
      get_or-set_ne (set o.heap p (at o q)) q r (at o p) 0 (λ e. nq (sym e))
      ∙ get_or-set_ne o.heap p r (at o q) 0 (λ e. np (sym e))

  position-first : position_of (swap p q o) (at o q) ≡ p
  unfolding swap
  position-first =
      get_or-set_ne (set o.positions (at o q) p) (at o p) (at o q) q no_position
        (at-ne p q hp hq ne)
      ∙ get_or-set_self o.positions (at o q) p no_position (k.entries q hq).0

  position-second : position_of (swap p q o) (at o p) ≡ q
  unfolding swap
  position-second =
      get_or-set_self (set o.positions (at o q) p) (at o p) q no_position
        (rw (length-set o.positions (at o q) p) (k.entries p hp).0)

  position-other :
      (v : Var) → v ≢ at o p → v ≢ at o q → position_of (swap p q o) v ≡ position_of o v
  unfolding swap
  position-other v np nq =
      get_or-set_ne (set o.positions (at o q) p) (at o p) v q no_position (λ e. np (sym e))
      ∙ get_or-set_ne o.positions (at o q) v p no_position (λ e. nq (sym e))

  pub length-swap : length (swap p q o).heap ≡ length o.heap
  unfolding swap
  length-swap = length-set (set o.heap p (at o q)) q (at o p) ∙ length-set o.heap p (at o q)

  length-positions : length (swap p q o).positions ≡ length o.positions
  unfolding swap
  length-positions =
      length-set (set o.positions (at o q) p) (at o p) q ∙ length-set o.positions (at o q) p

  swap-entries : (r : ℕ) → r < length o.heap → HoldsAt (swap p q o) r
  swap-entries r hr = elim (eq_or_ne r p) [
    | inl e ↦ rw (e, swap-first, length-positions, position-first) ((k.entries q hq).0, refl)
    | inr np ↦ elim (eq_or_ne r q) [
      | inl e ↦ rw (e, swap-second, length-positions, position-second) ((k.entries p hp).0, refl)
      | inr nq ↦
          let moved = position-other (at o r) (at-ne r p hr hp np) (at-ne r q hr hq nq) in
          rw (swap-other r np nq, length-positions, moved) (k.entries r hr)
    ]
  ]

  swap-positions :
      (v : Var)
      → position_of (swap p q o) v ≢ no_position
      → (position_of (swap p q o) v < length o.heap)
        × (at (swap p q o) (position_of (swap p q o) v) ≡ v)
  swap-positions v h = elim (eq_or_ne v (at o p)) [
    | inl e ↦ rw (e, position-second, swap-second) (hq, refl)
    | inr np ↦ elim (eq_or_ne v (at o q)) [
      | inl e ↦ rw (e, position-first, swap-first) (hp, refl)
      | inr nq ↦
          let same = position-other v np nq in
          let (inside, entry) = k.positions v (λ e. h (same ∙ e)) in
          let kept =
            swap-other (position_of o v) (λ e. np (sym entry ∙ ap (at o) e))
              (λ e. nq (sym entry ∙ ap (at o) e)) in
          rw same (inside, kept ∙ entry)
    ]
  ]

  pub swap-IsIndexed : IsIndexed (swap p q o)
  swap-IsIndexed = record {
    bound = rw length-swap k.bound;
    entries = λ r hr. swap-entries r (subst (λ n. r < n) length-swap hr);
    positions = λ v h. rw length-swap (swap-positions v h);
  }

  -- A variable is in the heap after a swap exactly if it was before.
  swap-member :
      (v : Var) → (position_of (swap p q o) v ≡ no_position) ↔ (position_of o v ≡ no_position)
  swap-member v = elim (eq_or_ne v (at o p)) [
    | inl e ↦
        let b = k.bound in
        (
          λ h. absurd (below q hq (sym (ap (position_of (swap p q o)) e ∙ position-second) ∙ h)),
          λ h. absurd (below p hp (sym (ap (position_of o) e ∙ (k.entries p hp).1) ∙ h)),
        )
    | inr np ↦ elim (eq_or_ne v (at o q)) [
      | inl e ↦ (
        λ h. absurd (below p hp (sym (ap (position_of (swap p q o)) e ∙ position-first) ∙ h)),
        λ h. absurd (below q hq (sym (ap (position_of o) e ∙ (k.entries q hq).1) ∙ h)),
      )
      | inr nq ↦ (λ h. sym (position-other v np nq) ∙ h, λ h. position-other v np nq ∙ h)
    ]
  ]
    where
      below : (r : ℕ) → r < length o.heap → r ≢ no_position
      below r hr e = let b = k.bound in absurd (omega (arith, e))

  pub swap-IsSifted : IsSifted o (swap p q o)
  swap-IsSifted = record {
    indexed = swap-IsIndexed;
    count = length-swap;
    size = length-positions;
    members = swap-member;
  }

IsSifted-trans : (o o' o'' : VarOrder) → IsSifted o o' → IsSifted o' o'' → IsSifted o o''
IsSifted-trans o o' o'' s t = record {
  indexed = t.indexed;
  count = t.count ∙ s.count;
  size = t.size ∙ s.size;
  members =
      λ v. (λ h. (s.members v).0 ((t.members v).0 h), λ h. (t.members v).1 ((s.members v).1 h));
}

pub IsSifted-refl : (o : VarOrder) → IsIndexed o → IsSifted o o
IsSifted-refl o k = record {
  indexed = k;
  count = refl;
  size = refl;
  members = λ v. (λ h. h, λ h. h);
}

pub sift_up-IsSifted :
    (fuel : ℕ) (activity : List ℕ) (p : ℕ) (o : VarOrder)
    → IsIndexed o
    → p < length o.heap
    → IsSifted o (sift_up fuel activity p o)
unfolding sift_up
sift_up-IsSifted zero activity p o k h = IsSifted-refl o k
sift_up-IsSifted (suc fuel) activity p o k h =
    let parent = (p - 1) / 2 in
    elim (Bool-cases (p == 0 || not (higher_priority activity (at o p) (at o parent)))) [
      | inl stop ↦ rw stop (IsSifted-refl o k)
      | inr go ↦
          let up : parent < p = ground arith in
          let once = swap-IsSifted o p parent k h (omega arith) (omega arith) in
          rw go (
            IsSifted-trans o (swap p parent o) _ once (
              sift_up-IsSifted fuel activity parent (swap p parent o) once.indexed
                (rw once.count (omega arith))))
    ]

pub child_of-inside :
    (activity : List ℕ) (p : ℕ) (o : VarOrder)
    → p * 2 + 1 < length o.heap
    → (child_of activity p o < length o.heap) × (p < child_of activity p o)
unfolding child_of
child_of-inside activity p o h =
    elim (Bool-cases (
      ltb (p * 2 + 1 + 1) (length o.heap)
      && higher_priority activity (at o (p * 2 + 1 + 1)) (at o (p * 2 + 1)))) [
        | inl right ↦ let inside = ltb→lt _ _ (&&_left _ _ right) in rw right (inside, omega arith)
        | inr left ↦ rw left (h, omega arith)
      ]

pub sift_down-IsSifted :
    (fuel : ℕ) (activity : List ℕ) (p : ℕ) (o : VarOrder)
    → IsIndexed o
    → p < length o.heap
    → IsSifted o (sift_down fuel activity p o)
unfolding sift_down
sift_down-IsSifted zero activity p o k h = IsSifted-refl o k
sift_down-IsSifted (suc fuel) activity p o k h =
    let child = child_of activity p o in
    elim (Bool-cases
      (leb (length o.heap) (p * 2 + 1) || not (higher_priority activity (at o child) (at o p)))) [
        | inl stop ↦ rw stop (IsSifted-refl o k)
        | inr go ↦
            let (inside, below) = child_of-inside activity p o (ground arith) in
            let once = swap-IsSifted o p child k h inside (omega arith) in
            rw go (
              IsSifted-trans o (swap p child o) _ once (
                sift_down-IsSifted fuel activity child (swap p child o) once.indexed
                  (rw once.count inside)))
      ]
