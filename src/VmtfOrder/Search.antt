-- ===== src/VmtfOrder/Search.antt =====
-- `VmtfOrder` of src/solver.rs finds the unassigned variable that was bumped last.
use satrap.Prelude.{
  ℕ, zero, suc, ◌<◌, ◌≤◌, true, false, Option, some, none, List, ◌==◌, length, leb, ltb,
  if◌then◌else◌, ◌≡◌, ◌⊎◌, sym, ap, ◌∙◌, arith, Bool-cases, inl, inr,
}
use satrap.Lit.{Var}
use satrap.Elimination.{Value}
use satrap.VmtfOrder.{VmtfLink, VmtfOrder, disconnected, is_assigned, seek, pick}
use satrap.VmtfOrder.Queue.{previous_of, stamp_of, Chain}

-- Every variable that was bumped after the place of the search is assigned.
abbrev pub Behind : List Value → List VmtfLink → ℕ → Type 0
Behind assignments links search =
    ((search ≡ disconnected) × ((j : ℕ) → j < length links → is_assigned assignments j ≡ true))
    ⊎ ((search < length links)
        × ((j : ℕ)
            → j < length links
            → stamp_of links search < stamp_of links j
            → is_assigned assignments j ≡ true))

pub record IsQueue (assignments : List Value) (o : VmtfOrder) : Type 0 where
  pub chain : Chain o.links o.last o.stamp
  pub behind : Behind assignments o.links o.search

module _ (assignments : List Value) (links : List VmtfLink) (last top : ℕ)
    (h : Chain links last top) where
  -- The search steps back from an assigned variable.
  pub step_back :
      (s : ℕ)
      → s < length links
      → ((j : ℕ)
          → j < length links
          → stamp_of links s < stamp_of links j
          → is_assigned assignments j ≡ true)
      → is_assigned assignments s ≡ true
      → Behind assignments links (previous_of links s)
        × ((previous_of links s ≡ disconnected)
            ⊎ (stamp_of links (previous_of links s) < stamp_of links s))
  step_back s hs above here = elim (h.earlier s hs) [
    | inl (none_, least) ↦ (inl (none_, λ j hj. from j hj (least j hj)), inl none_)
    | inr (inside, back, below, nearest) ↦ (
      inr (
        inside,
        λ j hj k. elim (Bool-cases (ltb (stamp_of links j) (stamp_of links s))) [
          | inl e ↦ let n = nearest j hj (ground arith) in absurd (omega arith)
          | inr e ↦ from j hj (ground arith)
        ],
      ),
      inr below,
    )
  ]
    where
      from :
          (j : ℕ)
          → j < length links
          → stamp_of links s ≤ stamp_of links j
          → is_assigned assignments j ≡ true
      from j hj le = elim (Bool-cases (ltb (stamp_of links s) (stamp_of links j))) [
        | inl e ↦ above j hj (ground arith)
        | inr e ↦
            let same : stamp_of links s ≡ stamp_of links j = ground arith in
            ap (is_assigned assignments) (sym (h.differ s j hs hj same)) ∙ here
      ]

  seek_lem :
      (fuel s : ℕ)
      → Behind assignments links s
      → (s ≡ disconnected) ⊎ (stamp_of links s < fuel)
      → Behind assignments links (seek fuel assignments links s)
        × ((seek fuel assignments links s ≡ disconnected)
            ⊎ ((seek fuel assignments links s < length links)
                × (is_assigned assignments (seek fuel assignments links s) ≡ false)))
  unfolding seek
  seek_lem zero s b (inl e) = (b, inl e)
  seek_lem zero s b (inr k) = absurd (omega arith)
  seek_lem (suc fuel) s (inl (e, all_)) k =
      let test : (s == disconnected) ≡ true = ground arith in rw test (inl (e, all_), inl e)
  seek_lem (suc fuel) s (inr (inside, above)) k =
      let test : (s == disconnected) ≡ false = let f = h.fits in ground arith in
      let enough : stamp_of links s < suc fuel = elim k [
        | inl e ↦ absurd (let f = h.fits in omega arith)
        | inr l ↦ l
      ] in
      elim (Bool-cases (is_assigned assignments s)) [
        | inl e ↦
            let (b, less) = step_back s inside above e in
            rw (test, e)
              (seek_lem fuel (previous_of links s) b
                (elim less [ inl d ↦ inl d | inr l ↦ inr (omega arith) ]))
        | inr e ↦ rw (test, e) (inr (inside, above), inr (inside, e))
      ]

-- What `pick` may give: the unassigned variable that was bumped last, or nothing where no variable is
-- unassigned.
abbrev pub IsLatest : List Value → List VmtfLink → Option Var → Type 0
IsLatest assignments links none = (j : ℕ) → j < length links → is_assigned assignments j ≡ true
IsLatest assignments links (some v) =
    (v < length links)
    × (is_assigned assignments v ≡ false)
    × ((j : ℕ)
        → j < length links
        → is_assigned assignments j ≡ false
        → stamp_of links j ≤ stamp_of links v)

-- `pick` gives the unassigned variable that was bumped last, or nothing if all variables are assigned;
-- it keeps the links and the invariant of the search.
pub pick-IsLatest :
    (assignments : List Value) (o : VmtfOrder)
    → IsQueue assignments o
    → IsLatest assignments o.links (pick assignments o).0
      × IsQueue assignments (pick assignments o).1
unfolding pick
pick-IsLatest assignments o q =
    let found = seek (suc (stamp_of o.links o.search)) assignments o.links o.search in
    let (b, r) =
      seek_lem assignments o.links o.last o.stamp q.chain (suc (stamp_of o.links o.search)) o.search
        q.behind (inr (omega arith)) in
    (result found b r, record { chain = q.chain; behind = b })
  where
    result :
        (found : ℕ)
        → Behind assignments o.links found
        → (found ≡ disconnected)
          ⊎ ((found < length o.links) × (is_assigned assignments found ≡ false))
        → IsLatest assignments o.links (if found == disconnected then none else some found)
    result found (inl (e, all_)) r =
        let test : (found == disconnected) ≡ true = ground arith in rw test all_
    result found (inr (inside, above)) (inl e) = absurd (let f = q.chain.fits in omega arith)
    result found (inr (inside, above)) (inr (k, free)) =
        let test : (found == disconnected) ≡ false = let f = q.chain.fits in ground arith in
        rw test (
          inside,
          free,
          λ j hj d. elim (Bool-cases (leb (stamp_of o.links j) (stamp_of o.links found))) [
            | inl e ↦ ground arith
            | inr e ↦ let a = above j hj (ground arith) in absurd (ground (arith, a, d))
          ],
        )
