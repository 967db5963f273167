-- ===== src/Trail/Undo.antt =====
-- Backtracking undoes what came after a decision (src/solver.rs).
use mathlib.Core.List.{append_assoc}
use satrap.Prelude.{
  take, take-append, get_or-append_end, ℕ, zero, suc, ◌-◌, ◌<◌, ◌≤◌, Bool, true, false, not, ◌||◌,
  Option, none, List, [], ◌∷◌, ◌++◌, leb, length, get_or, set, if◌then◌else◌, ◌≡◌, ◌≢◌, refl, sym,
  ap, ◌∙◌, subst, arith, All, length-append, length-set, get_or-set_self, get_or-set_ne, Bool-cases,
  inl, inr, ◌==◌,
}
use satrap.Lit.{Lit, Var, var, is_positive}
use satrap.Elimination.{Value, unassigned, truth, falsity, value_of}
use satrap.Reference.{ClauseRef}
use satrap.Trail.{
  Assignment, Search, decision_level, new_level, assign, enqueue, enqueue_on, record_best_phase,
  pop, unwind, cancel_until,
}

-- What the search does between a decision and a backtrack: it opens levels, assigns literals and
-- propagates.
pub data Step : Type 0 where
  decide : Step
  put : Bool → Lit → Option ClauseRef → Step
  propagated : ℕ → Step

unfoldable pub step : Step → Search → Search
step decide s = new_level s
step (put save_phase l reason) s = (enqueue save_phase l reason s).1
step (propagated head) s = record s { propagation_head = head }

unfoldable pub run : List Step → Search → Search
unfolding step
run [] s = s
run (x ∷ xs) s = run xs (step x s)

-- The literals of a step are of variables that the solver has.
abbrev pub IsStep : ℕ → Step → Type 0
IsStep n decide = Unit
IsStep n (put save_phase l reason) = var l < n
IsStep n (propagated head) = Unit

-- A variable without a value has level 0 and no reason.
abbrev pub IsClean : Assignment → Type 0
IsClean a =
    (v : Var)
    → get_or a.assignments v unassigned ≡ unassigned
    → (get_or a.levels v 0 ≡ 0) × (get_or a.reasons v none ≡ none)

set_back {ℓ} :
    {A : Type ℓ} (xs : List A) (i : ℕ) (x d : A) → get_or xs i d ≡ d → set (set xs i x) i d ≡ xs
set_back [] i x d h = refl
set_back (y ∷ xs) zero x d h = ap (λ z. z ∷ xs) (sym h)
set_back (y ∷ xs) (suc i) x d h = ap (λ zs. y ∷ zs) (set_back xs i x d h)

-- Popping a literal undoes its assignment.
pop-assign :
    (a : Assignment) (l : Lit) (reason : Option ClauseRef) (level : ℕ)
    → IsClean a
    → get_or a.assignments (var l) unassigned ≡ unassigned
    → pop (assign l reason level a) a.trail l ≡ a
unfolding pop assign
pop-assign a l reason level clean free =
    let (zero_level, no_reason) = clean (var l) free in
    rw
      (
        set_back a.assignments (var l) (if is_positive l then truth else falsity) unassigned free,
        set_back a.levels (var l) level 0 zero_level,
        set_back a.reasons (var l) reason none no_reason,
      )
      refl

value_of-unassigned :
    (assignments : List Value) (l : Lit)
    → value_of assignments l ≡ unassigned
    → get_or assignments (var l) unassigned ≡ unassigned
unfolding value_of
value_of-unassigned assignments l h = ground arith

sign-ne : (b : Bool) → (if b then truth else falsity) ≢ unassigned
sign-ne true h = absurd (ground arith)
sign-ne false h = absurd (ground arith)

assign-IsClean :
    (a : Assignment) (l : Lit) (reason : Option ClauseRef) (level : ℕ)
    → var l < length a.assignments
    → IsClean a
    → IsClean (assign l reason level a)
unfolding assign
assign-IsClean a l reason level inside clean v free = elim (Bool-cases (var l == v)) [
  | inl same ↦
      let e : var l ≡ v = ground arith in
      absurd (
        sign-ne (is_positive l) (
          sym (
            get_or-set_self a.assignments (var l) (if is_positive l then truth else falsity)
              unassigned inside)
          ∙ subst
              (λ x.
                get_or (set a.assignments (var l) (if is_positive l then truth else falsity)) x
                  unassigned
                ≡ unassigned)
              (sym e) free))
  | inr other ↦
      let ne : var l ≢ v = ground arith in
      let here =
        sym (
          get_or-set_ne a.assignments (var l) v (if is_positive l then truth else falsity)
            unassigned ne)
        ∙ free in
      let (zero_level, no_reason) = clean v here in
      (
        get_or-set_ne a.levels (var l) v level 0 ne ∙ zero_level,
        get_or-set_ne a.reasons (var l) v reason none ne ∙ no_reason,
      )
]

-- The search has come from `s` by opening a level and going on from there.
pub record IsAfter (s : Search) (s' : Search) : Type 0 where
  pub fresh : List Lit
  pub trail : s'.assignment.trail ≡ fresh ++ s.assignment.trail
  pub more : List ℕ
  pub limits : s'.trail_limits ≡ s.trail_limits ++ length s.assignment.trail ∷ more
  pub count : length s'.assignment.assignments ≡ length s.assignment.assignments
  pub clean : IsClean s'.assignment
  pub undone : unwind (length fresh) s'.assignment ≡ s.assignment

abbrev pub Restores : Search → Search → Type 0
Restores s c =
    (c.assignment ≡ s.assignment)
    × (c.trail_limits ≡ s.trail_limits)
    × (c.propagation_head ≤ length s.assignment.trail)

-- Recording the best phases leaves the rest as it is.
best-same :
    (best : Bool) (s : Search)
    → let b = if best then record_best_phase s else s in
      (b.assignment ≡ s.assignment)
      × (b.trail_limits ≡ s.trail_limits)
      × (b.propagation_head ≡ s.propagation_head)
unfolding record_best_phase
best-same false s = (refl, refl, refl)
best-same true s =
    elim (Bool-cases
      (not s.systematic_rephasing || leb (length s.assignment.trail) s.best_assigned)) [
        | inl skip ↦ rw skip (refl, refl, refl)
        | inr best ↦ rw best (refl, refl, refl)
      ]

module _ (s : Search) where
  new_level-IsAfter : IsClean s.assignment → IsAfter s (new_level s)
  unfolding new_level unwind
  new_level-IsAfter clean = record {
    fresh = [];
    trail = refl;
    more = [];
    limits = refl;
    count = refl;
    clean = clean;
    undone = refl;
  }

  enqueue-IsAfter :
      (s' : Search) (save_phase : Bool) (l : Lit) (reason : Option ClauseRef)
      → var l < length s.assignment.assignments
      → IsAfter s s'
      → IsAfter s (enqueue save_phase l reason s').1
  unfolding enqueue enqueue_on assign unwind
  enqueue-IsAfter s' save_phase l reason inside k = go (value_of s'.assignment.assignments l) refl
    where
      go :
          (x : Value)
          → value_of s'.assignment.assignments l ≡ x
          → IsAfter s (enqueue_on x save_phase l reason s').1
      go truth e = k
      go falsity e = k
      go unassigned e =
          let free = value_of-unassigned s'.assignment.assignments l e in
          record {
            fresh = l ∷ k.fresh;
            trail = ap (λ (x : List Lit). l ∷ x) k.trail;
            more = k.more;
            limits = k.limits;
            count =
                length-set s'.assignment.assignments (var l)
                  (if is_positive l then truth else falsity)
                ∙ k.count;
            clean =
                assign-IsClean s'.assignment l reason (decision_level s') (rw k.count inside)
                  k.clean;
            undone =
                ap (unwind (length k.fresh))
                  (pop-assign s'.assignment l reason (decision_level s') k.clean free)
                ∙ k.undone;
          }

  step-IsAfter :
      (s' : Search) (x : Step)
      → IsStep (length s.assignment.assignments) x
      → IsAfter s s'
      → IsAfter s (step x s')
  unfolding step new_level
  step-IsAfter s' decide h k = record {
    fresh = k.fresh;
    trail = k.trail;
    more = k.more ++ length s'.assignment.trail ∷ [];
    limits =
        ap (λ (x : List ℕ). x ++ length s'.assignment.trail ∷ []) k.limits
        ∙ append_assoc s.trail_limits (length s.assignment.trail ∷ k.more)
            (length s'.assignment.trail ∷ []);
    count = k.count;
    clean = k.clean;
    undone = k.undone;
  }
  step-IsAfter s' (put save_phase l reason) h k = enqueue-IsAfter s' save_phase l reason h k
  step-IsAfter s' (propagated head) h k = record {
    fresh = k.fresh;
    trail = k.trail;
    more = k.more;
    limits = k.limits;
    count = k.count;
    clean = k.clean;
    undone = k.undone;
  }

  run-IsAfter :
      (xs : List Step) (s' : Search)
      → All (IsStep (length s.assignment.assignments)) xs
      → IsAfter s s'
      → IsAfter s (run xs s')
  unfolding run
  run-IsAfter [] s' h k = k
  run-IsAfter (x ∷ xs) s' (p, h) k = run-IsAfter xs (step x s') h (step-IsAfter s' x p k)

  cancel-IsAfter :
      (best : Bool) (s' : Search)
      → IsAfter s s'
      → Restores s (cancel_until best (decision_level s) s')
  unfolding cancel_until record_best_phase
  cancel-IsAfter best s' k =
      let deeper : leb (length s'.trail_limits) (length s.trail_limits) ≡ false =
        rw k.limits
          (ground (arith, length-append s.trail_limits (length s.assignment.trail ∷ k.more))) in
      let target : get_or s'.trail_limits (length s.trail_limits) 0 ≡ length s.assignment.trail =
        rw k.limits (get_or-append_end s.trail_limits (length s.assignment.trail) k.more 0) in
      let kept : take (length s.trail_limits) s'.trail_limits ≡ s.trail_limits =
        rw k.limits (take-append s.trail_limits (length s.assignment.trail ∷ k.more)) in
      let count : length s'.assignment.trail - length s.assignment.trail ≡ length k.fresh =
        rw k.trail (omega (arith, length-append k.fresh s.assignment.trail)) in
      let (same, limits, head) = best-same best s' in
      rw deeper (rw (same, limits, target, kept, count, k.undone) (refl, refl, omega arith))

-- Whatever the search does after a decision, to open levels, to assign literals with a phase saved
-- or not and to propagate, backtracking to the level before restores the assignment, the levels,
-- the reasons, the trail and its limits, and leaves no more propagated than the trail holds.
pub cancel_until-run :
    (s : Search) (xs : List Step) (best : Bool)
    → IsClean s.assignment
    → All (IsStep (length s.assignment.assignments)) xs
    → Restores s (cancel_until best (decision_level s) (run xs (new_level s)))
cancel_until-run s xs best clean h =
    cancel-IsAfter s best (run xs (new_level s))
      (run-IsAfter s xs (new_level s) h (new_level-IsAfter s clean))
