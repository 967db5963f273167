-- ===== src/Elimination/PairLoop.antt =====
-- The pair loop of `eliminate_variables` (src/solver.rs): it covers every pair, within its limits.
use satrap.Prelude.{
  ℕ, Bool, true, ◌&&◌, ◌||◌, List, [], ◌∷◌, ◌++◌, Option, none, some, all, ◌≡◌, refl, arith, All,
  All-append, Bool-cases, inl, inr, sym, ◌∙◌, subst, ltb→le, &&_left, ◌≤◌, length, ltb,
}
use satrap.Lit.{Var, Lit}
use satrap.Clause.{Valuation, satisfies, satisfies_all}
use satrap.Elimination.{
  Value, elimination_resolvent, Pairs, resolved, exhausted, rejected, and_then, keep_resolvent,
  try_pair, try_clause, resolve_pairs, resolvent_length_limit, saturating_add,
}
use satrap.Elimination.Values.{Agrees, side}
use satrap.Elimination.Resolvent.{resolvent_side}

pub all-append {ℓ} :
    {A : Type ℓ} (p : A → Bool) (xs ys : List A) → all p (xs ++ ys) ≡ (all p xs && all p ys)
all-append p [] ys = refl
all-append p (x ∷ xs) ys = ground (arith, all-append p xs ys)

-- The limits that hold throughout: the literal touches, the number of resolvents, their lengths.
abbrev pub Within : ℕ → ℕ → ℕ → List (List Lit) → Type 0
Within budget removed_count touches resolvents =
    (touches ≤ budget)
    × (length resolvents ≤ removed_count)
    × All (λ r. length r ≤ resolvent_length_limit) resolvents

abbrev pub Covers : Valuation → Var → List (List Lit) → List (List Lit) → Type 0
Covers m v positives negatives =
    All (λ p. All (λ n. (side m v p || side m v n) ≡ true) negatives) positives

module _ (m : Valuation) (assignments : List Value) (v : Var) (budget removed_count : ℕ)
    (agrees : Agrees m assignments) where
  -- From the loop state before to the one after, for what has been covered in between.
  abbrev Advances : Type 0 → ℕ → List (List Lit) → Pairs → Type 0
  Advances covered touches resolvents (exhausted t) = Unit
  Advances covered touches resolvents (rejected t) = Unit
  Advances covered touches resolvents (resolved t rs) =
      (Within budget removed_count touches resolvents → Within budget removed_count t rs)
      × (satisfies_all m rs ≡ true → (satisfies_all m resolvents ≡ true) × covered)

  keep-Advances :
      (p n : List Lit) (touches total : ℕ) (resolvents : List (List Lit)) (o : Option (List Lit))
      → elimination_resolvent assignments p n v ≡ o
      → total ≤ budget
      → Advances
          ((side m v p || side m v n) ≡ true)
          touches
          resolvents
          (keep_resolvent removed_count o total resolvents)
  keep-Advances p n touches total resolvents none e fits =
      (λ w. (fits, w.1, w.2), λ h. (h, resolvent_side m assignments p n v agrees (λ r f. cc)))
  keep-Advances p n touches total resolvents (some r) e fits =
      elim (Bool-cases (ltb resolvent_length_limit (length r))) [
        | inl long ↦ rw long tt
        | inr short ↦
            rw short (elim (Bool-cases (ltb removed_count (length (resolvents ++ r ∷ [])))) [
              | inl many ↦ rw many tt
              | inr few ↦ rw few (
                  (
                    λ w. (
                      fits,
                      ltb→le _ _ few,
                      All-append _ resolvents (r ∷ []) w.2 (ltb→le _ _ short, tt),
                    ),
                    λ h.
                        let parts = sym (all-append (satisfies m) resolvents (r ∷ [])) ∙ h in
                        let new : satisfies m r ≡ true = ground (arith, parts) in
                        (
                          &&_left _ _ parts,
                          resolvent_side m assignments p n v agrees
                              (λ s f. subst (λ o. Outcome o) (sym e ∙ f) new),
                        ),
                  ))
            ])
      ]
    where
      Outcome : Option (List Lit) → Type 0
      Outcome none = Unit
      Outcome (some c) = satisfies m c ≡ true

  try_pair-Advances :
      (p n : List Lit) (touches : ℕ) (resolvents : List (List Lit))
      → Advances
          ((side m v p || side m v n) ≡ true)
          touches
          resolvents
          (try_pair assignments v budget removed_count p n touches resolvents)
  unfolding try_pair
  try_pair-Advances p n touches resolvents =
      let total = saturating_add touches (saturating_add (length p) (length n)) in
      elim (Bool-cases (ltb budget total)) [
        | inl over ↦ rw over tt
        | inr fits ↦ rw fits (
            keep-Advances p n touches total resolvents (elimination_resolvent assignments p n v)
              refl (ltb→le _ _ fits))
      ]

  -- A loop body that covers its share, then a rest that covers its own.
  and_then-Advances :
      (first rest : Type 0) (touches : ℕ) (resolvents : List (List Lit)) (step : Pairs)
      (go : ℕ → List (List Lit) → Pairs)
      → Advances first touches resolvents step
      → ((t : ℕ) (rs : List (List Lit)) → Advances rest t rs (go t rs))
      → Advances (first × rest) touches resolvents (and_then step go)
  and_then-Advances first rest touches resolvents (exhausted t) go h k = tt
  and_then-Advances first rest touches resolvents (rejected t) go h k = tt
  and_then-Advances first rest touches resolvents (resolved t rs) go (within, covers) k =
      compose (go t rs) (k t rs)
    where
      compose :
          (end : Pairs) → Advances rest t rs end → Advances (first × rest) touches resolvents end
      compose (exhausted t') h = tt
      compose (rejected t') h = tt
      compose (resolved t' rs') (within', covers') = (
        λ w. within' (within w),
        λ h.
            let (before, later) = covers' h in
            let (start, now) = covers before in (start, (now, later)),
      )

  try_clause-Advances :
      (p : List Lit) (negatives : List (List Lit)) (touches : ℕ) (resolvents : List (List Lit))
      → Advances
          (All (λ n. (side m v p || side m v n) ≡ true) negatives)
          touches
          resolvents
          (try_clause assignments v budget removed_count p negatives touches resolvents)
  unfolding try_clause
  try_clause-Advances p [] touches resolvents = (λ w. w, λ h. (h, tt))
  try_clause-Advances p (n ∷ negatives) touches resolvents =
      and_then-Advances _ _ touches resolvents _ _ (try_pair-Advances p n touches resolvents)
        (try_clause-Advances p negatives)

  resolve_pairs-Advances :
      (positives negatives : List (List Lit)) (touches : ℕ) (resolvents : List (List Lit))
      → Advances
          (Covers m v positives negatives)
          touches
          resolvents
          (resolve_pairs assignments v budget removed_count positives negatives touches resolvents)
  unfolding resolve_pairs
  resolve_pairs-Advances [] negatives touches resolvents = (λ w. w, λ h. (h, tt))
  resolve_pairs-Advances (p ∷ positives) negatives touches resolvents =
      and_then-Advances _ _ touches resolvents _ _
        (try_clause-Advances p negatives touches resolvents)
        (resolve_pairs-Advances positives negatives)

-- A pair loop that runs to its end has kept within the touch budget, the growth limit and the
-- length limit; and under a valuation that agrees with the root assignment and satisfies all its
-- resolvents, of each pair one clause holds by a literal of another variable.
pub resolve_pairs_complete :
    (m : Valuation) (assignments : List Value) (v : Var) (budget removed_count : ℕ)
    (positives negatives : List (List Lit)) (touches t : ℕ) (rs : List (List Lit))
    → Agrees m assignments
    → touches ≤ budget
    → resolve_pairs assignments v budget removed_count positives negatives touches []
      ≡ resolved t rs
    → Within budget removed_count t rs
      × (satisfies_all m rs ≡ true → Covers m v positives negatives)
resolve_pairs_complete m assignments v budget removed_count positives negatives touches t rs agrees
      fits h =
    let (within, covers) = rw h at (
      resolve_pairs-Advances m assignments v budget removed_count agrees positives negatives touches
        []) in
    (within (fits, omega arith, tt), λ all_hold. (covers all_hold).1)
