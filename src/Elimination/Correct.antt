-- ===== src/Elimination/Correct.antt =====
-- Variable elimination keeps models: `attempt_elimination` against `extend_model` (src/solver.rs).
use mathlib.Core.Logic.{∥∥₁_elim}
use mathlib.Core.Bool.{Bool-set}
use mathlib.Core.List.{Perm, Permᴰ}
use satrap.Prelude.{
  ℕ, ◌+◌, ◌≤◌, ◌<◌, Bool, true, false, List, [], ◌∷◌, ◌++◌, some, ◌==◌, any, all, ◌≡◌, ◌≢◌, refl,
  arith, get_or, All, Bool-cases, inl, inr, sym, ◌∙◌, ap, subst, length, &&_left, &&_right, ==_iff,
}
use satrap.Lit.{Var, Lit, var}
use satrap.Clause.{Valuation, valuation, literal_value, satisfies, satisfies_all}
use satrap.Elimination.{
  Value, unassigned, truth, falsity, EliminationRecord, Pairs, exhausted, rejected, resolved,
  eliminated, conclude, attempt_elimination, resolve_pairs, extend_record, extend_model,
}
use satrap.Elimination.Values.{Consistent, Agrees}
use satrap.Elimination.PairLoop.{all-append, resolve_pairs_complete}
use satrap.Elimination.Requirement.{Pivots}
use satrap.Elimination.Extension.{extend_record_lem}

-- An elimination is a finished pair loop, and records exactly the removed clauses.
eliminated_pairs :
    (assignments : List Value) (v : Var) (budget : ℕ) (ps ns : List (List Lit)) (touches t : ℕ)
    (rs : List (List Lit)) (r : EliminationRecord)
    → attempt_elimination assignments v budget ps ns touches ≡ eliminated t rs r
    → (resolve_pairs assignments v budget (length ps + length ns) ps ns touches [] ≡ resolved t rs)
      × (r ≡ record { variable = v; clauses = ps ++ ns })
unfolding attempt_elimination
eliminated_pairs assignments v budget ps ns touches t rs r h =
    ended (resolve_pairs assignments v budget (length ps + length ns) ps ns touches [])
      (ground arith)
  where
    ended :
        (o : Pairs)
        → conclude v (ps ++ ns) o ≡ eliminated t rs r
        → (o ≡ resolved t rs) × (r ≡ record { variable = v; clauses = ps ++ ns })
    ended (exhausted t') h = cc
    ended (rejected t') h = cc
    ended (resolved t' rs') h = (cc, cc)

-- A finished attempt and a model of its resolvents that agrees with the root assignment: the
-- record extends to a model of the removed clauses.
pub eliminated-extend :
    (assignments : List Value) (values : List Bool) (v : Var) (budget touches t : ℕ)
    (ps ns rs : List (List Lit)) (r : EliminationRecord)
    → attempt_elimination assignments v budget ps ns touches ≡ eliminated t rs r
    → touches ≤ budget
    → v < length values
    → All (Pivots true v) ps
    → All (Pivots false v) ns
    → Agrees (valuation values) assignments
    → satisfies_all (valuation values) rs ≡ true
    → (values' : List Bool) × (extend_record values r ≡ some values')
      × (satisfies_all (valuation values') (ps ++ ns) ≡ true)
      × ((w : Var) → (w == v) ≡ false → valuation values' w ≡ valuation values w)
      × (length values' ≡ length values)
eliminated-extend assignments values v budget touches t ps ns rs r done fits room pos neg agrees
      holds =
    let (pairs, made) = eliminated_pairs assignments v budget ps ns touches t rs r done in
    let (_, covers) =
      resolve_pairs_complete (valuation values) assignments v budget _ ps ns touches t rs agrees
        fits pairs in
    rw made (extend_record_lem values v ps ns room pos neg (covers holds))

-- No clause mentions the variable.
abbrev pub Avoids : Var → List Lit → Type 0
Avoids v c = any (λ l. var l == v) c ≡ false

-- Root assignments are never undone.
abbrev pub Later : List Value → List Value → Type 0
Later before after =
    (w : Var)
    → get_or before w unassigned ≢ unassigned
    → get_or after w unassigned ≡ get_or before w unassigned

-- A run of `eliminate_variables` over the active clauses: an elimination of an unassigned variable
-- replaces the clauses that mention it by their resolvents. Between two eliminations the root
-- assignment may grow, and clauses may change order.
pub data Run
    : List Value
      → List (List Lit)
      → List EliminationRecord
      → List Value
      → List (List Lit)
      → Type 0 where
  finish :
      (assignments : List Value) (clauses : List (List Lit))
      → Run assignments clauses [] assignments clauses
  eliminate :
      (assignments : List Value) (v : Var) (budget touches t : ℕ) (rest ps ns rs : List (List Lit))
      (r : EliminationRecord) {after final : List Value} {records : List EliminationRecord}
      {left : List (List Lit)}
      → attempt_elimination assignments v budget ps ns touches ≡ eliminated t rs r
      → touches ≤ budget
      → get_or assignments v unassigned ≡ unassigned
      → All (Pivots true v) ps
      → All (Pivots false v) ns
      → All (Avoids v) rest
      → Later assignments after
      → Run after (rest ++ rs) records final left
      → Run assignments (rest ++ (ps ++ ns)) (r ∷ records) final left
  reorder :
      {assignments final : List Value} {before after left : List (List Lit)}
      {records : List EliminationRecord}
      → Perm before after
      → Run assignments after records final left
      → Run assignments before records final left

Permᴰ-all {ℓ} : {A : Type ℓ} (p : A → Bool) {xs ys : List A} → Permᴰ xs ys → all p xs ≡ all p ys
Permᴰ-all p Permᴰ.nil = refl
Permᴰ-all p (Permᴰ.cons e h) = rw (e, Permᴰ-all p h)
Permᴰ-all p (Permᴰ.swap {l = l} e f) = ground (arith, ap p e, ap p f)
Permᴰ-all p (Permᴰ.trans h k) = Permᴰ-all p h ∙ Permᴰ-all p k

perm-all {ℓ} : {A : Type ℓ} (p : A → Bool) {xs ys : List A} → Perm xs ys → all p xs ≡ all p ys
perm-all p h = ∥∥₁_elim h (Bool-set _ _) (Permᴰ-all p)

-- Clauses that avoid a variable do not see its value.
satisfies-Avoids :
    (m m' : Valuation) (v : Var)
    → ((w : Var) → (w == v) ≡ false → m' w ≡ m w)
    → (c : List Lit) → Avoids v c
    → satisfies m' c ≡ satisfies m c
unfolding literal_value
satisfies-Avoids m m' v off [] h = refl
satisfies-Avoids m m' v off (l ∷ ls) h = ground (arith, off (var l), satisfies-Avoids m m' v off ls)

satisfies_all-Avoids :
    (m m' : Valuation) (v : Var)
    → ((w : Var) → (w == v) ≡ false → m' w ≡ m w)
    → (cs : List (List Lit)) → All (Avoids v) cs
    → satisfies_all m' cs ≡ satisfies_all m cs
satisfies_all-Avoids m m' v off [] h = refl
satisfies_all-Avoids m m' v off (c ∷ cs) (p, h) =
    rw (satisfies-Avoids m m' v off c p, satisfies_all-Avoids m m' v off cs h)

Agrees-earlier :
    (m : Valuation) (before after : List Value)
    → Later before after
    → Agrees m after
    → Agrees m before
Agrees-earlier m before after later agrees w = by_value (get_or before w unassigned) refl
  where
    by_value :
        (value : Value)
        → get_or before w unassigned ≡ value
        → Consistent (get_or before w unassigned) (m w)
    by_value unassigned e = rw e tt
    by_value truth e = subst (λ o. Consistent o (m w)) (later w (λ f. cc)) (agrees w)
    by_value falsity e = subst (λ o. Consistent o (m w)) (later w (λ f. cc)) (agrees w)

-- Changing an unassigned variable keeps the agreement.
Agrees-off :
    (m m' : Valuation) (assignments : List Value) (v : Var)
    → get_or assignments v unassigned ≡ unassigned
    → ((w : Var) → (w == v) ≡ false → m' w ≡ m w)
    → Agrees m assignments
    → Agrees m' assignments
Agrees-off m m' assignments v free off agrees w = elim (Bool-cases (w == v)) [
  | inl e ↦ rw ((==_iff w v).0 e, free) tt
  | inr e ↦ rw (off w e) (agrees w)
]

-- After any run of eliminations, a model of the clauses that are left, which agrees with the final
-- root assignment, is extended by `extend_model` to a model of the clauses at the start: it does
-- not panic, and the result agrees with the root assignment at the start.
pub extend_model_correct :
    {before final : List Value} {start left : List (List Lit)} {records : List EliminationRecord}
    → Run before start records final left
    → (values : List Bool) → All (λ r. r.variable < length values) records
    → Agrees (valuation values) final
    → satisfies_all (valuation values) left ≡ true
    → (values' : List Bool) × (extend_model values records ≡ some values')
      × (satisfies_all (valuation values') start ≡ true)
      × Agrees (valuation values') before
      × (length values' ≡ length values)
unfolding extend_model
extend_model_correct (finish assignments clauses) values room agrees holds =
    (values, refl, holds, agrees, refl)
extend_model_correct
      (eliminate assignments v budget touches t rest ps ns rs r {after = after} done fits free pos
        neg avoid later run)
      values room agrees holds =
    let (mid, extends, kept, agrees', size) = extend_model_correct run values room.1 agrees holds in
    let agrees'' = Agrees-earlier (valuation mid) assignments after later agrees' in
    let parts = sym (all-append (satisfies (valuation mid)) rest rs) ∙ kept in
    let same : r.variable ≡ v =
      ap (λ (x : EliminationRecord). x.variable)
        (eliminated_pairs assignments v budget ps ns touches t rs r done).1 in
    let fits_in : v < length mid = omega (arith, room.0) in
    let (end, extends', removed, off, size') =
      eliminated-extend assignments mid v budget touches t ps ns rs r done fits fits_in pos neg
        agrees'' (&&_right (satisfies_all (valuation mid) rest) _ parts) in
    (
      end,
      rw extends extends',
      rw
          (
            all-append (satisfies (valuation end)) rest (ps ++ ns),
            removed,
            satisfies_all-Avoids (valuation mid) (valuation end) v off rest avoid,
          )
          (ground (arith, &&_left (satisfies_all (valuation mid) rest) _ parts)),
      Agrees-off (valuation mid) (valuation end) assignments v free off agrees'',
      size' ∙ size,
    )
extend_model_correct (reorder perm run) values room agrees holds =
    let (end, extends, kept, agrees', size) = extend_model_correct run values room agrees holds in
    (end, extends, perm-all (satisfies (valuation end)) perm ∙ kept, agrees', size)
