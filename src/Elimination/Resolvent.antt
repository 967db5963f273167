-- ===== src/Elimination/Resolvent.antt =====
-- What a resolvent means (`elimination_resolvent` of src/solver.rs).
use satrap.Prelude.{
  Bool, true, false, ◌||◌, List, [], ◌∷◌, ◌++◌, Option, none, some, ◌==◌, ◌≡◌, refl, arith,
  Bool-cases, inl, inr, sym, ◌∙◌, subst, Option-cases,
}
use satrap.Lit.{Var, Lit, var}
use satrap.Clause.{Valuation, literal_value, satisfies, normalize}
use satrap.Clause.Meaning.{any-append, normalize-satisfies, normalize-none}
use satrap.Elimination.{Value, unassigned, truth, falsity, value_of, gather, elimination_resolvent}
use satrap.Elimination.Values.{Consistent, Agrees, side, value_of-Consistent}

abbrev Outcome : Valuation → Bool → Option (List Lit) → Type 0
Outcome m b none = b ≡ true
Outcome m b (some c) = satisfies m c ≡ b

-- One literal of another variable, by its value under the root assignment.
gather_literal :
    (m : Valuation) (l : Lit) (acc : List Lit) (rest : Bool) (skip push : Option (List Lit))
    (value : Value)
    → Consistent value (literal_value m l)
    → Outcome m (satisfies m acc || rest) skip
    → Outcome m (satisfies m (acc ++ l ∷ []) || rest) push
    → Outcome m
        (satisfies m acc || (literal_value m l || rest))
        (elim value [ truth ↦ none | falsity ↦ skip | unassigned ↦ push ])
gather_literal m l acc rest skip push truth h hs hp = ground arith
gather_literal m l acc rest skip push falsity h hs hp = rw h hs
gather_literal m l acc rest skip push unassigned h hs hp =
    subst (λ b. Outcome m b push) (ground (arith, any-append (literal_value m) acc (l ∷ []))) hp

module _ (m : Valuation) (assignments : List Value) (agrees : Agrees m assignments) where
  gather_meaning :
      (v : Var) (ls acc : List Lit)
      → Outcome m (satisfies m acc || side m v ls) (gather assignments v ls acc)
  unfolding gather
  gather_meaning v [] acc = ground arith
  gather_meaning v (l ∷ ls) acc = elim (Bool-cases (var l == v)) [
    | inl e ↦ rw e (gather_meaning v ls acc)
    | inr e ↦ rw e (
        gather_literal m l acc (side m v ls) (gather assignments v ls acc)
          (gather assignments v ls (acc ++ l ∷ [])) (value_of assignments l)
          (value_of-Consistent m assignments agrees l) (gather_meaning v ls acc)
          (gather_meaning v ls (acc ++ l ∷ [])))
  ]

  gather_clause :
      (v : Var) (ls acc : List Lit) (o : Option (List Lit)) (b : Bool)
      → gather assignments v ls acc ≡ o
      → satisfies m acc ≡ b
      → Outcome m (b || side m v ls) o
  gather_clause v ls acc o b e h = rw (← e, ← h) (gather_meaning v ls acc)

  normalize_meaning : (c : List Lit) (b : Bool) → satisfies m c ≡ b → Outcome m b (normalize c)
  normalize_meaning c b h = elim (Option-cases (normalize c)) [
    | inl e ↦ rw e (sym h ∙ normalize-none m c e)
    | inr (d, e) ↦ rw e (normalize-satisfies m c d e ∙ h)
  ]

  resolvent_meaning :
      (positive negative : List Lit) (v : Var)
      → Outcome m
          (side m v positive || side m v negative)
          (elimination_resolvent assignments positive negative v)
  unfolding elimination_resolvent
  resolvent_meaning positive negative v = elim (Option-cases (gather assignments v positive [])) [
    | inl e ↦ rw e (ground (arith, gather_clause v positive [] none false e refl))
    | inr (first, e) ↦
        let value = gather_clause v positive [] (some first) false e refl in
        rw e (elim (Option-cases (gather assignments v negative first)) [
          | inl f ↦ rw f (gather_clause v negative first none (side m v positive) f value)
          | inr (both, f) ↦ rw f (
              normalize_meaning both _
                (gather_clause v negative first (some both) (side m v positive) f value))
        ])
  ]

-- Under a valuation that agrees with the root assignment, a resolvent holds exactly when one of
-- the parents holds by a literal of another variable; where there is no resolvent, one does.
pub resolvent_value :
    (m : Valuation) (assignments : List Value) (positive negative : List Lit) (v : Var)
    → Agrees m assignments
    → ((r : List Lit)
        → elimination_resolvent assignments positive negative v ≡ some r
        → satisfies m r ≡ (side m v positive || side m v negative))
      × (elimination_resolvent assignments positive negative v ≡ none
          → (side m v positive || side m v negative) ≡ true)
resolvent_value m assignments positive negative v agrees =
    let value = resolvent_meaning m assignments agrees positive negative v in
    (λ r e. rw e at value, λ e. rw e at value)

-- One side of a pair holds when the resolvent, if there is one, does.
pub resolvent_side :
    (m : Valuation) (assignments : List Value) (positive negative : List Lit) (v : Var)
    → Agrees m assignments
    → ((r : List Lit)
        → elimination_resolvent assignments positive negative v ≡ some r
        → satisfies m r ≡ true)
    → (side m v positive || side m v negative) ≡ true
resolvent_side m assignments positive negative v agrees holds =
    let (made, dropped) = resolvent_value m assignments positive negative v agrees in
    elim (Option-cases (elimination_resolvent assignments positive negative v)) [
      | inl e ↦ dropped e
      | inr (r, e) ↦ sym (made r e) ∙ holds r e
    ]
