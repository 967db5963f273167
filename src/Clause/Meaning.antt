-- ===== src/Clause/Meaning.antt =====
-- A normalized clause means what the clause meant (src/solver.rs).
use satrap.Prelude.{
  Bool, true, false, not, ◌||◌, List, [], ◌∷◌, ◌++◌, Option, none, some, ◌==◌, any, ◌≡◌, refl, sym,
  ap, ◌∙◌, subst, arith, Bool-cases, inl, inr, ==_iff,
}
use satrap.Lit.{Lit, var, neg}
use satrap.Lit.Packing.{var-neg, is_positive-neg, same_var}
use satrap.Clause.{Valuation, literal_value, satisfies, insert, sort, rev_onto, compact, normalize}

pub literal_value-neg :
    (m : Valuation) (l : Lit) → literal_value m (neg l) ≡ not (literal_value m l)
unfolding literal_value
literal_value-neg m l = ground (arith, var-neg l, is_positive-neg l)

pub or_comm : (a b : Bool) → (a || b) ≡ (b || a)
or_comm a b = ground arith

pub any-append {ℓ} :
    {A : Type ℓ} (p : A → Bool) (xs ys : List A) → any p (xs ++ ys) ≡ (any p xs || any p ys)
any-append p [] ys = refl
any-append p (x ∷ xs) ys = ground (arith, any-append p xs ys)

module _ (m : Valuation) where
  satisfies-insert : (l : Lit) (c : List Lit) → satisfies m (insert l c) ≡ satisfies m (l ∷ c)
  unfolding insert
  satisfies-insert l [] = refl
  satisfies-insert l (x ∷ xs) = ground (arith, satisfies-insert l xs)

  pub satisfies-sort : (c : List Lit) → satisfies m (sort c) ≡ satisfies m c
  unfolding sort
  satisfies-sort [] = refl
  satisfies-sort (x ∷ xs) = ground (arith, satisfies-insert x (sort xs), satisfies-sort xs)

  satisfies-rev_onto :
      (kept acc : List Lit)
      → satisfies m (rev_onto kept acc) ≡ (satisfies m kept || satisfies m acc)
  satisfies-rev_onto [] acc = refl
  satisfies-rev_onto (x ∷ xs) acc = ground (arith, satisfies-rev_onto xs (x ∷ acc))

  -- One of two complementary literals holds.
  complementary :
      (a b : Lit)
      → (a == b) ≡ false
      → (var a == var b) ≡ true
      → (literal_value m a || literal_value m b) ≡ true
  complementary a b differ same = elim (same_var a b ((==_iff _ _).0 same)) [
    | inl e ↦ ground arith
    | inr e ↦ rw e (ground (arith, literal_value-neg m a))
  ]

  -- What the loop returns means what it has kept and what it has not read.
  abbrev Outcome : Bool → Option (List Lit) → Type 0
  Outcome b none = b ≡ true
  Outcome b (some d) = satisfies m d ≡ b

  compact_meaning :
      (kept unread : List Lit)
      → Outcome (satisfies m kept || satisfies m unread) (compact kept unread)
  unfolding compact
  compact_meaning kept [] = satisfies-rev_onto kept []
  compact_meaning [] (l ∷ ls) =
      subst (λ b. Outcome b (compact (l ∷ []) ls)) (ground arith) (compact_meaning (l ∷ []) ls)
  compact_meaning (p ∷ kept) (l ∷ ls) = elim (Bool-cases (p == l)) [
    | inl e ↦
        rw e (
          subst (λ b. Outcome b (compact (p ∷ kept) ls)) (absorb e) (compact_meaning (p ∷ kept) ls))
    | inr e ↦ rw e (elim (Bool-cases (var p == var l)) [
      | inl v ↦ rw v (ground (arith, complementary p l e v))
      | inr v ↦ rw v (
          subst (λ b. Outcome b (compact (l ∷ p ∷ kept) ls)) (ground arith)
            (compact_meaning (l ∷ p ∷ kept) ls))
    ])
  ]
    where
      absorb :
          (p == l) ≡ true
          → (satisfies m (p ∷ kept) || satisfies m ls)
            ≡ (satisfies m (p ∷ kept) || satisfies m (l ∷ ls))
      absorb e = ground (arith, ap (literal_value m) ((==_iff p l).0 e))

-- A normalized clause holds under the same valuations as the clause that it was made from.
pub normalize-satisfies :
    (m : Valuation) (c d : List Lit) → normalize c ≡ some d → satisfies m d ≡ satisfies m c
unfolding normalize
normalize-satisfies m c d h = (rw h at (compact_meaning m [] (sort c))) ∙ satisfies-sort m c

-- A clause that is dropped holds under every valuation.
pub normalize-none : (m : Valuation) (c : List Lit) → normalize c ≡ none → satisfies m c ≡ true
unfolding normalize
normalize-none m c h = sym (satisfies-sort m c) ∙ (rw h at (compact_meaning m [] (sort c)))
