-- ===== src/Encode/Define.antt =====
-- The steps of src/smt/encode.rs that make a new literal: for a connective, for truth, for an atom.
use satrap.Prelude.{
  ℕ, ◌<◌, Bool, true, false, ◌&&◌, ◌||◌, some, List, [], ◌∷◌, beq, ◌≡◌, refl, sym, ap, ◌∙◌, subst,
  arith, &&_left, &&_right, ==_refl,
}
use satrap.Lit.{Var, Lit, IsVar, positive}
use satrap.Clause.{Valuation, literal_value, satisfies, satisfies_all}
use satrap.Elimination.PairLoop.{all-append}
use satrap.Encode.{Encoding}
use satrap.Encode.Grown.{Grown}
use satrap.Encode.Steps.{Spec, Grown-InRange, beq-true, beq_refl}
use satrap.Encode.Meaning.{
  IsBelow, Same, Results, Holds, Entails, OnTruth, InRange, Fits, Knows, Holds-local, Fits-local,
  update, Same-update, var-positive, literal_value-positive,
}

unit_value : (b : Bool) → ((b || false) && true) ≡ beq b true
unit_value b = ground arith

module _ (ρ V : ℕ → Bool) where
  -- The clauses of a step leave what was there, and tie their output to a value.
  module _ (e : Encoding) (cs : List (List Lit)) (e' : Encoding) (v : Var) (grown : Grown e cs e')
      (number : v ≡ e.solver.variable_count) (room : v < e'.solver.variable_count) where
    IsVar-fresh : InRange e → IsVar v
    IsVar-fresh r = let limit = grown.limit r.limit in omega arith

    positive-IsBelow : InRange e → IsBelow e'.solver.variable_count (positive v)
    positive-IsBelow r = rw (var-positive v (IsVar-fresh r)) room

    split :
        (m : Valuation)
        → satisfies_all m e'.solver.clauses
          ≡ (satisfies_all m e.solver.clauses && satisfies_all m cs)
    split m = rw grown.clauses (all-append (satisfies m) e.solver.clauses cs)

    Fits-Grown : (m : Valuation) → Fits ρ m e' → Fits ρ m e
    Fits-Grown m f = record {
      clauses = &&_left _ _ (sym (split m) ∙ f.clauses);
      atoms = subst (λ a. Entails m ρ a) grown.atoms f.atoms;
    }

    Knows-Grown : (m : Valuation) → Knows V m e → Knows V m e'
    Knows-Grown m k = record {
      terms = subst (λ x. Entails m V x) (sym grown.terms) k.terms;
      truth = subst (λ x. OnTruth (λ l. literal_value m l ≡ true) x) (sym grown.truth) k.truth;
    }

    -- A valuation of the old encoding with a value for the new variable.
    fresh_value :
        (m : Valuation) (b : Bool)
        → InRange e
        → Same e.solver.variable_count m (update m v b)
          × (literal_value (update m v b) (positive v) ≡ b)
    fresh_value m b r = (
      subst (λ n. Same n m (update m v b)) number (Same-update m v b),
      rw (literal_value-positive (update m v b) v (IsVar-fresh r), ==_refl v) refl,
    )

    Fits-fresh :
        (m : Valuation) (b : Bool)
        → InRange e
        → Fits ρ m e
        → satisfies_all (update m v b) cs ≡ true
        → Fits ρ (update m v b) e'
    Fits-fresh m b r f h =
        let old = Fits-local ρ m (update m v b) e r (fresh_value m b r).0 f in
        record {
          clauses = split (update m v b) ∙ (rw (old.clauses, h) refl);
          atoms = subst (λ a. Entails (update m v b) ρ a) (sym grown.atoms) old.atoms;
        }

    pub Spec-define :
        (pre : Results) (b : Bool)
        → ((m : Valuation)
            → Holds m pre
            → satisfies_all m cs ≡ beq (literal_value m (positive v)) b)
        → Spec ρ V e e' pre ((positive v, b) ∷ [])
    unfolding IsVar-fresh positive-IsBelow split Fits-Grown Knows-Grown fresh_value Fits-fresh
    Spec-define pre b ties = record {
      count = grown.count;
      range = λ r below. (Grown-InRange ρ V e cs e' grown r, (positive-IsBelow r, tt));
      before = Fits-Grown;
      sound = λ m r below f k h.
          let holds = sym (ties m h) ∙ &&_right _ _ (sym (split m) ∙ f.clauses) in
          (Knows-Grown m k, (beq-true _ b holds, tt));
      extend = λ m r below f k h.
          let (same, value) = fresh_value m b r in
          (
            update m v b,
            same,
            Fits-fresh m b r f (
                ties (update m v b)
                  (Holds-local e.solver.variable_count m (update m v b) pre same below h)
                ∙ ap (λ x. beq x b) value
                ∙ beq_refl b),
          );
    }

    pub Spec-atom :
        (symbol : ℕ)
        → cs ≡ []
        → Spec ρ V e
            (record e' { atom_literals = (symbol, positive v) ∷ e'.atom_literals })
            []
            ((positive v, ρ symbol) ∷ [])
    unfolding IsVar-fresh positive-IsBelow split Fits-Grown Knows-Grown fresh_value Fits-fresh
    Spec-atom symbol none_added = record {
      count = grown.count;
      range = λ r below.
          let r' = Grown-InRange ρ V e cs e' grown r in
          (
            record {
              limit = r'.limit;
              terms = r'.terms;
              atoms = (positive-IsBelow r, r'.atoms);
              truth = r'.truth;
              clauses = r'.clauses;
            },
            (positive-IsBelow r, tt),
          );
      before = λ m f. Fits-Grown m (record { clauses = f.clauses; atoms = f.atoms.1 });
      sound = λ m r below f k h.
          let k' = Knows-Grown m k in
          (record { terms = k'.terms; truth = k'.truth }, (f.atoms.0, tt));
      extend = λ m r below f k h.
          let (same, value) = fresh_value m (ρ symbol) r in
          let f' = Fits-fresh m (ρ symbol) r f (rw none_added refl) in
          (update m v (ρ symbol), same, record { clauses = f'.clauses; atoms = (value, f'.atoms) });
    }

    pub Spec-truth :
        cs ≡ (positive v ∷ []) ∷ []
        → Spec ρ V e (record e' { truth = some (positive v) }) [] ((positive v, true) ∷ [])
    unfolding IsVar-fresh positive-IsBelow split Fits-Grown Knows-Grown fresh_value Fits-fresh
    Spec-truth unit =
        let ties : (m : Valuation) → satisfies_all m cs ≡ beq (literal_value m (positive v)) true =
          λ m. rw unit (unit_value (literal_value m (positive v))) in
        let s = Spec-define [] true (λ m h. ties m) in
        record {
          count = grown.count;
          range = λ r below.
              let (r', here) = s.range r tt in
              (
                record {
                  limit = r'.limit;
                  terms = r'.terms;
                  atoms = r'.atoms;
                  truth = positive-IsBelow r;
                  clauses = r'.clauses;
                },
                here,
              );
          before = λ m f. Fits-Grown m (record { clauses = f.clauses; atoms = f.atoms });
          sound = λ m r below f k h.
              let (k', here) =
                s.sound m r tt (record { clauses = f.clauses; atoms = f.atoms }) k tt in
              (record { terms = k'.terms; truth = here.0 }, here);
          extend = λ m r below f k h.
              let (m', same, f') = s.extend m r tt f k tt in
              (m', same, record { clauses = f'.clauses; atoms = f'.atoms });
        }
