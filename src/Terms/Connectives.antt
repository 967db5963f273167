-- ===== src/Terms/Connectives.antt =====
-- The Boolean constructors of src/smt/term.rs, by what their results evaluate to.
use satrap.Prelude.{ℕ, Bool, true, not, beq, List, [], ◌∷◌, if◌then◌else◌, ◌≡◌, sym, ap, ◌∙◌}
use satrap.Terms.{boolean, TermStore, Outcome, ok, err}
use satrap.Terms.Good.{HasSort, IsGood, Extends}
use satrap.Terms.Post.{Post, returns, full, no_symbols, Grows}
use satrap.Terms.Value.{IsTerm, AreTerms}
use satrap.Terms.Eval.{evaluate_bool}
use satrap.Terms.Reading.{node_value, node_value-Reads}
use satrap.Terms.Evaluated.{evaluate_bool_total, evaluate_bool_reads}
use satrap.Terms.Negation.{not_-Grows}
use satrap.Terms.Parity.{xor-Grows, iff-Grows}
use satrap.Terms.Branch.{conjunction, disjunction, and_all, or_all, ite-Grows}
use satrap.Terms.Build.{not_, and_, or_, xor, iff}
use satrap.Terms.Combine.{ite}

-- The term evaluates to the value.
abbrev pub Evaluates : (ℕ → Bool) → TermStore → ℕ → Bool → Type 0
Evaluates ρ s t b = HasSort s t boolean × (evaluate_bool s ρ t ≡ ok b)

abbrev pub EvaluateAll : (ℕ → Bool) → TermStore → List ℕ → List Bool → Type 0
EvaluateAll ρ s [] [] = Unit
EvaluateAll ρ s [] (b ∷ bs) = ⊥
EvaluateAll ρ s (t ∷ ts) [] = ⊥
EvaluateAll ρ s (t ∷ ts) (b ∷ bs) = Evaluates ρ s t b × EvaluateAll ρ s ts bs

-- A call that returns a term with the value in a well-formed store that has all the nodes of `s`
-- still, or finds the store full.
abbrev pub Makes : (ℕ → Bool) → TermStore → Bool → Outcome ℕ × TermStore → Type 0
Makes ρ s b r = Post (λ u s'. Extends s s' × Evaluates ρ s' u b) r

module _ (ρ : ℕ → Bool) where
  module _ (V : ℕ → Bool) (s : TermStore) (g : IsGood s) where
    pub Evaluates-IsTerm : (t : ℕ) (b : Bool) → Evaluates ρ s t b → IsTerm ρ V s t b
    Evaluates-IsTerm t b (h, e) = record {
      sort = h;
      value = λ r.
          ap (λ o. elim o [ ok x ↦ x | err x ↦ true ])
            (sym (evaluate_bool_reads ρ V s g r t h) ∙ e);
    }

    pub EvaluateAll-AreTerms :
        (ts : List ℕ) (bs : List Bool) → EvaluateAll ρ s ts bs → AreTerms ρ V s ts bs
    EvaluateAll-AreTerms [] [] h = tt
    EvaluateAll-AreTerms [] (b ∷ bs) h = elim h [ ]
    EvaluateAll-AreTerms (t ∷ ts) [] h = elim h [ ]
    EvaluateAll-AreTerms (t ∷ ts) (b ∷ bs) (h, k) =
        (Evaluates-IsTerm t b h, EvaluateAll-AreTerms ts bs k)

  pub IsTerm-Evaluates :
      (s : TermStore) (t : ℕ) (b : Bool)
      → IsGood s
      → IsTerm ρ (node_value ρ s) s t b
      → Evaluates ρ s t b
  IsTerm-Evaluates s t b g h =
      (h.sort, (evaluate_bool_total ρ s t g h.sort).0 ∙ ap ok (h.value (node_value-Reads ρ s g)))

  -- What holds under all values that fit the nodes holds of evaluation.
  pub makes :
      (s : TermStore) (b : Bool) (r : Outcome ℕ × TermStore)
      → ((V : ℕ → Bool) → Grows s (λ u s'. IsTerm ρ V s' u b) r)
      → Makes ρ s b r
  makes s b r h = go r (h (node_value ρ r.1))
    where
      go :
          (r : Outcome ℕ × TermStore)
          → Grows s (λ u s'. IsTerm ρ (node_value ρ r.1) s' u b) r
          → Makes ρ s b r
      go _ (returns {a = a} {s = s'} (e, k)) = returns (e, IsTerm-Evaluates s' a b e.good k)
      go _ (full h) = full h
      go _ (no_symbols h) = no_symbols h

-- `and` and `or` of Boolean terms make a term that evaluates to the conjunction, or the
-- disjunction, of what the terms evaluate to.
pub junctions_evaluate :
    (ρ : ℕ → Bool) (s : TermStore) (ts : List ℕ) (bs : List Bool)
    → IsGood s
    → EvaluateAll ρ s ts bs
    → Makes ρ s (conjunction bs) (and_ ts s) × Makes ρ s (disjunction bs) (or_ ts s)
junctions_evaluate ρ s ts bs g h = (
  makes ρ s _ _ (λ V. and_all ρ V s g ts bs (EvaluateAll-AreTerms ρ V s g ts bs h)),
  makes ρ s _ _ (λ V. or_all ρ V s g ts bs (EvaluateAll-AreTerms ρ V s g ts bs h)),
)

-- `not`, `xor`, `iff` and `ite` of Boolean terms make a term that evaluates to the negation, to
-- whether the values differ, to whether they agree, or to the value that the condition chooses.
pub connectives_evaluate :
    (ρ : ℕ → Bool) (s : TermStore) (t u v : ℕ) (x y z : Bool)
    → IsGood s
    → Evaluates ρ s t x
    → Evaluates ρ s u y
    → Evaluates ρ s v z
    → Makes ρ s (not x) (not_ t s)
      × Makes ρ s (not (beq x y)) (xor t u s)
      × Makes ρ s (beq x y) (iff t u s)
      × Makes ρ s (if x then y else z) (ite t u v s)
connectives_evaluate ρ s t u v x y z g ht hu hv = (
  makes ρ s _ _ (λ V. not_-Grows ρ V s t x g (term V t x ht)),
  makes ρ s _ _ (λ V. xor-Grows ρ V s t u x y g (term V t x ht) (term V u y hu)),
  makes ρ s _ _ (λ V. iff-Grows ρ V s t u x y g (term V t x ht) (term V u y hu)),
  makes ρ s _ _
      (λ V. ite-Grows ρ V s g t u v x y z (term V t x ht) (term V u y hu) (term V v z hv)),
)
  where
    term : (V : ℕ → Bool) (a : ℕ) (b : Bool) → Evaluates ρ s a b → IsTerm ρ V s a b
    term V a b h = Evaluates-IsTerm ρ V s g a b h
