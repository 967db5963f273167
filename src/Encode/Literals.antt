-- ===== src/Encode/Literals.antt =====
-- The literals that the encoder of src/smt/encode.rs makes or finds stand for what they should.
use satrap.Prelude.{
  ℕ, Bool, true, Option, none, some, [], ◌∷◌, ◌==◌, ◌≡◌, refl, ap, subst, arith, Bool-cases, inl,
  inr, All,
}
use satrap.Lit.{Lit, positive}
use satrap.Clause.{Valuation, literal_value}
use satrap.Encode.{
  ok, Entries, find, Encoding, Action, new_variable, add_encoding_clause, add_all, Gate,
  gate_clauses, encode_gate, truth_literal, known_truth, encode_atom, known_atom,
}
use satrap.Encode.Gates.{gate_value, satisfies_all-gate_clauses}
use satrap.Encode.Grown.{
  and_then-ok, ok_inj, fresh-Grown, add_encoding_clause-Grown, add_all-Grown, new_variable-Grown,
}
use satrap.Encode.Meaning.{IsBelow, Results, Holds, OnTruth}
use satrap.Encode.Steps.{Spec, Spec-keep}
use satrap.Encode.Define.{Spec-define, Spec-atom, Spec-truth}

-- An entry that is found is one of the entries.
pub find-All :
    (P : ℕ × Lit → Type 0) (k : ℕ) (es : Entries) (l : Lit)
    → All P es
    → find k es ≡ some l
    → P (k, l)
find-All P k [] l h e = absurd (ground arith)
find-All P k (x ∷ es) l (p, h) e = elim (Bool-cases (x.0 == k)) [
  | inl here ↦
      let found : x.1 ≡ l = ap (λ o. elim o [ some y ↦ y | none ↦ x.1 ]) (rw here at e) in
      let key : x.0 ≡ k = ground arith in rw (← key, ← found) p
  | inr there ↦ find-All P k es l h (rw there at e)
]

module _ (ρ V : ℕ → Bool) where
  -- What a step that returns a literal has to do for a value.
  abbrev pub Encodes : Action Lit → Bool → Type 0
  Encodes act b = (e e' : Encoding) (l : Lit) → act e ≡ (ok l, e') → Spec ρ V e e' [] ((l, b) ∷ [])

  pub encode_gate-Spec :
      (g : Gate) (pre : Results) (b : Bool) (e e' : Encoding) (l : Lit)
      → ((m : Valuation) → Holds m pre → gate_value m g ≡ b)
      → encode_gate g e ≡ (ok l, e')
      → Spec ρ V e e' pre ((l, b) ∷ [])
  unfolding encode_gate
  encode_gate-Spec g pre b e e' l value h =
      let (v, e₁, made, more) = and_then-ok (new_variable e) _ l e' h in
      let (u, e₂, added, last) =
        and_then-ok (add_all (gate_clauses g (positive v)) e₁) _ l e' more in
      let (output, state) = ok_inj (positive v) l e₂ e' last in
      let (grown, number, room) = fresh-Grown e e₁ e₂ v _ made (add_all-Grown _ e₁ e₂ added) in
      rw (← output, ← state)
        (Spec-define ρ V e (gate_clauses g (positive v)) e₂ v grown number room pre b
          (λ m holds. rw (← value m holds) (satisfies_all-gate_clauses m g (positive v))))

  pub truth_literal-Encodes : Encodes truth_literal true
  unfolding truth_literal
  truth_literal-Encodes e e' l h = go e.truth refl h
    where
      go :
          (o : Option Lit)
          → e.truth ≡ o
          → known_truth o e ≡ (ok l, e')
          → Spec ρ V e e' [] ((l, true) ∷ [])
      go (some x) is h =
          let (same, state) = ok_inj x l e e' h in
          rw (← same, ← state)
            (Spec-keep ρ V e [] _
              (λ r b. (subst (λ o. OnTruth (IsBelow e.solver.variable_count) o) is r.truth, tt))
              (λ m f k holds.
                (subst (λ o. OnTruth (λ y. literal_value m y ≡ true) o) is k.truth, tt)))
      go none is h =
          let (v, e₁, made, more) = and_then-ok (new_variable e) _ l e' h in
          let (u, e₂, added, last) =
            and_then-ok (add_encoding_clause (positive v ∷ []) e₁) _ l e' more in
          let (output, state) =
            ok_inj (positive v) l (record e₂ { truth = some (positive v) }) e' last in
          let (grown, number, room) =
            fresh-Grown e e₁ e₂ v _ made (add_encoding_clause-Grown _ e₁ e₂ added) in
          rw (← output, ← state) (Spec-truth ρ V e _ e₂ v grown number room refl)

  pub encode_atom-Encodes : (symbol : ℕ) → Encodes (encode_atom symbol) (ρ symbol)
  unfolding encode_atom
  encode_atom-Encodes symbol e e' l h = go (find symbol e.atom_literals) refl h
    where
      go :
          (o : Option Lit)
          → find symbol e.atom_literals ≡ o
          → known_atom symbol o e ≡ (ok l, e')
          → Spec ρ V e e' [] ((l, ρ symbol) ∷ [])
      go (some x) is h =
          let (same, state) = ok_inj x l e e' h in
          rw (← same, ← state)
            (Spec-keep ρ V e [] _
              (λ r b. (
                find-All (λ y. IsBelow e.solver.variable_count y.1) symbol e.atom_literals x r.atoms
                    is,
                tt,
              ))
              (λ m f k holds. (
                find-All (λ y. literal_value m y.1 ≡ ρ y.0) symbol e.atom_literals x f.atoms is,
                tt,
              )))
      go none is h =
          let (v, e₁, made, last) = and_then-ok (new_variable e) _ l e' h in
          let (output, state) =
            ok_inj (positive v) l
              (record e₁ { atom_literals = (symbol, positive v) ∷ e₁.atom_literals }) e' last in
          let (grown, number, next) = new_variable-Grown e e₁ v made in
          rw (← output, ← state) (Spec-atom ρ V e [] e₁ v grown number (omega arith) symbol refl)
