-- ===== src/Encode/Correct.antt =====
-- `encode` of src/smt/encode.rs is sound and complete for the meaning of terms.
use satrap.Prelude.{ℕ, zero, suc, Bool, Option, none, some, [], ◌∷◌, ◌≡◌, refl, arith}
use satrap.Lit.{Lit}
use satrap.Clause.{Valuation, literal_value}
use satrap.Encode.{
  TermKind, ok, find, Encoding, ◌>>=◌, encode_kind, encode, insert_term, known_term,
}
use satrap.Encode.Grown.{and_then-ok, ok_inj}
use satrap.Encode.Meaning.{Interprets, IsBelow, Same, InRange, Fits, Knows, Knows-local}
use satrap.Encode.Steps.{Spec, Spec-trans, Spec-keep}
use satrap.Encode.Literals.{Encodes, find-All}
use satrap.Encode.Kinds.{encode_kind-Encodes}

module _ (node : ℕ → TermKind) (ρ V : ℕ → Bool) (interprets : Interprets node ρ V) where
  Spec-insert :
      (e : Encoding) (t : ℕ) (l : Lit)
      → Spec ρ V e
          (record e { term_literals = (t, l) ∷ e.term_literals })
          ((l, V t) ∷ [])
          ((l, V t) ∷ [])
  Spec-insert e t l = record {
    count = omega arith;
    range = λ r below. (
      record {
        limit = r.limit;
        terms = (below.0, r.terms);
        atoms = r.atoms;
        truth = r.truth;
        clauses = r.clauses;
      },
      below,
    );
    before = λ m f. record { clauses = f.clauses; atoms = f.atoms };
    sound = λ m r below f k h. (record { terms = (h.0, k.terms); truth = k.truth }, h);
    extend =
        λ m r below f k h. (m, λ v small. refl, record { clauses = f.clauses; atoms = f.atoms });
  }

  encode-Encodes : (fuel t : ℕ) → Encodes ρ V (encode node fuel t) (V t)
  unfolding encode
  encode-Encodes zero t e e' l h = absurd (ground arith)
  encode-Encodes (suc fuel) t e e' l h = go (find t e.term_literals) refl (encode-Encodes fuel) h
    where
      go :
          (o : Option Lit)
          → find t e.term_literals ≡ o
          → ((t : ℕ) → Encodes ρ V (encode node fuel t) (V t))
          → known_term (encode_kind (encode node fuel) (node t) >>= insert_term t) o e ≡ (ok l, e')
          → Spec ρ V e e' [] ((l, V t) ∷ [])
      go (some x) is ih h =
          let (same, state) = ok_inj x l e e' h in
          rw (← same, ← state)
            (Spec-keep ρ V e [] _
              (λ r b. (
                find-All (λ y. IsBelow e.solver.variable_count y.1) t e.term_literals x r.terms is,
                tt,
              ))
              (λ m f k holds.
                (find-All (λ y. literal_value m y.1 ≡ V y.0) t e.term_literals x k.terms is, tt)))
      go none is ih h =
          let (x, e₁, made, last) =
            and_then-ok (encode_kind (encode node fuel) (node t) e) _ l e' h in
          let (output, state) =
            ok_inj x l (record e₁ { term_literals = (t, x) ∷ e₁.term_literals }) e' last in
          let spec : Spec ρ V e e₁ [] ((x, V t) ∷ []) =
            rw (interprets t)
              (encode_kind-Encodes ρ V (encode node fuel) ih (node t) e e₁ x made) in
          rw (← output, ← state)
            (Spec-trans ρ V e e₁ _ [] ((x, V t) ∷ []) _ spec (Spec-insert e₁ t x))

-- Where `encode` returns a literal, every valuation of the clauses after that gives the atoms their
-- values gives the literal the value of the term; it keeps the clauses from before, and it gives
-- every term encoded so far its value if it did so before.
pub encode_sound :
    (node : ℕ → TermKind) (ρ V : ℕ → Bool) (fuel t : ℕ) (e e' : Encoding) (l : Lit) (m : Valuation)
    → Interprets node ρ V
    → encode node fuel t e ≡ (ok l, e')
    → InRange e
    → Fits ρ m e'
    → (Fits ρ m e → Knows V m e)
    → (literal_value m l ≡ V t) × Fits ρ m e × Knows V m e'
encode_sound node ρ V fuel t e e' l m interprets h range fits knows =
    let spec = encode-Encodes node ρ V interprets fuel t e e' l h in
    let before = spec.before m fits in
    let (k, r) = spec.sound m range tt fits (knows before) tt in (r.0, before, k)

-- Where `encode` returns a literal, every valuation of the encoding before extends to the new
-- variables: to the clauses after, to the values of the atoms, and to the value of the term.
pub encode_complete :
    (node : ℕ → TermKind) (ρ V : ℕ → Bool) (fuel t : ℕ) (e e' : Encoding) (l : Lit) (m : Valuation)
    → Interprets node ρ V
    → encode node fuel t e ≡ (ok l, e')
    → InRange e
    → Fits ρ m e
    → Knows V m e
    → (m' : Valuation) × Same e.solver.variable_count m m'
      × Fits ρ m' e'
      × Knows V m' e'
      × (literal_value m' l ≡ V t)
encode_complete node ρ V fuel t e e' l m interprets h range fits knows =
    let spec = encode-Encodes node ρ V interprets fuel t e e' l h in
    let (m', same, fits') = spec.extend m range tt fits knows tt in
    let (k, r) = spec.sound m' range tt fits' (Knows-local V m m' e range same knows) tt in
    (m', same, fits', k, r.0)

-- The encoder keeps all its literals within the variables of the solver.
pub encode-InRange :
    (node : ℕ → TermKind) (ρ V : ℕ → Bool) (fuel t : ℕ) (e e' : Encoding) (l : Lit)
    → Interprets node ρ V
    → encode node fuel t e ≡ (ok l, e')
    → InRange e
    → InRange e' × IsBelow e'.solver.variable_count l
encode-InRange node ρ V fuel t e e' l interprets h range =
    let (r, below) = (encode-Encodes node ρ V interprets fuel t e e' l h).range range tt in
    (r, below.0)
