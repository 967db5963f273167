-- ===== src/Encode/Ends.antt =====
-- `encode` of src/smt/encode.rs ends, on terms whose inner terms were made before them.
use satrap.Prelude.{
  ◌&&◌, ℕ, zero, suc, ◌+◌, ◌<◌, Option, none, some, List, [], ◌∷◌, arith, All, Bool-cases, inl, inr,
  ◌==◌, ltb,
}
use satrap.Lit.{Lit, max_variables, positive}
use satrap.Encode.{
  TermKind, bool_, atom, theory_equality, arithmetic_predicate, not_, and_, or_, xor, iff, ite,
  other, irreversible_preprocessing, variable_limit, resource_exhausted, unreachable, out_of_fuel,
  Outcome, ok, err, find, Encoding, Action, and_then, ◌>>=◌, new_variable, add_encoding_clause,
  add_all, highest, Gate, gate_clauses, encode_gate, truth_literal, known_truth, encode_atom,
  known_atom, encode_items, encode_kind, encode, known_term, insert_term,
}

-- An earlier term that is Boolean.
abbrev Earlier : (ℕ → Type 0) → ℕ → ℕ → Type 0
Earlier IsBoolean t a = (a < t) × IsBoolean a

-- A Boolean term whose inner terms are Boolean and have smaller numbers.
abbrev pub IsOrdered : (ℕ → Type 0) → ℕ → TermKind → Type 0
IsOrdered B t (not_ a) = Earlier B t a
IsOrdered B t (and_ ts) = All (Earlier B t) ts
IsOrdered B t (or_ ts) = All (Earlier B t) ts
IsOrdered B t (xor a b) = Earlier B t a × Earlier B t b
IsOrdered B t (iff a b) = Earlier B t a × Earlier B t b
IsOrdered B t (ite a b c) = Earlier B t a × Earlier B t b × Earlier B t c
IsOrdered B t other = ⊥
IsOrdered B t (bool_ b) = Unit
IsOrdered B t (atom s) = Unit
IsOrdered B t (theory_equality s l r) = Unit
IsOrdered B t (arithmetic_predicate s x strict) = Unit

-- A literal, or an error of the solver: no panic, and no end of the fuel.
abbrev pub Ends {ℓ} : {A : Type ℓ} → Outcome A → Type 0
Ends (ok a) = Unit
Ends (err irreversible_preprocessing) = Unit
Ends (err variable_limit) = Unit
Ends (err resource_exhausted) = Unit
Ends (err unreachable) = ⊥
Ends (err out_of_fuel) = ⊥

and_then-Ends {ℓ κ} :
    {A : Type ℓ} {B : Type κ} (r : Outcome A × Encoding) (f : A → Action B)
    → Ends r.0
    → ((a : A) (e : Encoding) → Ends (f a e).0)
    → Ends (and_then r f).0
and_then-Ends (ok a, e) f h k = k a e
and_then-Ends (err irreversible_preprocessing, e) f h k = tt
and_then-Ends (err variable_limit, e) f h k = tt
and_then-Ends (err resource_exhausted, e) f h k = tt
and_then-Ends (err unreachable, e) f h k = h
and_then-Ends (err out_of_fuel, e) f h k = h

new_variable-Ends : (e : Encoding) → Ends (new_variable e).0
unfolding new_variable
new_variable-Ends e = elim (Bool-cases (e.solver.variable_count == max_variables)) [
  | inl full ↦ rw full tt
  | inr room ↦ elim (Bool-cases (ltb e.solver.capacity (e.solver.variable_count + 1))) [
    | inl out ↦ rw (room, out) tt
    | inr memory ↦ elim (Bool-cases e.solver.preprocessed) [
      | inl frozen ↦ rw (room, memory, frozen) tt
      | inr open_ ↦ rw (room, memory, open_) tt
    ]
  ]
]

add_encoding_clause-Ends : (c : List Lit) (e : Encoding) → Ends (add_encoding_clause c e).0
unfolding add_encoding_clause
add_encoding_clause-Ends c e = elim (Bool-cases e.solver.preprocessed) [
  | inl frozen ↦ rw frozen tt
  | inr open_ ↦
      elim (Bool-cases (ltb e.solver.variable_count (highest c) && ltb max_variables (highest c))) [
        | inl over ↦ rw (open_, over) tt
        | inr fits ↦ rw (open_, fits) tt
      ]
]

add_all-Ends : (cs : List (List Lit)) (e : Encoding) → Ends (add_all cs e).0
unfolding add_all
add_all-Ends [] e = tt
add_all-Ends (c ∷ cs) e =
    and_then-Ends (add_encoding_clause c e) _ (add_encoding_clause-Ends c e)
      (λ u e'. add_all-Ends cs e')

encode_gate-Ends : (g : Gate) (e : Encoding) → Ends (encode_gate g e).0
unfolding encode_gate
encode_gate-Ends g e = and_then-Ends (new_variable e) _ (new_variable-Ends e) (λ v e'.
    and_then-Ends (add_all (gate_clauses g (positive v)) e') _ (add_all-Ends _ e') (λ u e''. tt))

known_truth-Ends : (o : Option Lit) (e : Encoding) → Ends (known_truth o e).0
known_truth-Ends (some l) e = tt
known_truth-Ends none e = and_then-Ends (new_variable e) _ (new_variable-Ends e) (λ v e'.
    and_then-Ends (add_encoding_clause (positive v ∷ []) e') _ (add_encoding_clause-Ends _ e')
      (λ u e''. tt))

known_atom-Ends : (symbol : ℕ) (o : Option Lit) (e : Encoding) → Ends (known_atom symbol o e).0
known_atom-Ends symbol (some l) e = tt
known_atom-Ends symbol none e = and_then-Ends (new_variable e) _ (new_variable-Ends e) (λ v e'. tt)

module _ (B : ℕ → Type 0) (t : ℕ) (go : ℕ → Action Lit)
    (ih : (a : ℕ) → Earlier B t a → (e : Encoding) → Ends (go a e).0) where
  encode_items-Ends :
      (ts : List ℕ) → All (Earlier B t) ts → (e : Encoding) → Ends (encode_items go ts e).0
  unfolding encode_items
  encode_items-Ends [] h e = tt
  encode_items-Ends (a ∷ ts) (p, h) e =
      and_then-Ends (go a e) _ (ih a p e)
        (λ l e'. and_then-Ends (encode_items go ts e') _ (encode_items-Ends ts h e') (λ ls e''. tt))

  binary-Ends :
      (gate : Lit → Lit → Gate) (a b : ℕ) (e : Encoding)
      → Earlier B t a
      → Earlier B t b
      → Ends ((go a >>= (λ l. go b >>= (λ r. encode_gate (gate l r)))) e).0
  binary-Ends gate a b e ha hb =
      and_then-Ends (go a e) _ (ih a ha e)
        (λ l e'. and_then-Ends (go b e') _ (ih b hb e') (λ r e''. encode_gate-Ends (gate l r) e''))

  encode_kind-Ends :
      (kind : TermKind) (e : Encoding) → IsOrdered B t kind → Ends (encode_kind go kind e).0
  unfolding encode_kind truth_literal encode_atom
  encode_kind-Ends (bool_ b) e h =
      and_then-Ends (truth_literal e) _ (known_truth-Ends e.truth e) (λ l e'. tt)
  encode_kind-Ends (atom s) e h = known_atom-Ends s (find s e.atom_literals) e
  encode_kind-Ends (theory_equality s l r) e h = known_atom-Ends s (find s e.atom_literals) e
  encode_kind-Ends (arithmetic_predicate s x strict) e h =
      known_atom-Ends s (find s e.atom_literals) e
  encode_kind-Ends (not_ a) e h = and_then-Ends (go a e) _ (ih a h e) (λ l e'. tt)
  encode_kind-Ends (and_ ts) e h =
      and_then-Ends (encode_items go ts e) _ (encode_items-Ends ts h e)
        (λ ls e'. encode_gate-Ends _ e')
  encode_kind-Ends (or_ ts) e h =
      and_then-Ends (encode_items go ts e) _ (encode_items-Ends ts h e)
        (λ ls e'. encode_gate-Ends _ e')
  encode_kind-Ends (xor a b) e (ha, hb) = binary-Ends _ a b e ha hb
  encode_kind-Ends (iff a b) e (ha, hb) = binary-Ends _ a b e ha hb
  encode_kind-Ends (ite a b c) e (ha, hb, hc) = and_then-Ends (go a e) _ (ih a ha e) (λ x e₁.
      and_then-Ends (go b e₁) _ (ih b hb e₁)
        (λ y e₂. and_then-Ends (go c e₂) _ (ih c hc e₂) (λ z e₃. encode_gate-Ends _ e₃)))
  encode_kind-Ends other e h = elim h [ ]

-- On Boolean terms whose inner terms are Boolean and have smaller numbers, `encode` returns a literal
-- or an error of the solver: fuel above the number of the term never runs out.
pub encode-Ends :
    (node : ℕ → TermKind) (IsBoolean : ℕ → Type 0) (fuel t : ℕ) (e : Encoding)
    → ((a : ℕ) → IsBoolean a → IsOrdered IsBoolean a (node a))
    → IsBoolean t
    → t < fuel
    → Ends (encode node fuel t e).0
unfolding encode
encode-Ends node B zero t e ordered b h = elim h [ ]
encode-Ends node B (suc fuel) t e ordered b h =
    go (find t e.term_literals)
      (λ a (below, k) e'. encode-Ends node B fuel a e' ordered k (omega arith))
  where
    go :
        (o : Option Lit)
        → ((a : ℕ) → Earlier B t a → (e' : Encoding) → Ends (encode node fuel a e').0)
        → Ends (known_term (encode_kind (encode node fuel) (node t) >>= insert_term t) o e).0
    go (some l) ih = tt
    go none ih =
        and_then-Ends (encode_kind (encode node fuel) (node t) e) _
          (encode_kind-Ends B t (encode node fuel) ih (node t) e (ordered t b)) (λ l e'. tt)
