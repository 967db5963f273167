-- ===== src/Encode.antt =====
-- src/smt/encode.rs: the encoder of Boolean terms as clauses, over the part of src/solver.rs and
-- of src/smt/term.rs that it calls. The nodes of the term store are a parameter.
pub mod Gates
pub mod Meaning
pub mod Grown
pub mod Steps
pub mod Define
pub mod Literals
pub mod Kinds
pub mod Correct
pub mod Ends
pub mod Examples
use satrap.Prelude.{
  ◌&&◌, ℕ, zero, suc, ◌+◌, ◌<◌, ◌≤◌, max, Bool, true, false, Option, none, some, List, [], ◌∷◌,
  ◌++◌, map, ◌==◌, ltb, if◌then◌else◌, length,
}
use satrap.Lit.{Var, Lit, max_variables, var, neg, positive}

-- Terms, symbols and expressions are named by numbers. Of the kinds that are not Boolean, `other`
-- stands for all: the encoder treats them alike.
pub data TermKind : Type 0 where
  bool_ : Bool → TermKind
  atom : ℕ → TermKind
  theory_equality : ℕ → ℕ → ℕ → TermKind
  arithmetic_predicate : ℕ → ℕ → Bool → TermKind
  not_ : ℕ → TermKind
  and_ or_ : List ℕ → TermKind
  xor iff : ℕ → ℕ → TermKind
  ite : ℕ → ℕ → ℕ → TermKind
  other : TermKind

-- IncrementalError, the panic of `unreachable!`, and the end of the fuel.
pub data Failure : Type 0 where
  irreversible_preprocessing variable_limit resource_exhausted : Failure
  unreachable out_of_fuel : Failure

pub data Outcome {ℓ} (A : Type ℓ) : Type ℓ where
  ok : A → Outcome A
  err : Failure → Outcome A

-- What the encoder sees of the solver: the variables, the clauses it was given, whether a
-- preprocessing pass forbids new ones, and how many variables there is memory for.
pub record Sat : Type 0 where
  pub variable_count : ℕ
  pub clauses : List (List Lit)
  pub preprocessed : Bool
  pub capacity : ℕ

-- HashMap<TermId, Lit> and HashMap<SymbolId, Lit>: a key is only ever inserted where it is absent.
abbrev pub Entries : Type 0
Entries = List (ℕ × Lit)

abbrev pub find : ℕ → Entries → Option Lit
find k [] = none
find k (e ∷ es) = let rest = find k es in if e.0 == k then some e.1 else rest

-- The encoder with the solver that it adds to.
pub record Encoding : Type 0 where
  pub term_literals : Entries
  pub atom_literals : Entries
  pub truth : Option Lit
  pub solver : Sat

-- A call that returns an outcome and leaves a state, also where it fails.
abbrev pub Action {ℓ} : Type ℓ → Type ℓ
Action A = Encoding → Outcome A × Encoding

abbrev pub and_then {ℓ κ} :
    {A : Type ℓ} {B : Type κ} → Outcome A × Encoding → (A → Action B) → Outcome B × Encoding
and_then (ok a, e) f = f a e
and_then (err x, e) f = (err x, e)

infixl 5 ◌>>=◌
abbrev pub ◌>>=◌ {ℓ κ} : {A : Type ℓ} {B : Type κ} → Action A → (A → Action B) → Action B
(m >>= f) e = and_then (m e) f

abbrev pub pure {ℓ} : {A : Type ℓ} → A → Action A
pure a e = (ok a, e)

-- `Solver::new_variable` with `try_reserve_variables`
unfoldable pub new_variable : Action Var
new_variable e =
    let s = e.solver in
    if s.variable_count == max_variables
    then (err variable_limit, e)
    else if ltb s.capacity (s.variable_count + 1)
    then (err resource_exhausted, e)
    else if s.preprocessed
    then (err irreversible_preprocessing, e)
    else (
      ok s.variable_count,
      record e { solver = record s { variable_count = s.variable_count + 1 } },
    )

abbrev pub highest : List Lit → ℕ
highest [] = 0
highest (l ∷ ls) = max (var l + 1) (highest ls)

-- `Solver::add_encoding_clause`, up to the growth of the variables; `clauses` receives the clause.
unfoldable pub add_encoding_clause : List Lit → Action {0} Unit
add_encoding_clause c e =
    let s = e.solver in
    if s.preprocessed
    then (err irreversible_preprocessing, e)
    else if ltb s.variable_count (highest c) && ltb max_variables (highest c)
    then (err variable_limit, e)
    else (
      ok tt,
      record e {
        solver = record s {
          variable_count = max s.variable_count (highest c);
          clauses = s.clauses ++ c ∷ [];
        };
      },
    )

unfoldable pub add_all : List (List Lit) → Action {0} Unit
unfolding add_encoding_clause
add_all [] = pure tt
add_all (c ∷ cs) = do _ ← add_encoding_clause c; add_all cs

-- A connective over literals.
pub data Gate : Type 0 where
  and_gate or_gate : List Lit → Gate
  xor_gate iff_gate : Lit → Lit → Gate
  ite_gate : Lit → Lit → Lit → Gate

-- The clauses that tie the output literal to a connective, in the order they are added.
unfoldable pub gate_clauses : Gate → Lit → List (List Lit)
gate_clauses (and_gate inputs) output =
    map (λ input. neg output ∷ input ∷ []) inputs ++ (output ∷ map neg inputs) ∷ []
gate_clauses (or_gate inputs) output =
    map (λ input. neg input ∷ output ∷ []) inputs ++ (neg output ∷ inputs) ∷ []
gate_clauses (xor_gate left right) output =
    (left ∷ right ∷ neg output ∷ [])
    ∷ (neg left ∷ neg right ∷ neg output ∷ [])
    ∷ (left ∷ neg right ∷ output ∷ [])
    ∷ (neg left ∷ right ∷ output ∷ [])
    ∷ []
gate_clauses (iff_gate left right) output =
    (left ∷ right ∷ output ∷ [])
    ∷ (neg left ∷ neg right ∷ output ∷ [])
    ∷ (left ∷ neg right ∷ neg output ∷ [])
    ∷ (neg left ∷ right ∷ neg output ∷ [])
    ∷ []
gate_clauses (ite_gate condition then_term else_term) output =
    (neg condition ∷ neg then_term ∷ output ∷ [])
    ∷ (neg condition ∷ then_term ∷ neg output ∷ [])
    ∷ (condition ∷ neg else_term ∷ output ∷ [])
    ∷ (condition ∷ else_term ∷ neg output ∷ [])
    ∷ []

-- A fresh output literal and its clauses.
unfoldable pub encode_gate : Gate → Action Lit
unfolding new_variable add_all
encode_gate g = do v ← new_variable; _ ← add_all (gate_clauses g (positive v)); pure (positive v)

abbrev known_truth : Option Lit → Action Lit
known_truth (some l) = pure l
known_truth none = do
  v ← new_variable
  _ ← add_encoding_clause (positive v ∷ [])
  λ e. (ok (positive v), record e { truth = some (positive v) })

unfoldable pub truth_literal : Action Lit
unfolding new_variable add_encoding_clause
truth_literal e = known_truth e.truth e

abbrev known_atom : ℕ → Option Lit → Action Lit
known_atom symbol (some l) = pure l
known_atom symbol none = do
  v ← new_variable
  λ e. (ok (positive v), record e { atom_literals = (symbol, positive v) ∷ e.atom_literals })

-- The literal of an atom, made on its first use.
unfoldable pub encode_atom : ℕ → Action Lit
unfolding new_variable
encode_atom symbol e = known_atom symbol (find symbol e.atom_literals) e

unfoldable pub encode_items : (ℕ → Action Lit) → List ℕ → Action (List Lit)
encode_items go [] = pure []
encode_items go (t ∷ ts) = do l ← go t; ls ← encode_items go ts; pure (l ∷ ls)

-- What the arms of the match return; `go` encodes an inner term.
unfoldable pub encode_kind : (ℕ → Action Lit) → TermKind → Action Lit
unfolding truth_literal encode_atom encode_items encode_gate
encode_kind go (bool_ value) = do truth ← truth_literal; pure (if value then truth else neg truth)
encode_kind go (atom symbol) = encode_atom symbol
encode_kind go (theory_equality symbol left right) = encode_atom symbol
encode_kind go (arithmetic_predicate symbol expression strict) = encode_atom symbol
encode_kind go (not_ inner) = do l ← go inner; pure (neg l)
encode_kind go (and_ items) = do inputs ← encode_items go items; encode_gate (and_gate inputs)
encode_kind go (or_ items) = do inputs ← encode_items go items; encode_gate (or_gate inputs)
encode_kind go (xor left right) = do l ← go left; r ← go right; encode_gate (xor_gate l r)
encode_kind go (iff left right) = do l ← go left; r ← go right; encode_gate (iff_gate l r)
encode_kind go (ite condition then_term else_term) = do
  c ← go condition
  t ← go then_term
  f ← go else_term
  encode_gate (ite_gate c t f)
encode_kind go other = λ e. (err unreachable, e)

abbrev insert_term : ℕ → Lit → Action Lit
insert_term t l e = (ok l, record e { term_literals = (t, l) ∷ e.term_literals })

abbrev known_term : Action Lit → Option Lit → Action Lit
known_term make (some l) = pure l
known_term make none = make

-- `encode`; the fuel bounds the depth of the term.
unfoldable pub encode : (ℕ → TermKind) → ℕ → ℕ → Action Lit
unfolding encode_kind
encode node zero t e = (err out_of_fuel, e)
encode node (suc fuel) t e =
    known_term (encode_kind (encode node fuel) (node t) >>= insert_term t) (find t e.term_literals)
      e
