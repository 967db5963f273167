-- ===== src/Encode/Examples.antt =====
-- The encoder of src/smt/encode.rs on `(a xor b) and a`.
use satrap.Prelude.{ℕ, zero, suc, Bool, true, false, none, [], ◌∷◌, get_or, ◌≡◌, refl, arith}
use satrap.Lit.{positive, neg, var, is_positive}
use satrap.Clause.{Valuation, literal_value, valuation}
use satrap.Encode.{
  TermKind, bool_, atom, xor, and_, Encoding, ok, encode, encode_kind, encode_gate, encode_atom,
  encode_items, truth_literal, new_variable, add_all, add_encoding_clause, gate_clauses,
}
use satrap.Encode.Meaning.{Interprets, Same, InRange, Fits, Knows}
use satrap.Encode.Correct.{encode_sound, encode_complete}

abbrev node : ℕ → TermKind
node t = get_or (bool_ true ∷ atom 0 ∷ atom 1 ∷ xor 1 2 ∷ and_ (3 ∷ 1 ∷ []) ∷ []) t (bool_ true)

-- `a` is true and `b` is false.
abbrev symbols : ℕ → Bool
symbols s = get_or (true ∷ []) s false

abbrev values : ℕ → Bool
values t = get_or (true ∷ true ∷ false ∷ []) t true

interpreted : Interprets node symbols values
interpreted zero = refl
interpreted (suc zero) = refl
interpreted (suc (suc zero)) = refl
interpreted (suc (suc (suc zero))) = refl
interpreted (suc (suc (suc (suc zero)))) = refl
interpreted (suc (suc (suc (suc (suc t))))) = refl

abbrev start : Encoding
start = record {
  term_literals = [];
  atom_literals = [];
  truth = none;
  solver = record { variable_count = 0; clauses = []; preprocessed = false; capacity = 100 };
}

abbrev after : Encoding
after = record {
  term_literals = (4, 6) ∷ (3, 4) ∷ (2, 2) ∷ (1, 0) ∷ [];
  atom_literals = (1, 2) ∷ (0, 0) ∷ [];
  truth = none;
  solver = record {
    variable_count = 4;
    clauses =
        (0 ∷ 2 ∷ 5 ∷ [])
        ∷ (1 ∷ 3 ∷ 5 ∷ [])
        ∷ (0 ∷ 3 ∷ 4 ∷ [])
        ∷ (1 ∷ 2 ∷ 4 ∷ [])
        ∷ (7 ∷ 4 ∷ [])
        ∷ (7 ∷ 0 ∷ [])
        ∷ (6 ∷ 5 ∷ 1 ∷ [])
        ∷ [];
    preprocessed = false;
    capacity = 100;
  };
}

encoded : encode node 5 4 start ≡ (ok 6, after)
unfolding encode encode_kind encode_gate encode_atom encode_items truth_literal new_variable add_all
    add_encoding_clause gate_clauses positive neg var
encoded = refl

start-InRange : InRange start
start-InRange = record { limit = omega arith; terms = tt; atoms = tt; truth = tt; clauses = tt }

start-Fits : (m : Valuation) → Fits symbols m start
start-Fits m = record { clauses = refl; atoms = tt }

start-Knows : (m : Valuation) → Knows values m start
start-Knows m = record { terms = tt; truth = tt }

abbrev model : Valuation
model = valuation (true ∷ false ∷ true ∷ true ∷ [])

model-Fits : Fits symbols model after
unfolding literal_value var is_positive
model-Fits = record { clauses = refl; atoms = (refl, (refl, tt)) }

encode_sound_example :
    (literal_value model 6 ≡ true) × Fits symbols model start × Knows values model after
encode_sound_example =
    encode_sound node symbols values 5 4 start after 6 model interpreted encoded start-InRange
      model-Fits (λ f. start-Knows model)

encode_complete_example :
    (m' : Valuation) × Same 0 (valuation []) m'
    × Fits symbols m' after
    × Knows values m' after
    × (literal_value m' 6 ≡ true)
encode_complete_example =
    encode_complete node symbols values 5 4 start after 6 (valuation []) interpreted encoded
      start-InRange (start-Fits (valuation [])) (start-Knows (valuation []))
