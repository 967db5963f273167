-- ===== src/Terms/Examples.antt =====
-- The Boolean constructors of src/smt/term.rs, and the encoder, on a store with six atoms.
use satrap.Prelude.{ℕ, true, false, none, [], ◌∷◌, ◌++◌, ◌≡◌, refl, subst, arith}
use satrap.Lit.{var, is_positive, positive, neg}
use satrap.Clause.{Valuation, literal_value, valuation}
use satrap.Encode
use satrap.Encode.{
  Encoding, encode, encode_kind, encode_gate, encode_atom, encode_items, truth_literal,
  new_variable, add_all, add_encoding_clause, gate_clauses,
}
use satrap.Encode.Meaning.{InRange, Fits}
use satrap.Encode.Ends.{Ends}
use native.Mathlib.Decide.{ℕ_discrete}
use satrap.Terms.{
  boolean, atom, xor_of, TermStore, Outcome, ok, intern, require_bool, sort_of, TermNode-discrete,
}
use satrap.Terms.Good.{IsGood, Extends}
use satrap.Terms.Post.{of_ok, Post}
use satrap.Terms.Value.{Reads}
use satrap.Terms.Eval.{evaluate, evaluate_bool, eval_kind}
use satrap.Terms.Connectives.{Makes, Evaluates, junctions_evaluate, connectives_evaluate}
use satrap.Terms.Reading.{node_value}
use satrap.Terms.Evaluated.{evaluate_bool_total}
use satrap.Terms.Encoded.{store_kind, encode_store-Ends, encode_evaluates}
use satrap.Terms.Build.{not_, and_, or_, xor, iff, parity, are_complements, parity_of}
use satrap.Terms.Combine.{ite}
use satrap.Bitvec.Examples.{two_words, two_words-IsGood, symbols}

low : Evaluates symbols two_words 2 true
unfolding evaluate_bool evaluate eval_kind require_bool sort_of
low = ((atom 0, refl), refl)

middle : Evaluates symbols two_words 3 false
unfolding evaluate_bool evaluate eval_kind require_bool sort_of
middle = ((atom 1, refl), refl)

junctions_evaluate_example :
    Makes symbols two_words false (and_ (2 ∷ 3 ∷ []) two_words)
    × Makes symbols two_words true (or_ (2 ∷ 3 ∷ []) two_words)
junctions_evaluate_example =
    junctions_evaluate symbols two_words (2 ∷ 3 ∷ []) (true ∷ false ∷ []) two_words-IsGood
      (low, (middle, tt))

connectives_evaluate_example :
    Makes symbols two_words false (not_ 2 two_words)
    × Makes symbols two_words true (xor 2 3 two_words)
    × Makes symbols two_words false (iff 2 3 two_words)
    × Makes symbols two_words false (ite 2 3 2 two_words)
connectives_evaluate_example =
    connectives_evaluate symbols two_words 2 3 2 true false true two_words-IsGood low middle low

evaluate_bool_total_example :
    (evaluate_bool two_words symbols 3 ≡ ok (node_value symbols two_words 3))
    × Reads symbols (node_value symbols two_words) two_words
evaluate_bool_total_example =
    evaluate_bool_total symbols two_words 3 two_words-IsGood (atom 1, refl)

-- The store after `xor` of the first two atoms.
abbrev with_xor : TermStore
with_xor = record two_words {
  nodes = two_words.nodes ++ record { sort = boolean; kind = xor_of 2 3 } ∷ [];
}

xor_made : xor 2 3 two_words ≡ (ok 10, with_xor)
unfolding xor parity parity_of are_complements intern require_bool sort_of TermNode-discrete
    ℕ_discrete
xor_made = refl

with_xor-IsGood : IsGood with_xor
with_xor-IsGood =
    (of_ok (
      subst
        (λ (r : Outcome ℕ × TermStore).
          Post (λ u s'. Extends two_words s' × Evaluates symbols s' u true) r)
        xor_made
        (connectives_evaluate symbols two_words 2 3 2 true false true two_words-IsGood low middle
          low).1)).0.good

abbrev start : Encoding
start = record {
  term_literals = [];
  atom_literals = [];
  truth = none;
  solver = record { variable_count = 0; clauses = []; preprocessed = false; capacity = 100 };
}

encode_store-Ends_example : Ends (encode (store_kind with_xor) 11 10 start).0
encode_store-Ends_example = encode_store-Ends with_xor 10 start with_xor-IsGood (xor_of 2 3, refl)

abbrev after : Encoding
after = record {
  term_literals = (10, 4) ∷ (3, 2) ∷ (2, 0) ∷ [];
  atom_literals = (1, 2) ∷ (0, 0) ∷ [];
  truth = none;
  solver = record {
    variable_count = 3;
    clauses = (0 ∷ 2 ∷ 5 ∷ []) ∷ (1 ∷ 3 ∷ 5 ∷ []) ∷ (0 ∷ 3 ∷ 4 ∷ []) ∷ (1 ∷ 2 ∷ 4 ∷ []) ∷ [];
    preprocessed = false;
    capacity = 100;
  };
}

encoded : encode (store_kind with_xor) 11 10 start ≡ (Encode.ok 4, after)
unfolding encode encode_kind encode_gate encode_atom encode_items truth_literal new_variable add_all
    add_encoding_clause gate_clauses positive neg var
encoded = refl

start-InRange : InRange start
start-InRange = record { limit = omega arith; terms = tt; atoms = tt; truth = tt; clauses = tt }

abbrev model : Valuation
model = valuation (true ∷ false ∷ true ∷ [])

model-Fits : Fits symbols model after
unfolding literal_value var is_positive
model-Fits = record { clauses = refl; atoms = (refl, (refl, tt)) }

encode_evaluates_example : evaluate_bool with_xor symbols 10 ≡ ok (literal_value model 4)
encode_evaluates_example =
    encode_evaluates symbols with_xor 11 10 start after 4 model with_xor-IsGood (xor_of 2 3, refl)
      encoded start-InRange model-Fits (λ f. record { terms = tt; truth = tt })
