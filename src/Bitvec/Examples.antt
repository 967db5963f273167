-- ===== src/Bitvec/Examples.antt =====
-- Two variables of three bits, with the values 5 and 3, for the circuits of src/smt/bitvec.rs.
use satrap.Prelude.{
  ℕ, ◌+◌, ◌-◌, ◌*◌, ◌/◌, ◌%◌, ◌^◌, Bool, true, false, not, ◌&&◌, [], ◌∷◌, get_or, ltb, leb,
  if◌then◌else◌, ◌==◌, ◌≡◌, ◌⊎◌, ◌≤◌, ◌<◌, refl, subst, All, arith,
}
use satrap.Terms.{
  boolean, bit_vec, bool_, atom, bits_of, TermNode, TermStore, Outcome, ok, err, does_not_fit,
  work_limit, new_store, intern, require_bool, require_bools, make_bitvec, sort_of, fresh_symbol,
  fresh_bool_atom, bitvec_bits, TermNode-discrete,
}
use satrap.Terms.Good.{HasSort, IsGood, Extends}
use satrap.Terms.Post.{of_ok, Post}
use satrap.Terms.Eval.{evaluate, evaluate_bitvec, evaluate_each, eval_kind}
use native.Mathlib.Decide.{ℕ_discrete}
use satrap.Bitvec.{check_width}
use satrap.Bitvec.Literals.{fresh_atoms, fresh_bitvec}
use satrap.Bitvec.Fresh.{new_store-IsGood, fresh_bitvec-Grows}
use satrap.Bitvec.Denotes.{Denotes, MakesWord}
use satrap.Terms.Connectives.{Makes}
use satrap.Bitvec.Comparison.{offset}
use satrap.Bitvec.Overflow.{sum_fits, difference_fits}
use satrap.Bitvec.Literals.{bitvec_from_decimal}
use satrap.Bitvec.Decimal.{numeral}
use satrap.Bitvec.Widths.{Rejects, arithmetic, comparisons, overflow_tests, widths_differ}
use satrap.Bitvec.{max_quadratic_lowering_work}
use satrap.Bitvec.Shifts.{bvshl, bvlshr, bvashr}
use satrap.Bitvec.Arithmetic.{bvneg, bvadd, bvsub, bvmul}
use satrap.Bitvec.Compare.{
  bvult, bvule, bvslt, bvsle, bvnego, bvuaddo, bvsaddo, bvumulo, bvssubo, bvusubo, bvsdivo,
}
use satrap.Bitvec.Correct.{
  sums_denote, products_denote, shifts_denote, decimal_denotes, comparisons_evaluate,
  overflows_evaluate,
}

abbrev node : ℕ → TermNode
node x = record { sort = boolean; kind = atom x }

abbrev one_word : TermStore
one_word = record {
  nodes =
      record { sort = boolean; kind = bool_ true }
      ∷ record { sort = boolean; kind = bool_ false }
      ∷ node 0
      ∷ node 1
      ∷ node 2
      ∷ record { sort = bit_vec 3; kind = bits_of (2 ∷ 3 ∷ 4 ∷ []) }
      ∷ [];
  next_symbol = 3;
}

abbrev pub two_words : TermStore
two_words = record {
  nodes =
      record { sort = boolean; kind = bool_ true }
      ∷ record { sort = boolean; kind = bool_ false }
      ∷ node 0
      ∷ node 1
      ∷ node 2
      ∷ record { sort = bit_vec 3; kind = bits_of (2 ∷ 3 ∷ 4 ∷ []) }
      ∷ node 3
      ∷ node 4
      ∷ node 5
      ∷ record { sort = bit_vec 3; kind = bits_of (6 ∷ 7 ∷ 8 ∷ []) }
      ∷ [];
  next_symbol = 6;
}

first_made : fresh_bitvec 3 new_store ≡ (ok 5, one_word)
unfolding fresh_bitvec check_width fresh_atoms fresh_bool_atom fresh_symbol intern make_bitvec
    require_bools require_bool sort_of TermNode-discrete ℕ_discrete
first_made = refl

second_made : fresh_bitvec 3 one_word ≡ (ok 9, two_words)
unfolding fresh_bitvec check_width fresh_atoms fresh_bool_atom fresh_symbol intern make_bitvec
    require_bools require_bool sort_of TermNode-discrete ℕ_discrete
second_made = refl

one_word-IsGood : IsGood one_word
one_word-IsGood =
    (of_ok (
      subst
        (λ (r : Outcome ℕ × TermStore).
          Post (λ t s'. Extends new_store s' × HasSort s' t (bit_vec 3)) r)
        first_made
        (fresh_bitvec-Grows new_store 3 new_store-IsGood (omega arith) (omega arith)))).0.good

pub two_words-IsGood : IsGood two_words
two_words-IsGood =
    (of_ok (
      subst
        (λ (r : Outcome ℕ × TermStore).
          Post (λ t s'. Extends one_word s' × HasSort s' t (bit_vec 3)) r)
        second_made
        (fresh_bitvec-Grows one_word 3 one_word-IsGood (omega arith) (omega arith)))).0.good

abbrev pub symbols : ℕ → Bool
symbols x = get_or (true ∷ false ∷ true ∷ true ∷ true ∷ false ∷ []) x false

five : Denotes symbols two_words 5 3 5
unfolding evaluate_bitvec evaluate_each evaluate eval_kind bitvec_bits
five = ((bits_of (2 ∷ 3 ∷ 4 ∷ []), refl), (true ∷ false ∷ true ∷ [], refl, refl, refl))

three : Denotes symbols two_words 9 3 3
unfolding evaluate_bitvec evaluate_each evaluate eval_kind bitvec_bits
three = ((bits_of (6 ∷ 7 ∷ 8 ∷ []), refl), (true ∷ true ∷ false ∷ [], refl, refl, refl))

sums_denote_example :
    MakesWord symbols two_words 3 ((2 ^ 3 - 5) % 2 ^ 3) (bvneg 5 two_words)
    × MakesWord symbols two_words 3 (11 % 2 ^ 3) (bvadd (5 ∷ 9 ∷ 9 ∷ []) two_words)
    × MakesWord symbols two_words 3 ((5 + (2 ^ 3 - 3)) % 2 ^ 3) (bvsub 5 9 two_words)
sums_denote_example =
    sums_denote symbols two_words 3 5 9 (9 ∷ []) 5 3 (3 ∷ []) two_words-IsGood (omega arith)
      (five, (three, (three, tt)))

products_denote_example : MakesWord symbols two_words 3 (15 % 2 ^ 3) (bvmul (5 ∷ 9 ∷ []) two_words)
products_denote_example =
    products_denote symbols two_words 3 5 9 [] 5 3 [] two_words-IsGood (omega arith) (omega arith)
      (five, (three, tt))

shifts_denote_example :
    MakesWord symbols two_words 3 ((5 * 2 ^ 3) % 2 ^ 3) (bvshl 5 9 two_words)
    × MakesWord symbols two_words 3 (5 / 2 ^ 3) (bvlshr 5 9 two_words)
    × MakesWord symbols two_words 3
        (if leb 4 5 then 7 - (7 - 5) / 2 ^ 3 else 5 / 2 ^ 3)
        (bvashr 5 9 two_words)
shifts_denote_example =
    shifts_denote symbols two_words 2 5 9 5 3 two_words-IsGood (omega arith) five three

decimal_denotes_example :
    ((numeral (b'1' ∷ b'3' ∷ []) < 2 ^ 4)
      × MakesWord symbols two_words 4
          (numeral (b'1' ∷ b'3' ∷ []))
          (bitvec_from_decimal (b'1' ∷ b'3' ∷ []) 4 two_words))
    ⊎ ((2 ^ 4 ≤ numeral (b'1' ∷ b'3' ∷ []))
        × (bitvec_from_decimal (b'1' ∷ b'3' ∷ []) 4 two_words ≡ (err does_not_fit, two_words)))
decimal_denotes_example =
    decimal_denotes symbols two_words b'1' (b'3' ∷ []) 4 two_words-IsGood (omega arith)
      (omega arith) refl refl

comparisons_evaluate_example :
    Makes symbols two_words (ltb 5 3) (bvult 5 9 two_words)
    × Makes symbols two_words (leb 5 3) (bvule 5 9 two_words)
    × Makes symbols two_words (ltb (offset 2 5) (offset 2 3)) (bvslt 5 9 two_words)
    × Makes symbols two_words (leb (offset 2 5) (offset 2 3)) (bvsle 5 9 two_words)
comparisons_evaluate_example =
    comparisons_evaluate symbols two_words 2 5 9 5 3 two_words-IsGood five three

overflows_evaluate_example :
    Makes symbols two_words (5 == 4) (bvnego 5 two_words)
    × Makes symbols two_words (leb 8 8) (bvuaddo 5 9 two_words)
    × Makes symbols two_words (not (sum_fits 2 5 3)) (bvsaddo 5 9 two_words)
    × Makes symbols two_words (ltb 5 3) (bvusubo 5 9 two_words)
    × Makes symbols two_words (not (difference_fits 2 5 3)) (bvssubo 5 9 two_words)
    × Makes symbols two_words ((5 == 4) && (3 == 7)) (bvsdivo 5 9 two_words)
    × (((9 ≤ max_quadratic_lowering_work)
          × Makes symbols two_words (leb 8 15) (bvumulo 5 9 two_words))
        ⊎ ((max_quadratic_lowering_work < 9)
            × (bvumulo 5 9 two_words ≡ (err work_limit, two_words))))
overflows_evaluate_example =
    overflows_evaluate symbols two_words 2 5 9 5 3 two_words-IsGood five three

-- A store with words of one bit and of two bits.
abbrev mixed : TermStore
mixed = record {
  nodes =
      record { sort = boolean; kind = bool_ true }
      ∷ record { sort = boolean; kind = bool_ false }
      ∷ record { sort = bit_vec 1; kind = bits_of (0 ∷ []) }
      ∷ record { sort = bit_vec 2; kind = bits_of (0 ∷ 1 ∷ []) }
      ∷ [];
  next_symbol = 0;
}

widths_differ_example :
    All (Rejects mixed 2 3) arithmetic
    × All (Rejects mixed 2 3) comparisons
    × All (Rejects mixed 2 3) overflow_tests
widths_differ_example =
    widths_differ mixed 2 3 1 2 (bits_of (0 ∷ []), refl) (bits_of (0 ∷ 1 ∷ []), refl) refl
