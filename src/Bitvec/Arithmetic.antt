-- ===== src/Bitvec/Arithmetic.antt =====
-- The arithmetic operations of src/smt/bitvec.rs on terms: each reads the bits of its operands,
-- builds the circuits and makes a term of the result.
use satrap.Prelude.{ℕ, ◌==◌, List, [], ◌∷◌, if◌then◌else◌}
use satrap.Terms.{
  Action, ◌>>=◌, pure, fail, bitvec_bits, make_bitvec, too_few_arguments, different_widths,
}
use satrap.Terms.Build.{not_, and_, xor}
use satrap.Bitvec.{
  add_bits, negate_bits, subtract_bits, multiply_bits, unsigned_divide_bits, select_bits,
  is_zero_bits, absolute_bits, check_quadratic,
}
use satrap.Bitvec.Words.{bitvec_width, require_same_bv_width, sign_of}

unfoldable pub bvneg : ℕ → Action ℕ
unfolding bitvec_bits negate_bits make_bitvec
bvneg t = do bits ← bitvec_bits t; result ← negate_bits bits; make_bitvec result

-- The loop of `bvadd` over the further operands.
unfoldable pub add_onto : ℕ → List ℕ → List ℕ → Action (List ℕ)
unfolding bitvec_width bitvec_bits add_bits
add_onto width result [] = pure result
add_onto width result (t ∷ ts) = do
  term_width ← bitvec_width t
  if term_width == width
      then (do right ← bitvec_bits t; sum ← add_bits result right; add_onto width sum.0 ts)
      else fail different_widths

unfoldable pub bvadd : List ℕ → Action ℕ
unfolding bitvec_width bitvec_bits add_onto make_bitvec
bvadd [] = fail too_few_arguments
bvadd (t ∷ []) = fail too_few_arguments
bvadd (t ∷ u ∷ ts) = do
  width ← bitvec_width t
  first ← bitvec_bits t
  result ← add_onto width first (u ∷ ts)
  make_bitvec result

unfoldable pub bvsub : ℕ → ℕ → Action ℕ
unfolding require_same_bv_width bitvec_bits subtract_bits make_bitvec
bvsub left right = do
  _ ← require_same_bv_width left right
  left_bits ← bitvec_bits left
  right_bits ← bitvec_bits right
  result ← subtract_bits left_bits right_bits
  make_bitvec result

-- The loop of `bvmul` over the further operands.
unfoldable pub multiply_onto : ℕ → List ℕ → List ℕ → Action (List ℕ)
unfolding bitvec_width bitvec_bits multiply_bits
multiply_onto width result [] = pure result
multiply_onto width result (t ∷ ts) = do
  term_width ← bitvec_width t
  if term_width == width
      then (do
        right ← bitvec_bits t
        product ← multiply_bits result right width
        multiply_onto width product ts)
      else fail different_widths

unfoldable pub bvmul : List ℕ → Action ℕ
unfolding bitvec_width check_quadratic bitvec_bits multiply_onto make_bitvec
bvmul [] = fail too_few_arguments
bvmul (t ∷ []) = fail too_few_arguments
bvmul (t ∷ u ∷ ts) = do
  width ← bitvec_width t
  _ ← check_quadratic width
  first ← bitvec_bits t
  result ← multiply_onto width first (u ∷ ts)
  make_bitvec result

unfoldable pub bvudiv : ℕ → ℕ → Action ℕ
unfolding require_same_bv_width bitvec_bits unsigned_divide_bits make_bitvec
bvudiv dividend divisor = do
  _ ← require_same_bv_width dividend divisor
  dividend_bits ← bitvec_bits dividend
  divisor_bits ← bitvec_bits divisor
  result ← unsigned_divide_bits dividend_bits divisor_bits
  make_bitvec result.0

unfoldable pub bvurem : ℕ → ℕ → Action ℕ
unfolding require_same_bv_width bitvec_bits unsigned_divide_bits make_bitvec
bvurem dividend divisor = do
  _ ← require_same_bv_width dividend divisor
  dividend_bits ← bitvec_bits dividend
  divisor_bits ← bitvec_bits divisor
  result ← unsigned_divide_bits dividend_bits divisor_bits
  make_bitvec result.1

unfoldable pub bvsdiv : ℕ → ℕ → Action ℕ
unfolding require_same_bv_width bitvec_bits absolute_bits unsigned_divide_bits negate_bits
    select_bits xor make_bitvec
bvsdiv dividend divisor = do
  _ ← require_same_bv_width dividend divisor
  dividend_bits ← bitvec_bits dividend
  divisor_bits ← bitvec_bits divisor
  dividend_sign ← sign_of dividend_bits
  divisor_sign ← sign_of divisor_bits
  abs_dividend ← absolute_bits dividend_bits dividend_sign
  abs_divisor ← absolute_bits divisor_bits divisor_sign
  division ← unsigned_divide_bits abs_dividend abs_divisor
  negative ← xor dividend_sign divisor_sign
  negated ← negate_bits division.0
  result ← select_bits negative negated division.0
  make_bitvec result

unfoldable pub bvsrem : ℕ → ℕ → Action ℕ
unfolding require_same_bv_width bitvec_bits absolute_bits unsigned_divide_bits negate_bits
    select_bits make_bitvec
bvsrem dividend divisor = do
  _ ← require_same_bv_width dividend divisor
  dividend_bits ← bitvec_bits dividend
  divisor_bits ← bitvec_bits divisor
  dividend_sign ← sign_of dividend_bits
  divisor_sign ← sign_of divisor_bits
  abs_dividend ← absolute_bits dividend_bits dividend_sign
  abs_divisor ← absolute_bits divisor_bits divisor_sign
  division ← unsigned_divide_bits abs_dividend abs_divisor
  negated ← negate_bits division.1
  result ← select_bits dividend_sign negated division.1
  make_bitvec result

-- The part of `bvsmod` after the division: the four cases of the signs, and a remainder of zero.
unfoldable pub modulo_of : ℕ → ℕ → List ℕ → List ℕ → Action (List ℕ)
unfolding is_zero_bits negate_bits add_bits not_ and_ select_bits
modulo_of dividend_sign divisor_sign divisor_bits unsigned_remainder = do
  remainder_is_zero ← is_zero_bits unsigned_remainder
  negated_remainder ← negate_bits unsigned_remainder
  negative_positive ← add_bits negated_remainder divisor_bits
  positive_negative ← add_bits unsigned_remainder divisor_bits
  not_dividend_sign ← not_ dividend_sign
  not_divisor_sign ← not_ divisor_sign
  both_positive ← and_ (not_dividend_sign ∷ not_divisor_sign ∷ [])
  dividend_negative ← and_ (dividend_sign ∷ not_divisor_sign ∷ [])
  dividend_positive ← and_ (not_dividend_sign ∷ divisor_sign ∷ [])
  first ← select_bits dividend_positive positive_negative.0 negated_remainder
  second ← select_bits dividend_negative negative_positive.0 first
  third ← select_bits both_positive unsigned_remainder second
  select_bits remainder_is_zero unsigned_remainder third

unfoldable pub bvsmod : ℕ → ℕ → Action ℕ
unfolding require_same_bv_width bitvec_bits absolute_bits unsigned_divide_bits modulo_of make_bitvec
bvsmod dividend divisor = do
  _ ← require_same_bv_width dividend divisor
  dividend_bits ← bitvec_bits dividend
  divisor_bits ← bitvec_bits divisor
  dividend_sign ← sign_of dividend_bits
  divisor_sign ← sign_of divisor_bits
  abs_dividend ← absolute_bits dividend_bits dividend_sign
  abs_divisor ← absolute_bits divisor_bits divisor_sign
  division ← unsigned_divide_bits abs_dividend abs_divisor
  result ← modulo_of dividend_sign divisor_sign divisor_bits division.1
  make_bitvec result
