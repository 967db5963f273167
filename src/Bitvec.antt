-- ===== src/Bitvec.antt =====
-- src/smt/bitvec.rs: bit vectors as circuits over the term store. The lists of bits have the lowest
-- bit first. This file has the circuits; `Literals`, `Words`, `Shifts`, `Arithmetic` and `Compare` have
-- the operations on terms.
pub mod Gates
pub mod Number
pub mod Adder
pub mod Order
pub mod Multiply
pub mod Remainder
pub mod Divide
pub mod Literals
pub mod Words
pub mod Shifts
pub mod Arithmetic
pub mod Compare
pub mod Access
pub mod Sums
pub mod Division
pub mod Modulo
pub mod Comparison
pub mod Overflow
pub mod Least
pub mod MinusOne
pub mod Parts
pub mod Products
pub mod Amount
pub mod Shifting
pub mod Decimal
pub mod Widths
pub mod Denotes
pub mod Correct
pub mod Fresh
pub mod Examples
use satrap.Prelude.{
  ℕ, zero, suc, ◌+◌, ◌-◌, ◌*◌, Bool, true, false, List, [], ◌∷◌, ◌++◌, length, replicate, take, ltb,
  leb, if◌then◌else◌,
}
use satrap.Terms.{
  Action, ◌>>=◌, pure, fail, panic, work_limit, width_overflow, too_wide, empty_bit_vector,
  u32_limit, true_term, false_term, bool_constant,
}
use satrap.Terms.Build.{not_, and_, or_, xor, iff}
use satrap.Terms.Combine.{ite, zip_with}

abbrev pub max_bitvector_width : ℕ
max_bitvector_width = 1048576

abbrev pub max_quadratic_lowering_work : ℕ
max_quadratic_lowering_work = 16000000

unfoldable pub check_width : ℕ → Action {0} Unit
check_width zero = fail empty_bit_vector
check_width (suc n) = if ltb max_bitvector_width (suc n) then fail too_wide else pure tt

unfoldable pub check_quadratic : ℕ → Action {0} Unit
check_quadratic width =
    if ltb max_quadratic_lowering_work (width * width) then fail work_limit else pure tt

-- The loop of `add_bits`, from a carry on: the sum, and the last carry.
unfoldable pub add_from : ℕ → List ℕ → List ℕ → Action (List ℕ × ℕ)
add_from carry [] right = pure ([], carry)
add_from carry (l ∷ ls) [] = pure ([], carry)
add_from carry (l ∷ ls) (r ∷ rs) = do
  pair_sum ← xor l r
  sum ← xor pair_sum carry
  pair_carry ← and_ (l ∷ r ∷ [])
  propagated ← and_ (pair_sum ∷ carry ∷ [])
  next ← or_ (pair_carry ∷ propagated ∷ [])
  rest ← add_from next ls rs
  pure (sum ∷ rest.0, rest.1)

unfoldable pub add_bits : List ℕ → List ℕ → Action (List ℕ × ℕ)
unfolding add_from
add_bits left right = add_from false_term left right

unfoldable pub not_each : List ℕ → Action (List ℕ)
not_each [] = pure []
not_each (bit ∷ bits) = do n ← not_ bit; ns ← not_each bits; pure (n ∷ ns)

-- The number one, in as many bits; the write to the first bit panics where there is none.
abbrev pub one_bits : List ℕ → Action (List ℕ)
one_bits [] = fail panic
one_bits (bit ∷ bits) = pure (true_term ∷ replicate (length bits) false_term)

unfoldable pub negate_bits : List ℕ → Action (List ℕ)
unfolding not_each add_bits
negate_bits bits = do
  inverted ← not_each bits
  one ← one_bits bits
  sum ← add_bits inverted one
  pure sum.0

unfoldable pub subtract_bits : List ℕ → List ℕ → Action (List ℕ)
unfolding negate_bits add_bits
subtract_bits left right = do negated ← negate_bits right; sum ← add_bits left negated; pure sum.0

-- A row of the product from its first bit on, in `room` bits.
unfoldable pub product_row : ℕ → List ℕ → ℕ → Action (List ℕ)
product_row zero left right_bit = pure []
product_row (suc room) [] right_bit = pure (replicate (suc room) false_term)
product_row (suc room) (l ∷ ls) right_bit = do
  bit ← and_ (l ∷ right_bit ∷ [])
  rest ← product_row room ls right_bit
  pure (bit ∷ rest)

unfoldable pub multiply_from : ℕ → List ℕ → ℕ → List ℕ → List ℕ → Action (List ℕ)
unfolding product_row add_bits
multiply_from output_width left right_index [] result = pure result
multiply_from output_width left right_index (right_bit ∷ rs) result = do
  row ← product_row (output_width - right_index) left right_bit
  sum ← add_bits result (replicate right_index false_term ++ row)
  multiply_from output_width left (suc right_index) rs sum.0

unfoldable pub multiply_bits : List ℕ → List ℕ → ℕ → Action (List ℕ)
unfolding multiply_from
multiply_bits left right output_width =
    multiply_from output_width left 0 (take output_width right) (replicate output_width false_term)

-- The loop of `unsigned_less_than_bits`, which starts at the highest bit: `less` and `equal`.
unfoldable pub less_from : List ℕ → List ℕ → Action (ℕ × ℕ)
less_from [] right = pure (false_term, true_term)
less_from (l ∷ ls) [] = pure (false_term, true_term)
less_from (l ∷ ls) (r ∷ rs) = do
  higher ← less_from ls rs
  not_left ← not_ l
  left_less ← and_ (not_left ∷ r ∷ [])
  decisive ← and_ (higher.1 ∷ left_less ∷ [])
  less ← or_ (higher.0 ∷ decisive ∷ [])
  bit_equal ← iff l r
  equal ← and_ (higher.1 ∷ bit_equal ∷ [])
  pure (less, equal)

unfoldable pub unsigned_less_than_bits : List ℕ → List ℕ → Action ℕ
unfolding less_from
unsigned_less_than_bits left right = do result ← less_from left right; pure result.0

unfoldable pub select_bits : ℕ → List ℕ → List ℕ → Action (List ℕ)
unfolding zip_with
select_bits condition then_bits else_bits = zip_with (ite condition) then_bits else_bits

unfoldable pub is_zero_bits : List ℕ → Action ℕ
unfolding not_each
is_zero_bits bits = do zero_bits ← not_each bits; and_ zero_bits

unfoldable pub absolute_bits : List ℕ → ℕ → Action (List ℕ)
unfolding negate_bits select_bits
absolute_bits bits sign = do negated ← negate_bits bits; select_bits sign negated bits

abbrev pub drop_last {ℓ} : {A : Type ℓ} → List A → List A
drop_last [] = []
drop_last (x ∷ []) = []
drop_last (x ∷ y ∷ ys) = x ∷ drop_last (y ∷ ys)

-- The loop of `unsigned_divide_bits`, which starts at the highest bit of the dividend: the quotient
-- so far and the remainder.
unfoldable pub divide_from : List ℕ → ℕ → List ℕ → Action (List ℕ × List ℕ)
unfolding unsigned_less_than_bits subtract_bits select_bits
divide_from extended_divisor width [] = pure ([], replicate (suc width) false_term)
divide_from extended_divisor width (d ∷ ds) = do
  higher ← divide_from extended_divisor width ds
  less ← unsigned_less_than_bits (d ∷ drop_last higher.1) extended_divisor
  greater_or_equal ← not_ less
  subtracted ← subtract_bits (d ∷ drop_last higher.1) extended_divisor
  remainder ← select_bits greater_or_equal subtracted (d ∷ drop_last higher.1)
  pure (greater_or_equal ∷ higher.0, remainder)

unfoldable pub unsigned_divide_bits : List ℕ → List ℕ → Action (List ℕ × List ℕ)
unfolding check_quadratic divide_from
unsigned_divide_bits dividend divisor =
    if leb u32_limit (length dividend) then fail width_overflow else do
      _ ← check_quadratic (length dividend)
      result ← divide_from (divisor ++ false_term ∷ []) (length dividend) dividend
      pure (result.0, drop_last result.1)
