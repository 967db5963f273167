-- ===== src/Bitvec/Words.antt =====
-- The operations of src/smt/bitvec.rs that take each bit by itself or move bits: bitwise operations,
-- concatenation, extraction and extension.
use satrap.Prelude.{
  ℕ, zero, suc, ◌+◌, ◌-◌, ◌*◌, ◌||◌, List, [], ◌∷◌, ◌++◌, replicate, take, ◌==◌, ltb, leb,
  if◌then◌else◌,
}
use satrap.Terms.{
  Sort, boolean, bit_vec, int, real, uninterpreted, array, Action, ◌>>=◌, pure, fail, panic,
  false_term, sort_of, bitvec_bits, make_bitvec, not_bit_vector, too_few_arguments,
  different_widths, bad_range, no_repeats, width_overflow, u32_limit,
}
use satrap.Terms.Build.{and_, or_, xor}
use satrap.Terms.Combine.{equal, zip_with}
use satrap.Bitvec.{check_width, not_each}

abbrev pub width_of : Sort → Action ℕ
width_of (bit_vec w) = pure w
width_of boolean = fail not_bit_vector
width_of int = fail not_bit_vector
width_of real = fail not_bit_vector
width_of (uninterpreted u) = fail not_bit_vector
width_of (array a) = fail not_bit_vector

unfoldable pub bitvec_width : ℕ → Action ℕ
unfolding sort_of
bitvec_width t = do s ← sort_of t; width_of s

unfoldable pub require_same_bv_width : ℕ → ℕ → Action ℕ
unfolding bitvec_width
require_same_bv_width left right = do
  left_width ← bitvec_width left
  right_width ← bitvec_width right
  if left_width == right_width then pure left_width else fail different_widths

unfoldable pub bvnot : ℕ → Action ℕ
unfolding bitvec_bits not_each make_bitvec
bvnot t = do bits ← bitvec_bits t; result ← not_each bits; make_bitvec result

pub data Bitwise : Type 0 where
  and_each or_each xor_each : Bitwise

abbrev pub bit_operation : Bitwise → ℕ → ℕ → Action ℕ
bit_operation and_each left right = and_ (left ∷ right ∷ [])
bit_operation or_each left right = or_ (left ∷ right ∷ [])
bit_operation xor_each left right = xor left right

unfoldable pub bitwise_onto : Bitwise → ℕ → List ℕ → List ℕ → Action (List ℕ)
unfolding bitvec_width bitvec_bits zip_with
bitwise_onto operation width result [] = pure result
bitwise_onto operation width result (t ∷ ts) = do
  term_width ← bitvec_width t
  if term_width == width
      then (do
        right ← bitvec_bits t
        next ← zip_with (bit_operation operation) result right
        bitwise_onto operation width next ts)
      else fail different_widths

unfoldable pub fold_bitwise : List ℕ → Bitwise → Action ℕ
unfolding bitvec_width bitvec_bits bitwise_onto make_bitvec
fold_bitwise [] operation = fail too_few_arguments
fold_bitwise (t ∷ []) operation = fail too_few_arguments
fold_bitwise (t ∷ u ∷ ts) operation = do
  width ← bitvec_width t
  first ← bitvec_bits t
  result ← bitwise_onto operation width first (u ∷ ts)
  make_bitvec result

abbrev pub bvand : List ℕ → Action ℕ
bvand terms = fold_bitwise terms and_each

abbrev pub bvor : List ℕ → Action ℕ
bvor terms = fold_bitwise terms or_each

abbrev pub bvxor : List ℕ → Action ℕ
bvxor terms = fold_bitwise terms xor_each

unfoldable pub bvnand : ℕ → ℕ → Action ℕ
unfolding fold_bitwise bvnot
bvnand left right = do conjunction ← bvand (left ∷ right ∷ []); bvnot conjunction

unfoldable pub bvnor : ℕ → ℕ → Action ℕ
unfolding fold_bitwise bvnot
bvnor left right = do disjunction ← bvor (left ∷ right ∷ []); bvnot disjunction

unfoldable pub bvxnor : ℕ → ℕ → Action ℕ
unfolding fold_bitwise bvnot
bvxnor left right = do exclusive ← bvxor (left ∷ right ∷ []); bvnot exclusive

unfoldable pub bvcomp : ℕ → ℕ → Action ℕ
unfolding equal make_bitvec
bvcomp left right = do equality ← equal (left ∷ right ∷ []); make_bitvec (equality ∷ [])

-- The sum of two widths, or their product, as a u32.
abbrev pub checked_width : ℕ → Action {0} Unit
checked_width width = if leb u32_limit width then fail width_overflow else check_width width

unfoldable pub concat : ℕ → ℕ → Action ℕ
unfolding bitvec_width check_width bitvec_bits make_bitvec
concat left right = do
  left_width ← bitvec_width left
  right_width ← bitvec_width right
  _ ← checked_width (left_width + right_width)
  right_bits ← bitvec_bits right
  left_bits ← bitvec_bits left
  make_bitvec (right_bits ++ left_bits)

abbrev pub drop {ℓ} : {A : Type ℓ} → ℕ → List A → List A
drop zero xs = xs
drop (suc n) [] = []
drop (suc n) (x ∷ xs) = drop n xs

unfoldable pub extract : ℕ → ℕ → ℕ → Action ℕ
unfolding bitvec_width bitvec_bits make_bitvec
extract t high low = do
  width ← bitvec_width t
  if ltb high low || leb width high
      then fail bad_range
      else do bits ← bitvec_bits t; make_bitvec (take (suc high - low) (drop low bits))

abbrev pub copies : ℕ → List ℕ → List ℕ
copies zero input = []
copies (suc n) input = input ++ copies n input

unfoldable pub repeat : ℕ → ℕ → Action ℕ
unfolding bitvec_width check_width bitvec_bits make_bitvec
repeat t zero = fail no_repeats
repeat t (suc n) = do
  width ← bitvec_width t
  _ ← checked_width (width * suc n)
  input ← bitvec_bits t
  make_bitvec (copies (suc n) input)

unfoldable pub zero_extend : ℕ → ℕ → Action ℕ
unfolding bitvec_width check_width bitvec_bits make_bitvec
zero_extend t amount = do
  width ← bitvec_width t
  _ ← checked_width (width + amount)
  bits ← bitvec_bits t
  make_bitvec (bits ++ replicate amount false_term)

abbrev pub last_or {ℓ} : {A : Type ℓ} → A → List A → A
last_or d [] = d
last_or d (x ∷ xs) = last_or x xs

-- The highest bit; it panics where there is none.
abbrev pub sign_of : List ℕ → Action ℕ
sign_of [] = fail panic
sign_of (bit ∷ bits) = pure (last_or bit bits)

unfoldable pub sign_extend : ℕ → ℕ → Action ℕ
unfolding bitvec_width check_width bitvec_bits make_bitvec
sign_extend t amount = do
  width ← bitvec_width t
  _ ← checked_width (width + amount)
  bits ← bitvec_bits t
  sign ← sign_of bits
  make_bitvec (bits ++ replicate amount sign)
